-- ===== src/Status/Conditions.antt =====
-- pkg/services/status_service.go: a list of conditions as a map from types, with transition times.
use mcp_operator.Prelude.{
  String, ◌==◌, eq_iff, ◌≡◌, refl, ◌≢◌, false, Option, none, some, List, [], ◌∷◌, arith,
  if◌then◌else◌, contains,
}
use mcp_operator.Api.{Condition}
use mcp_operator.Status.{put_condition, find_condition, condition_true, is_condition_true}

-- The condition that a write leaves under its type: the old one's transition time if the status is
-- the same.
abbrev pub merged : Condition → Option Condition → Condition
merged c none = c
merged c (some old) =
    if old.status == c.status then record old { reason = c.reason; message = c.message } else c

-- A lookup after a write finds, under the written type, the new status, reason and message, with
-- the old transition time exactly if the status has not changed, and under any other type what was
-- there before.
pub find_condition-put_condition :
    (c : Condition) (kind : String) (cs : List Condition)
    → find_condition kind (put_condition c cs) ≡ (
        if c.kind == kind
        then some (merged c (find_condition c.kind cs))
        else find_condition kind cs)
unfolding find_condition put_condition
find_condition-put_condition c kind [] = ground arith
find_condition-put_condition c kind (old ∷ cs) = ground (
  arith,
  eq_iff old.kind c.kind,
  eq_iff old.kind kind,
  eq_iff c.kind kind,
  eq_iff old.status c.status,
  find_condition-put_condition c kind cs,
)

abbrev pub kinds : List Condition → List String
kinds [] = []
kinds (c ∷ cs) = c.kind ∷ kinds cs

abbrev pub Distinct : List String → Type 0
Distinct [] = Unit {0}
Distinct (k ∷ ks) = (contains ks k ≡ false) × Distinct ks

contains-put_condition :
    (c : Condition) (kind : String) (cs : List Condition)
    → kind ≢ c.kind
    → contains (kinds (put_condition c cs)) kind ≡ contains (kinds cs) kind
unfolding put_condition
contains-put_condition c kind [] h = ground (arith, eq_iff c.kind kind)
contains-put_condition c kind (old ∷ cs) h = ground (
  arith,
  eq_iff old.kind c.kind,
  eq_iff old.kind kind,
  eq_iff c.kind kind,
  contains-put_condition c kind cs h,
)

-- Conditions with distinct types keep distinct types, whatever is written.
pub put_condition-Distinct :
    (c : Condition) (cs : List Condition)
    → Distinct (kinds cs)
    → Distinct (kinds (put_condition c cs))
unfolding put_condition
put_condition-Distinct c [] h = (refl, tt)
put_condition-Distinct c (old ∷ cs) h = ground (
  arith,
  eq_iff old.kind c.kind,
  contains-put_condition c old.kind cs,
  put_condition-Distinct c cs h.1,
)

merged-status : (c : Condition) (old : Option Condition) → (merged c old).status ≡ c.status
merged-status c none = refl
merged-status c (some old) = ground (arith, eq_iff old.status c.status)

-- After a write the written type is true exactly if the new status is "True", and the others are as
-- before.
pub is_condition_true-put_condition :
    (c : Condition) (kind : String) (cs : List Condition)
    → is_condition_true kind (put_condition c cs)
      ≡ (if c.kind == kind then c.status == condition_true else is_condition_true kind cs)
unfolding is_condition_true
is_condition_true-put_condition c kind cs =
    rw (find_condition-put_condition c kind cs, is_condition_true)
      (ground (arith, merged-status c (find_condition c.kind cs)))
