-- ===== src/Backup/Names.antt =====
-- Backups by name and namespace, as `enforceRetentionPolicy` of
-- controllers/mcpserverbackup_controller.go compares them, and what it should leave.
use mathlib.Core.List.{Permᴰ}
use mcp_operator.Prelude.{
  ℕ, zero, suc, eq_iff, ◌≡◌, refl, ◌∙◌, Bool, true, false, ◌||◌, not, Option, none, some, List, [],
  ◌∷◌, ◌++◌, arith, if◌then◌else◌, All, ℤ, pos, pos_part, ◌-ℤ◌, ◌≤ℤ◌, ltb_ℤ,
}
use mcp_operator.Backup.{Backup}
use mcp_operator.Backup.Retention.{select, is_same, is_among, is_older}

module _ {Spec : Type 0} where
  -- No two have the same name and namespace.
  abbrev pub AreDistinct : List (Backup Spec) → Type 0
  AreDistinct [] = Unit
  AreDistinct (b ∷ bs) = (is_among bs b ≡ false) × AreDistinct bs

  abbrev pub NewestFirst : List (Backup Spec) → Type 0
  NewestFirst [] = Unit
  NewestFirst (b ∷ bs) = All (λ c. c.creation_timestamp ≤ℤ b.creation_timestamp) bs × NewestFirst bs

  -- A strict weak order: asymmetric, and what is not less than one that is not less is not less.
  pub record IsOrder (less : Backup Spec → Backup Spec → Bool) : Type 0 where
    pub asym : (b c : Backup Spec) → less b c ≡ true → less c b ≡ false
    pub negtrans : (b c d : Backup Spec) → less b c ≡ false → less c d ≡ false → less b d ≡ false

  -- No later one is less than an earlier one.
  abbrev pub IsSortedBy : (less : Backup Spec → Backup Spec → Bool) → List (Backup Spec) → Type 0
  IsSortedBy less [] = Unit
  IsSortedBy less (b ∷ bs) = All (λ c. less c b ≡ false) bs × IsSortedBy less bs

  abbrev pub first : ℕ → List (Backup Spec) → List (Backup Spec)
  first zero bs = []
  first (suc n) [] = []
  first (suc n) (b ∷ bs) = b ∷ first n bs

  -- A limit that is not positive keeps all.
  abbrev pub first_of : ℤ → List (Backup Spec) → List (Backup Spec)
  first_of keep_last bs = if ltb_ℤ (pos 0) keep_last then first (pos_part keep_last) bs else bs

  abbrev pub is_past_age : (now : ℤ) → Option ℤ → Backup Spec → Bool
  is_past_age now none b = false
  is_past_age now (some age) b = is_older (now -ℤ age) b

  -- Those that no deletion names.
  abbrev pub left_by : List (Backup Spec) → List (Backup Spec) → List (Backup Spec)
  left_by asked = select (λ b. not (is_among asked b))

  pub is_same_refl : (b : Backup Spec) → is_same b b ≡ true
  is_same_refl b = ground (arith, eq_iff b.name b.name, eq_iff b.namespace b.namespace)

  pub is_same_sym : (b c : Backup Spec) → is_same b c ≡ is_same c b
  is_same_sym b c = ground (
    arith,
    eq_iff b.name c.name,
    eq_iff c.name b.name,
    eq_iff b.namespace c.namespace,
    eq_iff c.namespace b.namespace,
  )

  is_same_trans : (a b c : Backup Spec) → is_same a b ≡ true → is_same a c ≡ is_same b c
  is_same_trans a b c h = ground (
    arith,
    eq_iff b.name a.name,
    eq_iff c.name a.name,
    eq_iff c.name b.name,
    eq_iff b.namespace a.namespace,
    eq_iff c.namespace a.namespace,
    eq_iff c.namespace b.namespace,
  )

  pub is_among-same :
      (cs : List (Backup Spec)) (a b : Backup Spec)
      → is_same a b ≡ true
      → is_among cs a ≡ is_among cs b
  is_among-same [] a b h = refl
  is_among-same (c ∷ cs) a b h = ground (arith, is_same_trans a b c h, is_among-same cs a b h)

  pub is_among-append :
      (cs ds : List (Backup Spec)) (b : Backup Spec)
      → is_among (cs ++ ds) b ≡ (is_among cs b || is_among ds b)
  is_among-append [] ds b = refl
  is_among-append (c ∷ cs) ds b = ground (arith, is_among-append cs ds b)

  pub is_among-perm :
      (b : Backup Spec) {cs ds : List (Backup Spec)} → Permᴰ cs ds → is_among cs b ≡ is_among ds b
  is_among-perm b Permᴰ.nil = refl
  is_among-perm b (Permᴰ.cons e p) = rw e (ground (arith, is_among-perm b p))
  is_among-perm b (Permᴰ.swap e f) = rw (e, f) (ground arith)
  is_among-perm b (Permᴰ.trans p q) = is_among-perm b p ∙ is_among-perm b q

  pub AreDistinct-perm :
      {cs ds : List (Backup Spec)} → Permᴰ cs ds → AreDistinct ds → AreDistinct cs
  AreDistinct-perm Permᴰ.nil h = h
  AreDistinct-perm (Permᴰ.cons e p) h = rw e (is_among-perm _ p ∙ h.0, AreDistinct-perm p h.1)
  AreDistinct-perm (Permᴰ.swap {a} {b} {a'} {b'} e f) h =
      rw (e, f) (ground (arith, is_same_sym a' b'))
  AreDistinct-perm (Permᴰ.trans p q) h = AreDistinct-perm p (AreDistinct-perm q h)

  pub perm-nil : {cs ds : List (Backup Spec)} → Permᴰ cs ds → ds ≡ [] → cs ≡ []
  perm-nil Permᴰ.nil h = refl
  perm-nil (Permᴰ.cons e p) h = cc
  perm-nil (Permᴰ.swap e f) h = cc
  perm-nil (Permᴰ.trans p q) h = perm-nil p (perm-nil q h)
