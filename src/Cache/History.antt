-- ===== src/Cache/History.antt =====
-- pkg/services/cache_service.go: a contract of one map, and the map against it. A history has the
-- latest operation first, each with its instant.
use mcp_operator.Prelude.{
  String, ◌==◌, ◌≡◌, refl, ap, ◌∙◌, Option, none, some, List, [], ◌∷◌, if◌then◌else◌, All, ℤ, ◌+ℤ◌,
  ◌≤ℤ◌, ltb_ℤ, Dict, lookup, insert, remove,
}
use mcp_operator.Cache.{CacheEntry, find_live, make_entry, clear_expired_entries}
use mcp_operator.Cache.Entries.{find_live-clear_expired_entries, find_live-insert, find_live-remove}

-- What a command does to one of the three maps.
pub data Op (A : Type 0) : Type 0 where
  put : (key : String) → A → (ttl : ℤ) → Op A
  drop : (key : String) → Op A
  sweep : Op A
  wipe : Op A
  idle : Op A

module _ {A : Type 0} where
  unfoldable pub apply : ℤ → Op A → Dict (CacheEntry A) → Dict (CacheEntry A)
  unfolding clear_expired_entries
  apply now (put key a ttl) m = insert key (make_entry now a ttl) m
  apply now (drop key) m = remove key m
  apply now sweep m = clear_expired_entries now m
  apply now wipe m = []
  apply now idle m = m

  unfoldable pub after : List (ℤ × Op A) → Dict (CacheEntry A)
  unfolding apply
  after [] = []
  after ((t, op) ∷ history) = apply t op (after history)

  -- The promise: the value of the latest write of the key that nothing has dropped or wiped since,
  -- until its time to live is over. Sweeps do not show.
  unfoldable pub promised : (now : ℤ) → (key : String) → List (ℤ × Op A) → Option A
  promised now key [] = none
  promised now key ((t, put k a ttl) ∷ history) =
      let older = promised now key history in
      if k == key then (if ltb_ℤ (t +ℤ ttl) now then none else some a) else older
  promised now key ((t, drop k) ∷ history) =
      let older = promised now key history in if k == key then none else older
  promised now key ((t, sweep) ∷ history) = promised now key history
  promised now key ((t, wipe) ∷ history) = none
  promised now key ((t, idle) ∷ history) = promised now key history

  -- All instants of a history are at most `now`.
  abbrev pub Past : ℤ → List (ℤ × Op A) → Type 0
  Past now history = All (λ x. x.0 ≤ℤ now) history

  no_entry : (now : ℤ) (key : String) → find_live {A = A} now key [] ≡ none
  unfolding find_live lookup
  no_entry now key = refl

  pub find_live-after :
      (now : ℤ) (key : String) (history : List (ℤ × Op A))
      → Past now history
      → find_live now key (after history) ≡ promised now key history
  unfolding after apply promised
  find_live-after now key [] h = no_entry now key
  find_live-after now key ((t, put k a ttl) ∷ history) h =
      find_live-insert now k key (make_entry t a ttl) (after history)
      ∙ ap (λ o. if k == key then (if ltb_ℤ (t +ℤ ttl) now then none else some a) else o)
          (find_live-after now key history h.1)
  find_live-after now key ((t, drop k) ∷ history) h =
      find_live-remove now k key (after history)
      ∙ ap (λ o. if k == key then none else o) (find_live-after now key history h.1)
  find_live-after now key ((t, sweep) ∷ history) h =
      find_live-clear_expired_entries t now key (after history) h.0
      ∙ find_live-after now key history h.1
  find_live-after now key ((t, wipe) ∷ history) h = no_entry now key
  find_live-after now key ((t, idle) ∷ history) h = find_live-after now key history h.1
