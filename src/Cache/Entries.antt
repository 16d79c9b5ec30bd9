-- ===== src/Cache/Entries.antt =====
-- pkg/services/cache_service.go: one map of the cache under its operations.
use mcp_operator.Prelude.{
  String, ◌==◌, eq_iff, ◌≡◌, refl, ap, ◌∙◌, Option, none, some, [], ◌∷◌, arith, if◌then◌else◌, ℤ,
  ◌≤ℤ◌, Dict, lookup, insert, remove, lookup-insert, lookup-remove,
}
use mcp_operator.Cache.{
  CacheEntry, is_expired, live, find_live, clear_expired_entries, count_expired,
}

-- What a sweep leaves of an entry.
abbrev kept : {A : Type 0} → (now : ℤ) → Option (CacheEntry A) → Option (CacheEntry A)
kept now none = none
kept now (some e) = if is_expired now e then none else some e

lookup-clear_expired_entries :
    {A : Type 0} (now : ℤ) (key : String) (m : Dict (CacheEntry A))
    → lookup key (clear_expired_entries now m) ≡ kept now (lookup key m)
unfolding lookup clear_expired_entries
lookup-clear_expired_entries now key [] = refl
lookup-clear_expired_entries now key ((k, e) ∷ m) = ground (
  arith,
  eq_iff k key,
  lookup-remove k key (clear_expired_entries now m),
  lookup-clear_expired_entries now key m,
)

live-kept :
    {A : Type 0} (t now : ℤ) (o : Option (CacheEntry A))
    → t ≤ℤ now
    → live now (kept t o) ≡ live now o
live-kept t now none h = refl
live-kept t now (some e) h = ground arith

-- Sweeping at t changes no answer from t on.
pub find_live-clear_expired_entries :
    {A : Type 0} (t now : ℤ) (key : String) (m : Dict (CacheEntry A))
    → t ≤ℤ now
    → find_live now key (clear_expired_entries t m) ≡ find_live now key m
unfolding find_live
find_live-clear_expired_entries t now key m h =
    ap (live now) (lookup-clear_expired_entries t key m) ∙ live-kept t now (lookup key m) h

pub find_live-insert :
    {A : Type 0} (now : ℤ) (k key : String) (e : CacheEntry A) (m : Dict (CacheEntry A))
    → find_live now key (insert k e m) ≡ (
        if k == key
        then (if is_expired now e then none else some e.data_of)
        else find_live now key m)
unfolding find_live
find_live-insert now k key e m = ground (arith, lookup-insert k key e m)

pub find_live-remove :
    {A : Type 0} (now : ℤ) (k key : String) (m : Dict (CacheEntry A))
    → find_live now key (remove k m) ≡ (if k == key then none else find_live now key m)
unfolding find_live
find_live-remove now k key m = ground (arith, lookup-remove k key m)

count_expired-remove :
    {A : Type 0} (now : ℤ) (key : String) (m : Dict (CacheEntry A))
    → count_expired now m ≡ 0
    → count_expired now (remove key m) ≡ 0
unfolding remove
count_expired-remove now key [] h = refl
count_expired-remove now key ((k, e) ∷ m) h = ground (arith, count_expired-remove now key m)

pub count_expired-clear_expired_entries :
    {A : Type 0} (now : ℤ) (m : Dict (CacheEntry A))
    → count_expired now (clear_expired_entries now m) ≡ 0
unfolding clear_expired_entries
count_expired-clear_expired_entries now [] = refl
count_expired-clear_expired_entries now ((k, e) ∷ m) = ground (
  arith,
  count_expired-clear_expired_entries now m,
  count_expired-remove now k (clear_expired_entries now m),
)
