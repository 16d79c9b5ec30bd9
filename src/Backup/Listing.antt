-- ===== src/Backup/Listing.antt =====
-- controllers/mcpserverbackup_controller.go, `deleteS3BackupObjects`: when the loops end.
use mathlib.Core.Option
use mcp_operator.Prelude.{
  ℕ, zero, suc, ◌+◌, ◌-◌, ◌≤◌, ◌<◌, String, ◌≡◌, refl, ap, ◌∙◌, ◌↔◌, true, false, Option, none,
  some, List, [], ◌∷◌, ◌++◌, arith, length, All,
}
use mcp_operator.Backup.Objects.{
  Page, broken, page, collect, list_objects, split_at, delete_batches,
}

-- The n-th answer or a later one is a last page.
abbrev pub HasLast : (ℕ → Page) → ℕ → Type 0
HasLast answer n = (m : ℕ) × (keys : List String) × (n ≤ m) × (answer m ≡ page keys false)

abbrev pub Ends : (ℕ → Page) → ℕ → Type 0
Ends answer n = (rounds : ℕ) × (keys : List String) × (list_objects rounds answer n ≡ some keys)

later : (answer : ℕ → Page) (n : ℕ) → HasLast answer (suc n) → HasLast answer n
later answer n (m, keys, le, e) = (m, keys, omega arith, e)

-- One round that collects something has had a last page, or something came later.
collected :
    (answer : ℕ → Page) (n : ℕ) (p : Page) (rest : Option (List String)) (keys : List String)
    → answer n ≡ p
    → ((found : List String) → rest ≡ some found → HasLast answer n)
    → collect p rest ≡ some keys
    → HasLast answer n
collected answer n broken (some rest) keys e ih h = ih rest refl
collected answer n broken none keys e ih h = cc
collected answer n (page ks false) rest keys e ih h = (n, ks, omega arith, e)
collected answer n (page ks true) none keys e ih h = cc
collected answer n (page ks true) (some rest) keys e ih h = ih rest refl

ends-HasLast :
    (answer : ℕ → Page) (rounds n : ℕ) (keys : List String)
    → list_objects rounds answer n ≡ some keys
    → HasLast answer n
unfolding list_objects
ends-HasLast answer zero n keys h = cc
ends-HasLast answer (suc rounds) n keys h =
    collected answer n (answer n) (list_objects rounds answer (suc n)) keys refl
      (λ found r. later answer n (ends-HasLast answer rounds (suc n) found r)) h

collect-some :
    (p : Page) (rest : List String) → (keys : List String) × (collect p (some rest) ≡ some keys)
collect-some broken rest = (rest, refl)
collect-some (page ks false) rest = (ks, refl)
collect-some (page ks true) rest = (ks ++ rest, refl)

HasLast-ends :
    (answer : ℕ → Page) (d n m : ℕ) (last : List String)
    → m ≡ d + n
    → answer m ≡ page last false
    → (keys : List String) × (list_objects (suc d) answer n ≡ some keys)
unfolding list_objects
HasLast-ends answer zero n m last e h =
    let here : m ≡ n = omega arith in (last, rw (← here, h) refl)
HasLast-ends answer (suc d) n m last e h =
    let (rest, r) = HasLast-ends answer d (suc n) m last (omega arith) h in
    let (keys, k) = collect-some (answer n) rest in (keys, ap (collect (answer n)) r ∙ k)

-- The listing ends, in some number of rounds, exactly if the request at hand or a later one is
-- answered by a last page: while every request fails, it goes on for ever.
pub list_objects_iff : (answer : ℕ → Page) (n : ℕ) → Ends answer n ↔ HasLast answer n
list_objects_iff answer n = (
  λ ends. ends-HasLast answer ends.0 n ends.1 ends.2,
  λ last.
      let r = HasLast-ends answer (last.0 - n) n last.0 last.1 (omega arith) last.3 in
      (suc (last.0 - n), r.0, r.1),
)

abbrev pub flatten : List (List String) → List String
flatten [] = []
flatten (b ∷ bs) = b ++ flatten bs

split_at_lem :
    (n : ℕ) (keys : List String)
    → ((split_at n keys).0 ++ (split_at n keys).1 ≡ keys)
      × (length (split_at n keys).0 ≤ n)
      × (length (split_at n keys).1 ≡ length keys - n)
split_at_lem zero keys = (refl, omega arith, omega arith)
split_at_lem (suc n) [] = (refl, omega arith, omega arith)
split_at_lem (suc n) (key ∷ keys) =
    let (e, le, r) = split_at_lem n keys in (ap (λ t. key ∷ t) e, omega arith, omega arith)

-- Where every request succeeds, the loop ends in at most as many rounds as there are objects: the
-- batches, each of at most `size`, are the objects in order, none twice and none left out.
pub flatten-delete_batches :
    (rounds size : ℕ) (keys : List String)
    → length keys ≤ rounds
    → 0 < size
    → (batches : List (List String)) × (delete_batches rounds size (λ _. true) keys
        ≡ some (batches, true))
      × (flatten batches ≡ keys)
      × All (λ b. length b ≤ size) batches
unfolding delete_batches
flatten-delete_batches rounds size [] le positive = ([], refl, refl, tt)
flatten-delete_batches zero size (key ∷ keys) le positive = absurd (omega arith)
flatten-delete_batches (suc rounds) size (key ∷ keys) le positive =
    let batch = (split_at size (key ∷ keys)).0 in
    let rest = (split_at size (key ∷ keys)).1 in
    let (joined, small, shorter) = split_at_lem size (key ∷ keys) in
    let (batches, done, flat, all_small) =
      flatten-delete_batches rounds size rest (omega arith) positive in
    (
      batch ∷ batches,
      ap (Option.map (λ r. (batch ∷ r.0, r.1))) done,
      ap (λ t. batch ++ t) flat ∙ joined,
      (small, all_small),
    )
