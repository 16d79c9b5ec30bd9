-- ===== src/Backup/InsertionSort.antt =====
-- A sort by a comparator, in the place of Go's `sort.Slice` where a backup controller
-- (controllers/mcpserverbackup_controller.go) is run on a concrete input.
use mathlib.Core.List.Permᴰ
use mathlib.Core.List.{Permᴰ}
use mcp_operator.Prelude.{
  ◌≡◌, refl, inl, inr, Bool, false, List, [], ◌∷◌, if◌then◌else◌, Bool-cases, All,
}
use mcp_operator.Backup.{Backup}
use mcp_operator.Backup.Names.{IsOrder, IsSortedBy}

module _ {Spec : Type 0} (less : Backup Spec → Backup Spec → Bool) where
  abbrev pub insert : Backup Spec → List (Backup Spec) → List (Backup Spec)
  insert b [] = b ∷ []
  insert b (c ∷ cs) = let rest = insert b cs in if less c b then c ∷ rest else b ∷ c ∷ cs

  abbrev pub insertion_sort : List (Backup Spec) → List (Backup Spec)
  insertion_sort [] = []
  insertion_sort (b ∷ bs) = insert b (insertion_sort bs)

  insert-perm : (b : Backup Spec) (cs : List (Backup Spec)) → Permᴰ (insert b cs) (b ∷ cs)
  insert-perm b [] = Permᴰ.refl (b ∷ [])
  insert-perm b (c ∷ cs) = elim (Bool-cases (less c b)) [
    | inl h ↦ rw h (Permᴰ.trans (Permᴰ.cons refl (insert-perm b cs)) (Permᴰ.swap refl refl))
    | inr h ↦ rw h (Permᴰ.refl (b ∷ c ∷ cs))
  ]

  pub insertion_sort-perm : (bs : List (Backup Spec)) → Permᴰ (insertion_sort bs) bs
  insertion_sort-perm [] = Permᴰ.nil
  insertion_sort-perm (b ∷ bs) =
      Permᴰ.trans (insert-perm b (insertion_sort bs)) (Permᴰ.cons refl (insertion_sort-perm bs))

  insert-All :
      (P : Backup Spec → Type 0) (b : Backup Spec) (cs : List (Backup Spec))
      → P b
      → All P cs
      → All P (insert b cs)
  insert-All P b [] h k = (h, tt)
  insert-All P b (c ∷ cs) h k = elim (Bool-cases (less c b)) [
    | inl e ↦ rw e (k.0, insert-All P b cs h k.1)
    | inr e ↦ rw e (h, k)
  ]

  module _ (order : IsOrder less) where
    none_less :
        (b c : Backup Spec) (cs : List (Backup Spec))
        → less c b ≡ false
        → All (λ d. less d c ≡ false) cs
        → All (λ d. less d b ≡ false) cs
    none_less b c [] h k = tt
    none_less b c (d ∷ ds) h k = (order.negtrans d c b k.0 h, none_less b c ds h k.1)

    insert-IsSortedBy :
        (b : Backup Spec) (cs : List (Backup Spec))
        → IsSortedBy less cs
        → IsSortedBy less (insert b cs)
    insert-IsSortedBy b [] h = (tt, tt)
    insert-IsSortedBy b (c ∷ cs) h = elim (Bool-cases (less c b)) [
      | inl e ↦ rw e (
        insert-All (λ d. less d c ≡ false) b cs (order.asym c b e) h.0,
        insert-IsSortedBy b cs h.1,
      )
      | inr e ↦ rw e ((e, none_less b c cs e h.0), h)
    ]

    pub insertion_sort-IsSortedBy : (bs : List (Backup Spec)) → IsSortedBy less (insertion_sort bs)
    insertion_sort-IsSortedBy [] = tt
    insertion_sort-IsSortedBy (b ∷ bs) =
        insert-IsSortedBy b (insertion_sort bs) (insertion_sort-IsSortedBy bs)
