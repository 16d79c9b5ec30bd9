-- ===== src/Backup/Policy.antt =====
-- controllers/mcpserverbackup_controller.go, `enforceRetentionPolicy` as a whole.
use mathlib.Core.List.{Permᴰ}
use mcp_operator.Prelude.{
  ℕ, zero, suc, String, ◌≡◌, refl, sym, ◌∙◌, ◌≢◌, inl, inr, Bool, true, false, ◌&&◌, ◌||◌, not,
  Option, none, some, List, [], ◌∷◌, ◌++◌, arith, eqb, Bool-cases, length, All, ℤ, pos, negsuc,
  pos_part, ◌-ℤ◌, ◌≤ℤ◌,
}
use mcp_operator.Backup.{RetentionPolicy, Backup}
use mcp_operator.Backup.Retention.{
  Deletion, done, not_found, refused, select, is_completed, is_among, after_first, is_newer,
  beyond_last, is_older, add_older, to_delete, request_deletions, enforce_retention_policy,
}
use mcp_operator.Backup.Names.{
  AreDistinct, NewestFirst, IsOrder, IsSortedBy, first_of, is_past_age, left_by, is_among-append,
  is_among-perm, AreDistinct-perm, perm-nil,
}
use mcp_operator.Backup.Kept.{left_by-to_delete}

module _ {Spec : Type 0} where
  request_deletions_step :
      (delete : Backup Spec → Deletion) (b : Backup Spec) (bs : List (Backup Spec)) (d : Deletion)
      → delete b ≡ d
      → ((err : String) → d ≢ refused err)
      → request_deletions delete bs ≡ (bs, none)
      → request_deletions delete (b ∷ bs) ≡ (b ∷ bs, none)
  unfolding request_deletions
  request_deletions_step delete b bs done e h ih = ground arith
  request_deletions_step delete b bs not_found e h ih = ground arith
  request_deletions_step delete b bs (refused err) e h ih = absurd (h err refl)

  request_deletions-accepted :
      (delete : Backup Spec → Deletion) (bs : List (Backup Spec))
      → ((b : Backup Spec) (err : String) → delete b ≢ refused err)
      → request_deletions delete bs ≡ (bs, none)
  unfolding request_deletions
  request_deletions-accepted delete [] h = refl
  request_deletions-accepted delete (b ∷ bs) h =
      request_deletions_step delete b bs (delete b) refl (h b)
        (request_deletions-accepted delete bs h)

  is_empty : (bs : List (Backup Spec)) → eqb (length bs) 0 ≡ true → bs ≡ []
  is_empty [] h = refl
  is_empty (b ∷ bs) h = ground arith

  first_of-nil : (keep_last : ℤ) → first_of {Spec = Spec} keep_last [] ≡ []
  first_of-nil (negsuc n) = ground arith
  first_of-nil (pos zero) = refl
  first_of-nil (pos (suc n)) = ground arith

  after_first-is_among :
      (n : ℕ) (bs : List (Backup Spec)) (b : Backup Spec)
      → is_among (after_first n bs) b ≡ true
      → is_among bs b ≡ true
  after_first-is_among zero bs b h = h
  after_first-is_among (suc n) [] b h = h
  after_first-is_among (suc n) (c ∷ cs) b h = ground (arith, after_first-is_among n cs b)

  beyond_last-is_among :
      (keep_last : ℤ) (bs : List (Backup Spec)) (b : Backup Spec)
      → is_among (beyond_last keep_last bs) b ≡ true
      → is_among bs b ≡ true
  unfolding beyond_last
  beyond_last-is_among keep_last bs b h =
      ground (arith, after_first-is_among (pos_part keep_last) bs b)

  add_older-is_among :
      (cutoff : ℤ) (bs doomed : List (Backup Spec)) (b : Backup Spec)
      → is_among (add_older cutoff bs doomed) b ≡ true
      → (is_among bs b || is_among doomed b) ≡ true
  unfolding add_older
  add_older-is_among cutoff [] doomed b h = h
  add_older-is_among cutoff (c ∷ cs) doomed b h =
      elim (Bool-cases (is_older cutoff c && not (is_among doomed c))) [
        | inl added ↦ ground (
          arith,
          add_older-is_among cutoff cs (doomed ++ c ∷ []) b,
          is_among-append doomed (c ∷ []) b,
        )
        | inr skipped ↦ ground (arith, add_older-is_among cutoff cs doomed b)
      ]

  to_delete-is_among :
      (now keep_last : ℤ) (max_age : Option ℤ) (bs : List (Backup Spec)) (b : Backup Spec)
      → is_among (to_delete now keep_last max_age bs) b ≡ true
      → is_among bs b ≡ true
  unfolding to_delete
  to_delete-is_among now keep_last none bs b h = beyond_last-is_among keep_last bs b h
  to_delete-is_among now keep_last (some age) bs b h = ground (
    arith,
    add_older-is_among (now -ℤ age) bs (beyond_last keep_last bs) b,
    beyond_last-is_among keep_last bs b,
  )

  is_newer-IsOrder : IsOrder {Spec = Spec} is_newer
  is_newer-IsOrder = record { asym = λ b c h. ground arith; negtrans = λ b c d h k. ground arith }

  none_newer-All :
      (b : Backup Spec) (cs : List (Backup Spec))
      → All (λ c. is_newer c b ≡ false) cs
      → All (λ c. c.creation_timestamp ≤ℤ b.creation_timestamp) cs
  none_newer-All b [] h = tt
  none_newer-All b (c ∷ cs) h = (ground (arith, h.0), none_newer-All b cs h.1)

  IsSortedBy-NewestFirst : (bs : List (Backup Spec)) → IsSortedBy is_newer bs → NewestFirst bs
  IsSortedBy-NewestFirst [] h = tt
  IsSortedBy-NewestFirst (b ∷ bs) h = (none_newer-All b bs h.0, IsSortedBy-NewestFirst bs h.1)

  -- What a policy with a `KeepLast` does to the listed backups, `asked` being the deletions.
  pub record IsEnforced (now keep_last : ℤ) (max_age : Option ℤ) (items asked : List (Backup Spec))
      : Type 0 where
    pub order : List (Backup Spec)
    pub permuted : Permᴰ order (select is_completed items)
    pub newest : NewestFirst order
    pub left :
        left_by asked order
        ≡ select (λ b. not (is_past_age now max_age b)) (first_of keep_last order)
    pub within :
        (b : Backup Spec) → is_among asked b ≡ true → is_among (select is_completed items) b ≡ true

  -- Where `sort.Slice` permutes and sorts by every comparator that is a strict weak order, the API
  -- server refuses no deletion and the listed completed backups have distinct names, a policy with
  -- a limit `KeepLast` ends without an error. The completed backups can then be put in an order,
  -- the newest first, in which those that no deletion names are the first as many as the limit
  -- says, or all if it is not positive, less those older than `MaxAge`; and only completed backups
  -- are deleted.
  pub enforce_retention_policy-IsEnforced :
      (sort : (less : Backup Spec → Backup Spec → Bool) → List (Backup Spec) → List (Backup Spec))
      (delete : Backup Spec → Deletion) (now keep_last : ℤ) (items : List (Backup Spec))
      (policy : RetentionPolicy)
      → ((less : Backup Spec → Backup Spec → Bool) (bs : List (Backup Spec))
          → Permᴰ (sort less bs) bs)
      → ((less : Backup Spec → Backup Spec → Bool)
          → IsOrder less
          → (bs : List (Backup Spec)) → IsSortedBy less (sort less bs))
      → ((b : Backup Spec) (err : String) → delete b ≢ refused err)
      → policy.keep_last ≡ some keep_last
      → AreDistinct (select is_completed items)
      → ((enforce_retention_policy sort delete now (inr items) policy).1 ≡ none)
        × IsEnforced now keep_last policy.max_age items
            (enforce_retention_policy sort delete now (inr items) policy).0
  unfolding enforce_retention_policy
  enforce_retention_policy-IsEnforced sort delete now keep_last items policy permutes sorts accepted
        e distinct =
      let completed_ones = select is_completed items in
      let order = sort is_newer completed_ones in
      let p = permutes is_newer completed_ones in
      let newest = IsSortedBy-NewestFirst order (sorts is_newer is_newer-IsOrder completed_ones) in
      let done_all =
        request_deletions-accepted delete (to_delete now keep_last policy.max_age order) accepted in
      rw e (elim (Bool-cases (eqb (length completed_ones) 0)) [
        | inl nobody ↦
            let none_sorted = perm-nil p (is_empty completed_ones nobody) in
            rw nobody (
              refl,
              record {
                order = order;
                permuted = p;
                newest = newest;
                left = rw (none_sorted, first_of-nil keep_last) refl;
                within = λ b h. cc;
              },
            )
        | inr some_left ↦
            rw (some_left, done_all)
              (
                refl,
                record {
                  order = order;
                  permuted = p;
                  newest = newest;
                  left =
                      left_by-to_delete now keep_last policy.max_age order
                        (AreDistinct-perm p distinct);
                  within = λ b h.
                      sym (is_among-perm b p)
                      ∙ to_delete-is_among now keep_last policy.max_age order b h;
                },
              )
      ])
