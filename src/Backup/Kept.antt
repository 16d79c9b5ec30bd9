-- ===== src/Backup/Kept.antt =====
-- controllers/mcpserverbackup_controller.go, `enforceRetentionPolicy`: which backups are left.
use mcp_operator.Prelude.{
  ℕ, zero, suc, ◌≤◌, ◌≡◌, refl, sym, ap, ◌∙◌, subst, inl, inr, Bool, true, false, ◌&&◌, ◌||◌, not,
  Option, none, some, List, [], ◌∷◌, ◌++◌, arith, ltb, Bool-cases, length, All, ℤ, pos, pos_part,
  ◌-ℤ◌, ltb_ℤ,
}
use mcp_operator.Backup.{Backup}
use mcp_operator.Backup.Retention.{
  select, is_same, is_among, after_first, beyond_last, is_older, add_older, to_delete,
}
use mcp_operator.Backup.Names.{
  AreDistinct, first, first_of, is_past_age, left_by, is_same_refl, is_same_sym, is_among-same,
  is_among-append,
}

module _ {Spec : Type 0} where
  select_cong :
      (f g : Backup Spec → Bool) (bs : List (Backup Spec))
      → All (λ b. f b ≡ g b) bs
      → select f bs ≡ select g bs
  select_cong f g [] h = refl
  select_cong f g (b ∷ bs) h = rw (h.0, select_cong f g bs h.1) refl

  select-select :
      (f g : Backup Spec → Bool) (bs : List (Backup Spec))
      → select g (select f bs) ≡ select (λ b. f b && g b) bs
  select-select f g [] = refl
  select-select f g (b ∷ bs) = ground (arith, select-select f g bs)

  select-All :
      (f : Backup Spec → Bool) (bs : List (Backup Spec))
      → All (λ b. f b ≡ true) bs
      → select f bs ≡ bs
  select-All f [] h = refl
  select-All f (b ∷ bs) h = rw (h.0, select-All f bs h.1) refl

  select_none :
      (f : Backup Spec → Bool) (bs : List (Backup Spec))
      → All (λ b. f b ≡ false) bs
      → select f bs ≡ []
  select_none f [] h = refl
  select_none f (b ∷ bs) h = rw (h.0, select_none f bs h.1) refl

  All-map :
      {P Q : Backup Spec → Type 0} (bs : List (Backup Spec))
      → ((b : Backup Spec) → P b → Q b)
      → All P bs
      → All Q bs
  All-map [] f h = tt
  All-map (b ∷ bs) f h = (f b h.0, All-map bs f h.1)

  All-always :
      {P : Backup Spec → Type 0} (bs : List (Backup Spec)) → ((b : Backup Spec) → P b) → All P bs
  All-always [] f = tt
  All-always (b ∷ bs) f = (f b, All-always bs f)

  All-both :
      (P Q : Backup Spec → Type 0) (bs : List (Backup Spec))
      → All P bs
      → All Q bs
      → All (λ b. P b × Q b) bs
  All-both P Q [] h k = tt
  All-both P Q (b ∷ bs) h k = ((h.0, k.0), All-both P Q bs h.1 k.1)

  -- Apart from a backup that is not among them.
  All-apart :
      (x : Backup Spec) (bs : List (Backup Spec))
      → is_among bs x ≡ false
      → All (λ b. is_same b x ≡ false) bs
  All-apart x [] h = tt
  All-apart x (b ∷ bs) h = (ground (arith, is_same_sym b x), All-apart x bs (ground arith))

  All-among : (bs : List (Backup Spec)) → All (λ b. is_among bs b ≡ true) bs
  All-among [] = tt
  All-among (b ∷ bs) = (rw (is_same_refl b) refl, All-map bs (λ c h. ground arith) (All-among bs))

  -- The expired ones among `bs` that have the name of `b`.
  any_older : (cutoff : ℤ) → List (Backup Spec) → Backup Spec → Bool
  any_older cutoff [] b = false
  any_older cutoff (c ∷ cs) b = (is_older cutoff c && is_same b c) || any_older cutoff cs b

  is_among-add_older :
      (cutoff : ℤ) (bs doomed : List (Backup Spec)) (b : Backup Spec)
      → is_among (add_older cutoff bs doomed) b ≡ (is_among doomed b || any_older cutoff bs b)
  unfolding add_older any_older
  is_among-add_older cutoff [] doomed b = ground arith
  is_among-add_older cutoff (c ∷ cs) doomed b =
      elim (Bool-cases (is_older cutoff c && not (is_among doomed c))) [
        | inl added ↦ rw added (
            is_among-add_older cutoff cs (doomed ++ c ∷ []) b
            ∙ ground (arith, is_among-append doomed (c ∷ []) b))
        | inr skipped ↦
            rw skipped
              (is_among-add_older cutoff cs doomed b ∙ ground (arith, is_among-same doomed b c))
      ]

  any_older-among :
      (cutoff : ℤ) (bs : List (Backup Spec)) (b : Backup Spec)
      → is_among bs b ≡ false
      → any_older cutoff bs b ≡ false
  unfolding any_older
  any_older-among cutoff [] b h = refl
  any_older-among cutoff (c ∷ cs) b h = ground (arith, any_older-among cutoff cs b)

  -- Among distinct backups, the expired one with the name of `b` is `b`.
  any_older-distinct :
      (cutoff : ℤ) (bs : List (Backup Spec))
      → AreDistinct bs
      → All (λ b. any_older cutoff bs b ≡ is_older cutoff b) bs
  unfolding any_older
  any_older-distinct cutoff [] h = tt
  any_older-distinct cutoff (x ∷ xs) h = (
    ground (arith, is_same_refl x, any_older-among cutoff xs x h.0),
    All-map xs (λ b k. ground (arith, k.0, k.1))
        (All-both _ _ xs (All-apart x xs h.0) (any_older-distinct cutoff xs h.1)),
  )

  after_first-among :
      (n : ℕ) (bs : List (Backup Spec)) (x : Backup Spec)
      → is_among bs x ≡ false
      → is_among (after_first n bs) x ≡ false
  after_first-among zero bs x h = h
  after_first-among (suc n) [] x h = refl
  after_first-among (suc n) (b ∷ bs) x h = after_first-among n bs x (ground arith)

  after_first_nil : (n : ℕ) (bs : List (Backup Spec)) → length bs ≤ n → after_first n bs ≡ []
  after_first_nil zero [] h = refl
  after_first_nil zero (b ∷ bs) h = elim h [ ]
  after_first_nil (suc n) [] h = refl
  after_first_nil (suc n) (b ∷ bs) h = after_first_nil n bs (omega arith)

  left_by-after_first :
      (n : ℕ) (bs : List (Backup Spec))
      → AreDistinct bs
      → left_by (after_first n bs) bs ≡ first n bs
  left_by-after_first zero bs h = select_none _ bs (All-map bs (λ b k. rw k refl) (All-among bs))
  left_by-after_first (suc n) [] h = refl
  left_by-after_first (suc n) (b ∷ bs) h =
      rw (after_first-among n bs b h.0) (ap (λ t. b ∷ t) (left_by-after_first n bs h.1))

  left_by-beyond_last :
      (keep_last : ℤ) (bs : List (Backup Spec))
      → AreDistinct bs
      → left_by (beyond_last keep_last bs) bs ≡ first_of keep_last bs
  unfolding beyond_last
  left_by-beyond_last keep_last bs h = elim (Bool-cases (ltb_ℤ (pos 0) keep_last)) [
    | inl limited ↦ rw limited (elim (Bool-cases (ltb (pos_part keep_last) (length bs))) [
      | inl more ↦ rw more (left_by-after_first (pos_part keep_last) bs h)
      | inr few ↦
          let fits : length bs ≤ pos_part keep_last = ground arith in
          rw few (
            subst (λ t. left_by t bs ≡ first (pos_part keep_last) bs)
              (after_first_nil (pos_part keep_last) bs fits)
              (left_by-after_first (pos_part keep_last) bs h))
    ])
    | inr unlimited ↦ rw unlimited (select-All _ bs (All-always bs (λ b. refl)))
  ]

  -- Left are the unexpired among those that the limit keeps.
  pub left_by-to_delete :
      (now keep_last : ℤ) (max_age : Option ℤ) (bs : List (Backup Spec))
      → AreDistinct bs
      → left_by (to_delete now keep_last max_age bs) bs
        ≡ select (λ b. not (is_past_age now max_age b)) (first_of keep_last bs)
  unfolding to_delete
  left_by-to_delete now keep_last none bs h =
      left_by-beyond_last keep_last bs h ∙ sym (select-All _ _ (All-always _ (λ b. refl)))
  left_by-to_delete now keep_last (some age) bs h =
      let same =
        select_cong (λ b. not (is_among (to_delete now keep_last (some age) bs) b))
          (λ b. not (is_among (beyond_last keep_last bs) b) && not (is_older (now -ℤ age) b)) bs
          (All-map bs
            (λ b k.
              ground (arith, k, is_among-add_older (now -ℤ age) bs (beyond_last keep_last bs) b))
            (any_older-distinct (now -ℤ age) bs h)) in
      same
      ∙ sym (select-select _ _ bs)
      ∙ ap (select (λ b. not (is_older (now -ℤ age) b))) (left_by-beyond_last keep_last bs h)
