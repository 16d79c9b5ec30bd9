-- ===== src/RetryService/Results.antt =====
-- pkg/services/retry_service.go: how the loop ends.
use mcp_operator.Prelude.{
  ℕ, zero, suc, ◌+◌, ◌≤◌, ◌<◌, String, ◌≡◌, refl, sym, ap, ◌∙◌, inl, inr, true, false, none, some,
  [], ◌∷◌, arith, Option-cases, is_some, ℤ, pos, concat,
}
use mcp_operator.RetryService.{Attempts, Retried, attempts_from, retry_with_backoff}

abbrev pub after_calls : ℕ → Retried
after_calls n = record { calls = n; error = none }

module _ (at : Attempts) (open_done : (i : ℕ) → at.is_done i ≡ false)
    (open_cut : (i : ℕ) → at.is_cut i ≡ false) where
  -- Attempt `m` succeeds, and from `n` on all before it fail.
  attempts_from_succeeds :
      (left n m : ℕ) (exhausted : String → String)
      → n ≤ m
      → m ≤ n + left
      → ((i : ℕ) → n ≤ i → i < m → is_some (at.operation i) ≡ true)
      → at.operation m ≡ none
      → attempts_from at left n exhausted ≡ after_calls (suc m)
  unfolding attempts_from
  attempts_from_succeeds zero n m exhausted le near fails ok =
      let here : n ≡ m = omega arith in rw (open_done n, here) (ground (arith, ok))
  attempts_from_succeeds (suc left) n m exhausted le near fails ok =
      elim (Option-cases (at.operation n)) [
        | inl now ↦ let here : n ≡ m = ground (arith, fails n) in rw (open_done n, now, here) refl
        | inr (err, e) ↦
            let before : n < m = ground (arith, ap (λ i. at.operation i) {x = n} {y = m}) in
            rw (open_done n, e, open_cut n)
              (attempts_from_succeeds left (suc n) m exhausted (omega arith) (omega arith)
                (λ i h k. fails i (omega arith) k) ok)
      ]

  attempts_from_exhausted :
      (left n : ℕ) (last : String) (exhausted : String → String)
      → ((i : ℕ) → is_some (at.operation i) ≡ true)
      → at.operation (n + left) ≡ some last
      → attempts_from at left n exhausted
        ≡ record { calls = suc (n + left); error = some (exhausted last) }
  unfolding attempts_from
  attempts_from_exhausted zero n last exhausted fails e =
      let here : n ≡ n + 0 = omega arith in
      let answer : at.operation n ≡ some last = ap at.operation here ∙ e in
      rw (open_done n, answer) (ground arith)
  attempts_from_exhausted (suc left) n last exhausted fails e =
      let shifted : n + suc left ≡ suc n + left = omega arith in
      let ih =
        attempts_from_exhausted left (suc n) last exhausted fails
          (ap at.operation (sym shifted) ∙ e) in
      elim (Option-cases (at.operation n)) [
        | inl ok ↦ absurd (ground (arith, fails n))
        | inr (err, failed) ↦ rw (open_done n, failed, open_cut n, shifted) ih
      ]

  -- With a limit of `left + 1` attempts and a context that stays open: an operation that first
  -- succeeds at attempt m, counted from 0 and within the limit, is called m + 1 times and leaves no
  -- error; one that always fails is called as often as the limit says, and the error is the last
  -- one.
  pub retry_with_backoff_ends :
      (show : ℤ → String) (left : ℕ)
      → ((m : ℕ)
          → m ≤ left
          → ((i : ℕ) → i < m → is_some (at.operation i) ≡ true)
          → at.operation m ≡ none
          → retry_with_backoff at show (pos (suc left)) ≡ after_calls (suc m))
        × ((last : String)
            → ((i : ℕ) → is_some (at.operation i) ≡ true)
            → at.operation left ≡ some last
            → retry_with_backoff at show (pos (suc left)) ≡ record {
              calls = suc left;
              error = some (
                  concat (
                    "operation failed after " ∷ show (pos (suc left)) ∷ " attempts: " ∷ last ∷ []));
            })
  unfolding retry_with_backoff
  retry_with_backoff_ends show left = (
    λ m le fails ok.
        attempts_from_succeeds left 0 m _ (omega arith) (omega arith) (λ i h k. fails i k) ok,
    λ last fails e.
        let here : 0 + left ≡ left = omega arith in
        attempts_from_exhausted left 0 last _ fails (ap at.operation here ∙ e)
        ∙ ground (arith, here),
  )
