-- ===== src/Retry/Results.antt =====
-- pkg/retry/retry.go: the results and the number of calls of the two retriers.
use native.Mathlib.Nat.{zero-add}
use native.Mathlib.Numerals.{add-one}
use mcp_operator.Prelude.{
  ℕ, ◌+◌, ◌≤◌, ◌<◌, ◌≡◌, refl, ap, ◌∙◌, ◌≢◌, ◌↔◌, Bool, Option, none, some, [], arith, ℤ, pos,
  negsuc,
}
use mcp_operator.Retry.{
  Env, RetryError, unexpected, Log, retry_loop, LinearConfig, linear_do_with_retryable,
}
use mcp_operator.Retry.Delay.{Floats, Config, calculate_delay, do_with_retryable}
use mcp_operator.Retry.Loop.{
  Ends, calls, retry_loop-Ends, retry_loop_of_Ends, Ends-bounds, Ends-none, Ends-ne-unexpected,
  Retried, Ends-succeed,
}

abbrev pub Outcome : Type 0 → Type 0
Outcome E = Option (RetryError E) × Log E

module _ {E : Type 0} (env : Env E) (max : ℕ) (cb : Bool) (delay : ℕ → ℤ) where
  run_loop : Outcome E
  run_loop = retry_loop env (pos max) cb delay (max + 1) 0 none []

  run_loop-Ends : Ends env max run_loop.0 (calls run_loop.1) 0
  unfolding run_loop
  run_loop-Ends =
      retry_loop-Ends env max cb delay (max + 1) 0 none [] (omega arith) (omega arith) refl

  run_loop_of_Ends :
      {r : Option (RetryError E)} {n : ℕ}
      → Ends env max r n 0
      → (run_loop.0 ≡ r) × (calls run_loop.1 ≡ n)
  unfolding run_loop
  run_loop_of_Ends x =
      rw add-one (retry_loop_of_Ends env max cb delay max none [] x (omega arith) refl)

  run_loop-Ends_iff :
      (r : Option (RetryError E)) (n : ℕ)
      → (run_loop.0 ≡ r) × (calls run_loop.1 ≡ n) ↔ Ends env max r n 0
  run_loop-Ends_iff r n = (λ (p, q). rw (← p, ← q) run_loop-Ends, run_loop_of_Ends)

do_with_retryable-run_loop :
    (F : Floats) {E : Type 0} (c : Config F) (rand : ℕ → F.Float) (env : Env E) (max : ℕ)
    → c.max_retries ≡ pos max
    → do_with_retryable F c rand env
      ≡ run_loop env max c.has_callback (λ k. calculate_delay F c (rand k) k)
unfolding do_with_retryable run_loop
do_with_retryable-run_loop F c rand env max e = rw e

linear-run_loop :
    {E : Type 0} (c : LinearConfig) (env : Env E) (max : ℕ)
    → c.max_retries ≡ pos max
    → linear_do_with_retryable c env ≡ run_loop env max c.has_callback (λ k. c.delay)
unfolding linear_do_with_retryable run_loop
linear-run_loop c env max e = rw e

-- With `MaxRetries` = `max`, not negative, the exponential retrier returns `r` after `n` calls
-- exactly if the run from attempt 0 ends so: each failed attempt with a retryable error before the
-- last is followed by an uninterrupted wait and a further attempt, and the run stops at the first
-- success, other error, interruption or at attempt `max`.
pub do_with_retryable-Ends :
    (F : Floats) {E : Type 0} (c : Config F) (rand : ℕ → F.Float) (env : Env E) (max : ℕ)
    (r : Option (RetryError E)) (n : ℕ)
    → c.max_retries ≡ pos max
    → ((do_with_retryable F c rand env).0 ≡ r) × (calls (do_with_retryable F c rand env).1 ≡ n)
      ↔ Ends env max r n 0
do_with_retryable-Ends F c rand env max r n e =
    rw (do_with_retryable-run_loop F c rand env max e)
      (run_loop-Ends_iff env max c.has_callback (λ k. calculate_delay F c (rand k) k) r n)

-- The same of the linear retrier.
pub linear_do_with_retryable-Ends :
    {E : Type 0} (c : LinearConfig) (env : Env E) (max : ℕ) (r : Option (RetryError E)) (n : ℕ)
    → c.max_retries ≡ pos max
    → ((linear_do_with_retryable c env).0 ≡ r) × (calls (linear_do_with_retryable c env).1 ≡ n)
      ↔ Ends env max r n 0
linear_do_with_retryable-Ends c env max r n e =
    rw (linear-run_loop c env max e) (run_loop-Ends_iff env max c.has_callback (λ k. c.delay) r n)

-- With `MaxRetries` = `max`, not negative, the function is called at least once and at most `max +
-- 1` times, and the result is never the "unexpected end of retry loop" error.
pub do_with_retryable-bounds :
    (F : Floats) {E : Type 0} (c : Config F) (rand : ℕ → F.Float) (env : Env E) (max : ℕ)
    → c.max_retries ≡ pos max
    → (0 < calls (do_with_retryable F c rand env).1)
      × (calls (do_with_retryable F c rand env).1 ≤ max + 1)
      × ((last : Option E) → (do_with_retryable F c rand env).0 ≢ some (unexpected last))
do_with_retryable-bounds F c rand env max e =
    let x = (do_with_retryable-Ends F c rand env max _ _ e).0 (refl, refl) in
    let b = Ends-bounds env max (omega arith) x in (b.0, b.1, Ends-ne-unexpected env max x)

-- If attempts 0 to `k - 1` fail with retryable errors and their waits are not interrupted, attempt
-- `k` succeeds and `k` is at most `MaxRetries`, the retrier returns nil after `k + 1` calls.
pub do_with_retryable_succeeds :
    (F : Floats) {E : Type 0} (c : Config F) (rand : ℕ → F.Float) (env : Env E) (max k : ℕ)
    → c.max_retries ≡ pos max
    → k ≤ max
    → ((j : ℕ) → j < k → Retried env max j)
    → env.fn k ≡ none
    → ((do_with_retryable F c rand env).0 ≡ none)
      × (calls (do_with_retryable F c rand env).1 ≡ k + 1)
do_with_retryable_succeeds F c rand env max k e h fails ok =
    (do_with_retryable-Ends F c rand env max none (k + 1) e).1 (
      rw (← zero-add k) (
        Ends-succeed env max k 0 (omega arith) (λ j lo hi. fails j (omega arith))
          (ap env.fn (zero-add k) ∙ ok)))

-- If it returns nil, the last call of the function did.
pub do_with_retryable_sound :
    (F : Floats) {E : Type 0} (c : Config F) (rand : ℕ → F.Float) (env : Env E) (max : ℕ)
    → c.max_retries ≡ pos max
    → (do_with_retryable F c rand env).0 ≡ none
    → (j : ℕ) × (env.fn j ≡ none) × (calls (do_with_retryable F c rand env).1 ≡ j + 1)
do_with_retryable_sound F c rand env max e ok =
    Ends-none env max ((do_with_retryable-Ends F c rand env max _ _ e).0 (refl, refl)) ok

-- With a negative `MaxRetries` the function is never called, and the error is the "unexpected end
-- of retry loop", with no last error.
pub do_with_retryable_negative :
    (F : Floats) {E : Type 0} (c : Config F) (rand : ℕ → F.Float) (env : Env E) (n : ℕ)
    → c.max_retries ≡ negsuc n
    → ((do_with_retryable F c rand env).0 ≡ some (unexpected none))
      × (calls (do_with_retryable F c rand env).1 ≡ 0)
unfolding do_with_retryable
do_with_retryable_negative F c rand env n e = rw e (refl, refl)
