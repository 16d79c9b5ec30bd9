-- ===== src/Retry/Tests.antt =====
-- Runs of the retry loops over whole-number floats, and the theorems at them.
use mcp_operator.Prelude.{
  ℕ, zero, suc, ◌+◌, ◌<◌, ◌≡◌, refl, ◌↔◌, true, false, not, none, some, [], ◌∷◌, arith, ltb, eqb,
  if◌then◌else◌, ℤ, pos,
}
use mcp_operator.Retry.{
  Env, non_retryable, exhausted, cancelled, success_label, retry_label, called, counted, on_retry,
  backoff, default_is_retryable, LinearConfig,
}
use mcp_operator.Retry.Delay.{Config, calculate_delay, do_with_retryable}
use mcp_operator.Retry.Loop.{Ends, calls, Retried}
use mcp_operator.Retry.Results.{do_with_retryable-Ends}
use mcp_operator.Retry.Whole.{whole}

-- Errors are numbers: 7 is not retryable; the function fails at attempts 0 and 1.
abbrev flaky : Env ℕ
flaky = record {
  fn = λ k. if ltb k 2 then some (k + 1) else none;
  is_retryable = λ e. not (eqb e 7);
  interrupted = λ k. none;
}

abbrev calm : Config whole
calm = record {
  max_retries = pos 3;
  initial_delay = pos 100;
  max_delay = pos 150;
  multiplier = pos 2;
  jitter = false;
  has_callback = true;
}

abbrev no_rand : ℕ → ℤ
no_rand k = pos 0

flaky_run : do_with_retryable whole calm no_rand flaky ≡ (
  none,
  counted success_label
      ∷ called 2
      ∷ counted retry_label
      ∷ backoff (pos 150)
      ∷ on_retry 2 2
      ∷ called 1
      ∷ counted retry_label
      ∷ backoff (pos 100)
      ∷ on_retry 1 1
      ∷ called 0
      ∷ [],
)
unfolding do_with_retryable calculate_delay
flaky_run = refl

-- An error that is not retryable, the last attempt, an interrupted wait.
other_ends :
    ((do_with_retryable whole calm no_rand (record flaky { fn = λ k. some 7 })).0
      ≡ some (non_retryable 1 7))
    × ((do_with_retryable whole calm no_rand (record flaky { fn = λ k. some 9 })).0
        ≡ some (exhausted (pos 3) 9))
    × ((do_with_retryable whole calm no_rand (record flaky { interrupted = λ k. some 4 })).0
        ≡ some (cancelled 4))
    × (default_is_retryable (eqb 1) (eqb 2) 2 ≡ false)
unfolding do_with_retryable calculate_delay default_is_retryable
other_ends = (refl, refl, refl, refl)

do_with_retryable-Ends_example :
    ((do_with_retryable whole calm no_rand flaky).0 ≡ none)
      × (calls (do_with_retryable whole calm no_rand flaky).1 ≡ 3)
    ↔ Ends flaky 3 none 3 0
do_with_retryable-Ends_example = do_with_retryable-Ends whole calm no_rand flaky 3 none 3 refl

abbrev steady : LinearConfig
steady = record { max_retries = pos 2; delay = pos 5; has_callback = false }

flaky-Retried : (j : ℕ) → j < 2 → Retried flaky 3 j
flaky-Retried zero h = (1, refl, refl, refl)
flaky-Retried (suc zero) h = (2, refl, refl, refl)
flaky-Retried (suc (suc j)) h = absurd (omega arith)
