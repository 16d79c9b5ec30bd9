-- ===== src/RetryService.antt =====
-- pkg/services/retry_service.go: `RetryWithBackoff` and the two limits that its callers use. An
-- attempt is answered by its number, and the context may be done before an attempt or in the wait
-- after it.
mod Results
mod Tests
use mcp_operator.Prelude.{
  ℕ, zero, suc, String, Bool, true, false, Option, none, some, [], ◌∷◌, if◌then◌else◌, ℤ, pos,
  negsuc, concat,
}

pub record DefaultRetryService : Type 0 where
  pub max_retries : ℤ
  pub base_delay : ℤ
  pub max_delay : ℤ
  pub registry_max_retries : ℤ
  pub deployment_max_retries : ℤ

abbrev pub new_retry_service : DefaultRetryService
new_retry_service = record {
  max_retries = pos 5;
  base_delay = pos 2_000_000_000;
  max_delay = pos 300_000_000_000;
  registry_max_retries = pos 3;
  deployment_max_retries = pos 5;
}

-- `operation n` is the error of attempt n; `is_done n` and `is_cut n` say whether the context is
-- done before it and in the wait after it.
pub record Attempts : Type 0 where
  pub operation : ℕ → Option String
  pub is_done : ℕ → Bool
  pub is_cut : ℕ → Bool

-- The calls made, and what the method returns.
pub record Retried : Type 0 where
  pub calls : ℕ
  pub error : Option String

-- After attempt n, by its error, with what the later attempts come to.
abbrev pub after_attempt :
    (answer : Option String)
    → (is_last is_cut : Bool) → (n : ℕ) → (exhausted : String → String) → Retried
    → Retried
after_attempt none is_last is_cut n exhausted later = record { calls = suc n; error = none }
after_attempt (some err) true is_cut n exhausted later = record {
  calls = suc n;
  error = some (exhausted err);
}
after_attempt (some err) false true n exhausted later = record {
  calls = suc n;
  error = some "context canceled";
}
after_attempt (some err) false false n exhausted later = later

module _ (at : Attempts) where
  -- The loop from attempt n on, with `left` more attempts after it.
  unfoldable pub attempts_from : (left n : ℕ) → (exhausted : String → String) → Retried
  attempts_from zero n exhausted =
      if at.is_done n
      then record { calls = n; error = some "context canceled" }
      else after_attempt (at.operation n) true (at.is_cut n) n exhausted
          (record { calls = n; error = none })
  attempts_from (suc left) n exhausted =
      let later = attempts_from left (suc n) exhausted in
      if at.is_done n
      then record { calls = n; error = some "context canceled" }
      else after_attempt (at.operation n) false (at.is_cut n) n exhausted later

  -- `show` is the text of a number; `nil_error` is that of a nil error under `%w`.
  unfoldable pub retry_with_backoff : (show : ℤ → String) → (max_retries : ℤ) → Retried
  unfolding attempts_from
  retry_with_backoff show (negsuc n) = record {
    calls = 0;
    error =
        some (
          concat ("operation failed after " ∷ show (negsuc n) ∷ " attempts: " ∷ "%!w(<nil>)" ∷ []));
  }
  retry_with_backoff show (pos zero) = record {
    calls = 0;
    error =
        some (
          concat ("operation failed after " ∷ show (pos zero) ∷ " attempts: " ∷ "%!w(<nil>)" ∷ []));
  }
  retry_with_backoff show (pos (suc left)) =
      attempts_from left 0 (λ err.
        concat ("operation failed after " ∷ show (pos (suc left)) ∷ " attempts: " ∷ err ∷ []))

  unfoldable pub retry_deployment_operation : (show : ℤ → String) → DefaultRetryService → Retried
  unfolding retry_with_backoff
  retry_deployment_operation show r = retry_with_backoff show r.deployment_max_retries

  unfoldable pub retry_registry_operation : (show : ℤ → String) → DefaultRetryService → Retried
  unfolding retry_with_backoff
  retry_registry_operation show r = retry_with_backoff show r.registry_max_retries
