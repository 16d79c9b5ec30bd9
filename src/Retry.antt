-- ===== src/Retry.antt =====
-- pkg/retry/retry.go: retry loops with exponential or constant delays. The function, the predicate
-- on errors and the context are an environment; what the loop does to it is a log, the latest
-- first. Times are not modelled beyond the delays, so the duration histogram is left out.
pub mod Delay
pub mod Loop
pub mod Results
pub mod Github
mod Whole
mod Tests
use mcp_operator.Prelude.{
  ℕ, zero, suc, ◌+◌, Bool, true, false, ◌||◌, Option, none, some, List, [], ◌∷◌, if◌then◌else◌, ℤ,
  pos, negsuc, eqb_ℤ,
}

-- What the loops meet, attempt by attempt: the result of the function (`none` is a nil error), the
-- predicate on its errors, and `ctx.Err()` where the select after that attempt finds the context
-- done first.
pub record Env (E : Type 0) : Type 0 where
  pub fn : ℕ → Option E
  pub is_retryable : E → Bool
  pub interrupted : ℕ → Option E

-- The errors that the loops return; `unexpected` wraps `lastErr`.
pub data RetryError (E : Type 0) : Type 0 where
  non_retryable : ℕ → E → RetryError E
  exhausted : ℤ → E → RetryError E
  cancelled : E → RetryError E
  unexpected : Option E → RetryError E

-- The `result` label of `retryAttempts`.
pub data Label : Type 0 where
  success_label non_retryable_label exhausted_label retry_label cancelled_label : Label
  unexpected_label : Label

pub data Event (E : Type 0) : Type 0 where
  called : ℕ → Event E
  counted : Label → Event E
  on_retry : ℕ → E → Event E
  backoff : ℤ → Event E

abbrev pub Log : Type 0 → Type 0
Log E = List (Event E)

module _ {E : Type 0} (env : Env E) (max_retries : ℤ) (has_callback : Bool) (delay : ℕ → ℤ) where
  -- What a round does before it waits: the callback, the delay's histogram and the counter.
  announce : ℕ → E → Log E → Log E
  announce attempt err log =
      let noted = if has_callback then on_retry (attempt + 1) err ∷ log else log in
      counted retry_label ∷ backoff (delay attempt) ∷ noted

  -- The rounds left of `for attempt := 0; attempt <= MaxRetries; attempt++`.
  unfoldable pub retry_loop : ℕ → ℕ → Option E → Log E → Option (RetryError E) × Log E
  unfolding announce
  retry_loop zero attempt last_err log =
      (some (unexpected last_err), counted unexpected_label ∷ log)
  retry_loop (suc rounds) attempt last_err log = elim (env.fn attempt) [
    | none ↦ (none, counted success_label ∷ called attempt ∷ log)
    | some err ↦ elim (env.is_retryable err) [
      | false ↦ (
        some (non_retryable (attempt + 1) err),
        counted non_retryable_label ∷ called attempt ∷ log,
      )
      | true ↦ elim (eqb_ℤ (pos attempt) max_retries) [
        | true ↦ (some (exhausted max_retries err), counted exhausted_label ∷ called attempt ∷ log)
        | false ↦ elim (env.interrupted attempt) [
          | some c ↦ (
            some (cancelled c),
            counted cancelled_label ∷ announce attempt err (called attempt ∷ log),
          )
          | none ↦
              retry_loop rounds (attempt + 1) (some err)
                (announce attempt err (called attempt ∷ log))
        ]
      ]
    ]
  ]

-- How many values `attempt` takes in the loop.
abbrev pub rounds_of : ℤ → ℕ
rounds_of (pos n) = n + 1
rounds_of (negsuc n) = 0

-- `DefaultIsRetryable` on a non-nil error, given how errors compare with the two of `context`.
unfoldable pub default_is_retryable : {E : Type 0} (is_canceled is_deadline : E → Bool) → E → Bool
default_is_retryable is_canceled is_deadline err =
    if is_canceled err || is_deadline err then false else true

pub record LinearConfig : Type 0 where
  pub max_retries : ℤ
  pub delay : ℤ
  pub has_callback : Bool

unfoldable pub new_linear_retrier : LinearConfig → LinearConfig
new_linear_retrier c = record c {
  max_retries = if eqb_ℤ c.max_retries (pos 0) then pos 3 else c.max_retries;
  delay = if eqb_ℤ c.delay (pos 0) then pos 1_000_000_000 else c.delay;
}

-- `LinearRetrier.DoWithRetryable`. It counts the retry before the delay, which the log does not
-- tell from the other order.
unfoldable pub linear_do_with_retryable :
    {E : Type 0} → LinearConfig → Env E → Option (RetryError E) × Log E
unfolding retry_loop
linear_do_with_retryable c env =
    retry_loop env c.max_retries c.has_callback (λ attempt. c.delay) (rounds_of c.max_retries) 0
      none []
