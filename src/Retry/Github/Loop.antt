-- ===== src/Retry/Github/Loop.antt =====
-- pkg/retry/github_retry.go: `DoWithGitHubRetry`. The log holds the latest event first.
use mcp_operator.Prelude.{
  ℕ, zero, suc, ◌+◌, String, ◌≡◌, inl, inr, Bool, true, false, Option, none, some, List, [], ◌∷◌,
  if◌then◌else◌, Bool-cases, Option-cases, ℤ, pos, eqb_ℤ,
}
use mcp_operator.Retry.{rounds_of}
use mcp_operator.Retry.Delay.{Floats}
use mcp_operator.Retry.Github.{
  ErrorType, rate_limit, GoError, Response, GithubError, classify_github_error,
}
use mcp_operator.Retry.Github.Delay.{GithubRetryConfig, should_retry_error}

-- The world of a loop: what each attempt yields, whether the context is done before the wait
-- after it ends, the clock and the random numbers.
pub record GithubEnv (F : Floats) : Type 0 where
  pub fn : ℕ → Option Response × Option GoError
  pub interrupted : ℕ → Option GoError
  pub until : ℕ → ℤ → ℤ
  pub rand : ℕ → F.Float

-- `nil_dereference` is the panic of reading `lastErr.Type` through a nil pointer.
pub data GithubResult : Type 0 where
  success : GithubResult
  non_retryable : ℕ → GithubError → GithubResult
  exhausted : ℤ → GithubError → GithubResult
  cancelled : GoError → GithubResult
  unexpected : GithubError → GithubResult
  nil_dereference : GithubResult

pub data GithubEvent : Type 0 where
  called : ℕ → GithubEvent
  counted : Option ErrorType → String → GithubEvent
  rate_limit_hit : GithubEvent
  on_retry : ℕ → GithubError → ℤ → GithubEvent
  closed_body : ℕ → GithubEvent
  waited : ℤ → GithubEvent

abbrev pub GithubLog : Type 0
GithubLog = List GithubEvent

abbrev pub body_of : Option Response → Bool
body_of none = false
body_of (some r) = r.has_body

-- `if resp != nil && resp.Body != nil { resp.Body.Close() }`.
abbrev pub close_body : ℕ → Option Response → GithubLog → GithubLog
close_body k resp log = if body_of resp then closed_body k ∷ log else log

abbrev pub is_rate_limit : ErrorType → Bool
is_rate_limit rate_limit = true
is_rate_limit _ = false

-- What follows the loop.
abbrev pub after_loop : Option GithubError → GithubLog → GithubResult × GithubLog
after_loop none log = (nil_dereference, log)
after_loop (some err) log = (unexpected err, counted (some err.kind) "unexpected" ∷ log)

module _ (F : Floats) (c : GithubRetryConfig F) (env : GithubEnv F) where
  -- The part of a round between the tests and the wait.
  unfoldable pub prepare : ℕ → GithubError → ℤ → Option Response → GithubLog → GithubLog
  prepare k err delay resp log =
      let hit = if is_rate_limit err.kind then rate_limit_hit ∷ log else log in
      let noted = if c.has_callback then on_retry (k + 1) err delay ∷ hit else hit in
      waited delay ∷ close_body k resp (counted (some err.kind) "retry" ∷ noted)

  -- The rounds left of `for attempt := 0; attempt <= maxRetries; attempt++`.
  unfoldable pub github_loop : ℕ → ℕ → Option GithubError → GithubLog → GithubResult × GithubLog
  unfolding prepare
  github_loop zero k last_err log = after_loop last_err log
  github_loop (suc rounds) k last_err log =
      let resp = (env.fn k).0 in
      elim (classify_github_error (env.fn k).1 resp) [
        | none ↦ (success, close_body k resp (counted none "success" ∷ called k ∷ log))
        | some err ↦ elim (should_retry_error F c (env.until k) (env.rand k) err k) [
          | none ↦ (
            non_retryable (k + 1) err,
            close_body k resp (counted (some err.kind) "non_retryable" ∷ called k ∷ log),
          )
          | some delay ↦ elim (eqb_ℤ (pos k) c.max_retries) [
            | true ↦ (
              exhausted c.max_retries err,
              close_body k resp (counted (some err.kind) "exhausted" ∷ called k ∷ log),
            )
            | false ↦ elim (env.interrupted k) [
              | some e ↦ (
                cancelled e,
                counted (some err.kind) "cancelled" ∷ prepare k err delay resp (called k ∷ log),
              )
              | none ↦
                  github_loop rounds (k + 1) (some err) (prepare k err delay resp (called k ∷ log))
            ]
          ]
        ]
      ]

  unfoldable pub do_with_github_retry : GithubResult × GithubLog
  unfolding github_loop
  do_with_github_retry = github_loop (rounds_of c.max_retries) 0 none []

  abbrev pub error_at : ℕ → Option GithubError
  error_at k = classify_github_error (env.fn k).1 (env.fn k).0

  -- Attempt `k` ends in an error that is to be retried after `delay`.
  abbrev pub Retries : ℕ → GithubError → ℤ → Type 0
  Retries k err delay =
      (error_at k ≡ some err)
      × (should_retry_error F c (env.until k) (env.rand k) err k ≡ some delay)

  -- The rule of the loop: what holds before each round, of the rounds left, the attempt, the last
  -- error and the log, and what holds of the results.
  module _ (I : ℕ → ℕ → Option GithubError → GithubLog → Type 0)
      (Q : GithubResult → GithubLog → Type 0)
      (at_end : (k : ℕ) (last : Option GithubError) (log : GithubLog)
        → I 0 k last log
        → Q (after_loop last log).0 (after_loop last log).1)
      (at_success : (n k : ℕ) (last : Option GithubError) (log : GithubLog)
        → I (suc n) k last log
        → error_at k ≡ none
        → Q success (close_body k (env.fn k).0 (counted none "success" ∷ called k ∷ log)))
      (at_refusal : (n k : ℕ) (last : Option GithubError) (log : GithubLog) (err : GithubError)
        → I (suc n) k last log
        → error_at k ≡ some err
        → should_retry_error F c (env.until k) (env.rand k) err k ≡ none
        → Q
            (non_retryable (k + 1) err)
            (close_body k (env.fn k).0 (counted (some err.kind) "non_retryable" ∷ called k ∷ log)))
      (at_limit : (n k : ℕ) (last : Option GithubError) (log : GithubLog) (err : GithubError)
          (delay : ℤ)
        → I (suc n) k last log
        → Retries k err delay
        → eqb_ℤ (pos k) c.max_retries ≡ true
        → Q
            (exhausted c.max_retries err)
            (close_body k (env.fn k).0 (counted (some err.kind) "exhausted" ∷ called k ∷ log)))
      (at_interrupt : (n k : ℕ) (last : Option GithubError) (log : GithubLog) (err : GithubError)
          (delay : ℤ) (e : GoError)
        → I (suc n) k last log
        → Retries k err delay
        → Q (cancelled e) (
            counted (some err.kind) "cancelled"
            ∷ prepare k err delay (env.fn k).0 (called k ∷ log)))
      (at_next : (n k : ℕ) (last : Option GithubError) (log : GithubLog) (err : GithubError)
          (delay : ℤ)
        → I (suc n) k last log
        → Retries k err delay
        → eqb_ℤ (pos k) c.max_retries ≡ false
        → I n (k + 1) (some err) (prepare k err delay (env.fn k).0 (called k ∷ log))) where
    pub github_loop_rule :
        (n k : ℕ) (last : Option GithubError) (log : GithubLog)
        → I n k last log
        → Q (github_loop n k last log).0 (github_loop n k last log).1
    unfolding github_loop
    github_loop_rule zero k last log i = at_end k last log i
    github_loop_rule (suc n) k last log i = elim (Option-cases (error_at k)) [
      | inl ok ↦ rw (ok, github_loop) (at_success n k last log i ok)
      | inr (err, bad) ↦
          elim (Option-cases (should_retry_error F c (env.until k) (env.rand k) err k)) [
            | inl stop ↦ rw (bad, stop, github_loop) (at_refusal n k last log err i bad stop)
            | inr (delay, more) ↦ elim (Bool-cases (eqb_ℤ (pos k) c.max_retries)) [
              | inl last_one ↦
                  rw (bad, more, last_one, github_loop)
                    (at_limit n k last log err delay i (bad, more) last_one)
              | inr before ↦ elim (Option-cases (env.interrupted k)) [
                | inr (e, gone) ↦
                    rw (bad, more, before, gone, github_loop)
                      (at_interrupt n k last log err delay e i (bad, more))
                | inl on ↦
                    rw (bad, more, before, on, github_loop)
                      (github_loop_rule n (k + 1) (some err)
                        (prepare k err delay (env.fn k).0 (called k ∷ log))
                        (at_next n k last log err delay i (bad, more) before))
              ]
            ]
          ]
    ]
