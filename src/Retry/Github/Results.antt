-- ===== src/Retry/Github/Results.antt =====
-- pkg/retry/github_retry.go: the results, the calls and the closed bodies of `DoWithGitHubRetry`.
use mcp_operator.Prelude.{
  ℕ, zero, suc, ◌+◌, ◌≤◌, ◌<◌, ◌≡◌, refl, sym, ap, ◌∙◌, subst, ◌≢◌, Option, none, some, List, [],
  ◌∷◌, arith, if◌then◌else◌, ℤ, pos, negsuc, ◌≤ℤ◌, ◌<ℤ◌, eqb_ℤ→eq, eqb_ℤ→ne,
}
use mcp_operator.Retry.Delay.{Floats}
use mcp_operator.Retry.Github.{
  ErrorType, general, rate_limit, network, auth, not_found, Response, GithubError,
}
use mcp_operator.Retry.Github.Delay.{
  GithubRetryConfig, should_retry_error, limit_of, should_retry_error_iff,
}
use mcp_operator.Retry.Github.Loop.{
  GithubEnv, GithubResult, success, non_retryable, exhausted, cancelled, unexpected,
  nil_dereference, GithubEvent, called, closed_body, GithubLog, body_of, prepare, github_loop,
  do_with_github_retry, error_at, github_loop_rule,
}
use mcp_operator.Retry.{rounds_of}

abbrev pub count_call : GithubEvent → ℕ → ℕ
count_call (called k) n = suc n
count_call _ n = n

-- How often the function was called.
abbrev pub calls : GithubLog → ℕ
calls [] = 0
calls (ev ∷ log) = count_call ev (calls log)

abbrev pub add_closed : GithubEvent → List ℕ → List ℕ
add_closed (closed_body k) ks = k ∷ ks
add_closed _ ks = ks

-- The attempts whose bodies were closed, the latest first.
abbrev pub closed_bodies : GithubLog → List ℕ
closed_bodies [] = []
closed_bodies (ev ∷ log) = add_closed ev (closed_bodies log)

module _ (F : Floats) (c : GithubRetryConfig F) (env : GithubEnv F) where
  -- The attempts below `n` whose response has a body, the latest first.
  abbrev pub bodies_below : ℕ → List ℕ
  bodies_below zero = []
  bodies_below (suc n) = if body_of (env.fn n).0 then n ∷ bodies_below n else bodies_below n

  calls-prepare :
      (k : ℕ) (err : GithubError) (delay : ℤ) (resp : Option Response) (log : GithubLog)
      → (calls (prepare F c env k err delay resp log) ≡ calls log)
        × (closed_bodies (prepare F c env k err delay resp log)
            ≡ (if body_of resp then k ∷ closed_bodies log else closed_bodies log))
  unfolding prepare
  calls-prepare k err delay resp log = ground arith

  IsOpen : ℕ → ℕ → Option GithubError → GithubLog → Type 0
  IsOpen n k last log = (calls log ≡ k) × (closed_bodies log ≡ bodies_below k)

  IsClosed : GithubResult → GithubLog → Type 0
  IsClosed r log = closed_bodies log ≡ bodies_below (calls log)

  loop-IsClosed :
      (n : ℕ) → IsClosed (github_loop F c env n 0 none []).0 (github_loop F c env n 0 none []).1
  unfolding IsOpen IsClosed
  loop-IsClosed n =
      github_loop_rule F c env IsOpen IsClosed (λ k last log i. ground arith)
        (λ m k last log i ok. ground arith) (λ m k last log err i bad stop. ground arith)
        (λ m k last log err delay i bad lim. ground arith)
        (λ m k last log err delay e i bad.
          ground (arith, calls-prepare k err delay (env.fn k).0 (called k ∷ log)))
        (λ m k last log err delay i bad more.
          ground (arith, calls-prepare k err delay (env.fn k).0 (called k ∷ log)))
        n 0 none [] (refl, refl)

  -- Every response with a body has it closed exactly once, on success and on every kind of failure:
  -- the attempts whose bodies are closed are, in order, those that were made and got one.
  pub do_with_github_retry-closed_bodies :
      let log = (do_with_github_retry F c env).1 in closed_bodies log ≡ bodies_below (calls log)
  unfolding do_with_github_retry IsClosed
  do_with_github_retry-closed_bodies = loop-IsClosed (rounds_of c.max_retries)

  IsBounded : ℕ → ℕ → ℕ → Option GithubError → GithubLog → Type 0
  IsBounded max n k last log = (calls log ≡ k) × (k + n ≡ max + 1) × (0 < n)

  -- What a result says of the `n` calls behind it.
  abbrev pub Verdict : ℕ → GithubResult → ℕ → Type 0
  Verdict max success n = (k : ℕ) × (n ≡ k + 1) × (k ≤ max) × (error_at F c env k ≡ none)
  Verdict max (non_retryable m err) n =
      (k : ℕ) × (n ≡ k + 1)
      × (m ≡ n)
      × (k ≤ max)
      × (error_at F c env k ≡ some err)
      × (limit_of F c err.kind ≤ℤ pos k)
  Verdict max (exhausted m err) n =
      (n ≡ max + 1)
      × (m ≡ pos max)
      × (error_at F c env max ≡ some err)
      × (pos max <ℤ limit_of F c err.kind)
  Verdict max (cancelled e) n = (k : ℕ) × (n ≡ k + 1) × (k ≤ max)
  Verdict max (unexpected err) n = ⊥
  Verdict max nil_dereference n = ⊥

  HasVerdict : ℕ → GithubResult → GithubLog → Type 0
  HasVerdict max r log = Verdict max r (calls log)

  refused_limit :
      (k : ℕ) (err : GithubError)
      → should_retry_error F c (env.until k) (env.rand k) err k ≡ none
      → limit_of F c err.kind ≤ℤ pos k
  refused_limit k err h =
      ground (arith, should_retry_error_iff F c (env.until k) (env.rand k) err k)

  retried_limit :
      (k : ℕ) (err : GithubError) (delay : ℤ)
      → should_retry_error F c (env.until k) (env.rand k) err k ≡ some delay
      → pos k <ℤ limit_of F c err.kind
  retried_limit k err delay h =
      ground (arith, should_retry_error_iff F c (env.until k) (env.rand k) err k)

  loop-HasVerdict :
      (max : ℕ)
      → c.max_retries ≡ pos max
      → HasVerdict max
          (github_loop F c env (max + 1) 0 none []).0
          (github_loop F c env (max + 1) 0 none []).1
  unfolding IsBounded HasVerdict
  loop-HasVerdict max e =
      github_loop_rule F c env (IsBounded max) (HasVerdict max)
        (λ k last log i. absurd (omega arith))
        (λ n k last log i ok. (k, ground arith, omega arith, ok))
        (λ n k last log err i bad stop.
          (k, ground arith, ground arith, omega arith, bad, refused_limit k err stop))
        (λ n k last log err delay i bad lim.
          let same : k ≡ max = eqb_ℤ→eq k max (rw e at lim) in
          (
            ground arith,
            e,
            ap (error_at F c env) (sym same) ∙ bad.0,
            rw (← same) (retried_limit k err delay bad.1),
          ))
        (λ n k last log err delay f i bad.
          (k, ground (arith, calls-prepare k err delay (env.fn k).0 (called k ∷ log)), omega arith))
        (λ n k last log err delay i bad more.
          let below : k ≢ max = eqb_ℤ→ne k max (rw e at more) in
          (
            ground (arith, calls-prepare k err delay (env.fn k).0 (called k ∷ log)),
            omega arith,
            omega arith,
          ))
        (max + 1) 0 none [] (refl, omega arith, omega arith)

  -- With `MaxRetries` = `max`, not negative, the loop ends without a nil dereference or the
  -- "unexpected end" error, and after `n` calls its result is one of these: success, and attempt `n
  -- - 1` succeeded; non-retryable after `n` attempts, and attempt `n - 1` failed with the error, at
  -- or past the limit of its type; exhausted, after all `max + 1` attempts, by an error whose own
  -- limit is above `max`; or cancelled, after some attempt.
  pub do_with_github_retry-Verdict :
      (max : ℕ)
      → c.max_retries ≡ pos max
      → let (r, log) = do_with_github_retry F c env in Verdict max r (calls log)
  unfolding do_with_github_retry HasVerdict
  do_with_github_retry-Verdict max e =
      subst
        (λ m.
          Verdict max (github_loop F c env (rounds_of m) 0 none []).0
            (calls (github_loop F c env (rounds_of m) 0 none []).1))
        (sym e) (loop-HasVerdict max e)

  limit-le :
      (max : ℕ)
      → c.max_retries ≡ pos max
      → c.rate_limit_max_retries ≤ℤ pos max
      → c.network_max_retries ≤ℤ pos max
      → (kind : ErrorType) → limit_of F c kind ≤ℤ pos max
  limit-le max e rl nw rate_limit = rl
  limit-le max e rl nw network = nw
  limit-le max e rl nw auth = omega arith
  limit-le max e rl nw not_found = omega arith
  limit-le max e rl nw general = rw e (omega arith)

  Verdict-ne-exhausted :
      (max : ℕ)
      → c.max_retries ≡ pos max
      → c.rate_limit_max_retries ≤ℤ pos max
      → c.network_max_retries ≤ℤ pos max
      → (r : GithubResult) (n : ℕ) → Verdict max r n
      → (m : ℤ) (err : GithubError) → r ≢ exhausted m err
  Verdict-ne-exhausted max e rl nw (exhausted m' err') n v m err =
      λ same. absurd (omega (arith, limit-le max e rl nw err'.kind, v.3))
  Verdict-ne-exhausted max e rl nw success n v m err = λ same. cc
  Verdict-ne-exhausted max e rl nw (non_retryable k x) n v m err = λ same. cc
  Verdict-ne-exhausted max e rl nw (cancelled x) n v m err = λ same. cc
  Verdict-ne-exhausted max e rl nw (unexpected x) n v m err = λ same. cc
  Verdict-ne-exhausted max e rl nw nil_dereference n v m err = λ same. cc

  -- If the limits for rate limits and network errors are at most `MaxRetries`, as in the default
  -- configuration, the loop never reports that the retries are exhausted: the last attempt counts
  -- as non-retryable.
  pub do_with_github_retry-ne-exhausted :
      (max : ℕ)
      → c.max_retries ≡ pos max
      → c.rate_limit_max_retries ≤ℤ pos max
      → c.network_max_retries ≤ℤ pos max
      → (m : ℤ) (err : GithubError) → (do_with_github_retry F c env).0 ≢ exhausted m err
  do_with_github_retry-ne-exhausted max e rl nw m err =
      Verdict-ne-exhausted max e rl nw (do_with_github_retry F c env).0 _
        (do_with_github_retry-Verdict max e) m err

  -- With a negative `MaxRetries` the function is never called and the loop dereferences a nil
  -- pointer.
  pub do_with_github_retry_negative :
      (n : ℕ) → c.max_retries ≡ negsuc n → do_with_github_retry F c env ≡ (nil_dereference, [])
  unfolding do_with_github_retry
  do_with_github_retry_negative n e =
      ap (λ m. github_loop F c env (rounds_of m) 0 none []) e ∙ unfold github_loop in refl
