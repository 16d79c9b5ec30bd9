-- ===== src/Retry/Github/Delay.antt =====
-- pkg/retry/github_retry.go: whether a classified error is retried, and after which delay.
use mcp_operator.Prelude.{
  ℕ, zero, suc, ◌≡◌, sym, ap, subst, ◌↔◌, inl, inr, Bool, true, false, ◌&&◌, not, Option, none,
  some, arith, if◌then◌else◌, Bool-cases, is_some, ℤ, pos, ◌≤ℤ◌, ◌<ℤ◌, ltb_ℤ, leb_ℤ, eqb_ℤ,
}
use mcp_operator.Retry.Delay.{Floats, IsExact, FloatLaws}
use mcp_operator.Retry.Github.{
  ErrorType, general, rate_limit, network, auth, not_found, zero_time, GithubError,
}

module _ (F : Floats) where
  open F use {Float, of_int, to_int, lit, plus, minus, times, less}

  pub record GithubRetryConfig : Type 0 where
    pub max_retries : ℤ
    pub initial_delay : ℤ
    pub max_delay : ℤ
    pub multiplier : Float
    pub jitter : Bool
    pub rate_limit_max_retries : ℤ
    pub rate_limit_base_delay : ℤ
    pub rate_limit_max_delay : ℤ
    pub network_max_retries : ℤ
    pub network_base_delay : ℤ
    pub network_max_delay : ℤ
    pub has_callback : Bool

  unfoldable pub default_github_retry_config : GithubRetryConfig
  default_github_retry_config = record {
    max_retries = pos 5;
    initial_delay = pos 1_000_000_000;
    max_delay = pos 300_000_000_000;
    multiplier = lit 2 0;
    jitter = true;
    rate_limit_max_retries = pos 3;
    rate_limit_base_delay = pos 900_000_000_000;
    rate_limit_max_delay = pos 3_600_000_000_000;
    network_max_retries = pos 5;
    network_base_delay = pos 2_000_000_000;
    network_max_delay = pos 120_000_000_000;
    has_callback = false;
  }

  -- `pow`: `exp` is an attempt number, for which `int(float64(n))` is `n`.
  unfoldable pub pow_from : Float → ℕ → Float → Float
  pow_from base zero result = result
  pow_from base (suc n) result = pow_from base n (times result base)

  abbrev pub pow : Float → ℕ → Float
  pow base exp = pow_from base exp (lit 1 0)

  -- `addJitter`, where `rand` is what `rand.Float64` returns.
  unfoldable pub add_jitter : Float → Float → Float
  add_jitter rand delay =
      let moved =
        plus delay (times (times (minus rand (lit 5 1)) (lit 2 0)) (times delay (lit 1 1))) in
      if less moved (lit 0 0) then times delay (lit 1 1) else moved

  abbrev capped : ℤ → Float → Float
  capped max x = if less (of_int max) x then of_int max else x

  unfoldable pub calculate_rate_limit_delay : GithubRetryConfig → Float → ℕ → ℤ
  unfolding add_jitter
  calculate_rate_limit_delay c rand attempt =
      let delay =
        capped c.rate_limit_max_delay
          (times (of_int c.rate_limit_base_delay) (pow c.multiplier attempt)) in
      to_int (if c.jitter then add_jitter rand delay else delay)

  unfoldable pub calculate_network_delay : GithubRetryConfig → Float → ℕ → ℤ
  unfolding add_jitter
  calculate_network_delay c rand attempt =
      let delay =
        capped c.network_max_delay
          (times (of_int c.network_base_delay) (pow c.multiplier attempt)) in
      to_int (if c.jitter then add_jitter rand delay else delay)

  unfoldable pub calculate_general_delay : GithubRetryConfig → Float → ℕ → ℤ
  unfolding add_jitter
  calculate_general_delay c rand attempt =
      let delay = capped c.max_delay (times (of_int c.initial_delay) (pow c.multiplier attempt)) in
      to_int (if c.jitter then add_jitter rand delay else delay)

  -- The delay for a rate limit, where `until` is `time.Until` of an instant at this attempt.
  unfoldable pub rate_limit_delay : GithubRetryConfig → (ℤ → ℤ) → Float → GithubError → ℕ → ℤ
  rate_limit_delay c until rand err attempt =
      let reset = until err.rate_limit_reset in
      if not (eqb_ℤ err.rate_limit_reset zero_time)
        && (ltb_ℤ (pos 0) reset && leb_ℤ reset c.rate_limit_max_delay)
      then reset
      else if ltb_ℤ (pos 0) err.retry_after && leb_ℤ err.retry_after c.rate_limit_max_delay
      then err.retry_after
      else calculate_rate_limit_delay c rand attempt

  -- The switch of `shouldRetryError`; `none` is `false, 0`.
  should_retry_kind : ErrorType → GithubRetryConfig → (ℤ → ℤ) → Float → GithubError → ℕ → Option ℤ
  should_retry_kind rate_limit c until rand err attempt =
      if leb_ℤ c.rate_limit_max_retries (pos attempt)
      then none
      else some (rate_limit_delay c until rand err attempt)
  should_retry_kind network c until rand err attempt =
      if leb_ℤ c.network_max_retries (pos attempt)
      then none
      else some (calculate_network_delay c rand attempt)
  should_retry_kind auth c until rand err attempt = none
  should_retry_kind not_found c until rand err attempt = none
  should_retry_kind general c until rand err attempt =
      if leb_ℤ c.max_retries (pos attempt)
      then none
      else some (calculate_general_delay c rand attempt)

  unfoldable pub should_retry_error :
      GithubRetryConfig → (ℤ → ℤ) → Float → GithubError → ℕ → Option ℤ
  unfolding should_retry_kind
  should_retry_error c until rand err attempt = should_retry_kind err.kind c until rand err attempt

  -- The limit on the attempts that an error of each type allows.
  abbrev pub limit_of : GithubRetryConfig → ErrorType → ℤ
  limit_of c rate_limit = c.rate_limit_max_retries
  limit_of c network = c.network_max_retries
  limit_of c auth = pos 0
  limit_of c not_found = pos 0
  limit_of c general = c.max_retries

  -- An error is retried after an attempt exactly if the attempt is below the limit of its type,
  -- which is 0 for authentication and not-found errors.
  pub should_retry_error_iff :
      (c : GithubRetryConfig) (until : ℤ → ℤ) (rand : Float) (err : GithubError) (attempt : ℕ)
      → (is_some (should_retry_error c until rand err attempt) ≡ true)
        ↔ (pos attempt <ℤ limit_of c err.kind)
  unfolding should_retry_error
  should_retry_error_iff c until rand err attempt = ground arith

  capped_bounds :
      (laws : FloatLaws F) (n : ℤ) (x : Float)
      → IsExact n
      → pos 0 ≤ℤ n
      → laws.is_nan x ≡ false
      → less x (of_int (pos 0)) ≡ false
      → (pos 0 ≤ℤ to_int (capped n x)) × (to_int (capped n x) ≤ℤ n)
  capped_bounds laws n x ex nonneg num low = elim (Bool-cases (less (of_int n) x)) [
    | inl over ↦ rw (over, laws.exact n ex) (nonneg, omega arith)
    | inr under ↦ rw under (laws.truncate_le x n ex num low under)
  ]

  calculate_rate_limit_delay-capped :
      (laws : FloatLaws F) (c : GithubRetryConfig) (rand : Float) (attempt : ℕ)
      → c.jitter ≡ false
      → IsExact c.rate_limit_max_delay
      → pos 0 ≤ℤ c.rate_limit_max_delay
      → let x = times (of_int c.rate_limit_base_delay) (pow c.multiplier attempt) in
        laws.is_nan x ≡ false
        → less x (of_int (pos 0)) ≡ false
        → (pos 0 ≤ℤ calculate_rate_limit_delay c rand attempt)
          × (calculate_rate_limit_delay c rand attempt ≤ℤ c.rate_limit_max_delay)
  unfolding calculate_rate_limit_delay
  calculate_rate_limit_delay-capped laws c rand attempt j ex nonneg num low =
      let x = times (of_int c.rate_limit_base_delay) (pow c.multiplier attempt) in
      let y = capped c.rate_limit_max_delay x in
      let calm : calculate_rate_limit_delay c rand attempt ≡ to_int y =
        ap (λ b. to_int (if b then add_jitter rand y else y)) j in
      subst (λ d. (pos 0 ≤ℤ d) × (d ≤ℤ c.rate_limit_max_delay)) (sym calm)
        (capped_bounds laws c.rate_limit_max_delay x ex nonneg num low)

  -- Without jitter, and if the backoff before the cap is a number that is not negative, a rate
  -- limit is waited out for between 0 and `RateLimitMaxDelay`, whatever the headers of the response
  -- say. The cap is not negative and has at most 53 bits.
  pub rate_limit_delay-capped :
      (laws : FloatLaws F) (c : GithubRetryConfig) (until : ℤ → ℤ) (rand : Float)
      (err : GithubError) (attempt : ℕ)
      → c.jitter ≡ false
      → IsExact c.rate_limit_max_delay
      → pos 0 ≤ℤ c.rate_limit_max_delay
      → let x = times (of_int c.rate_limit_base_delay) (pow c.multiplier attempt) in
        laws.is_nan x ≡ false
        → less x (of_int (pos 0)) ≡ false
        → (pos 0 ≤ℤ rate_limit_delay c until rand err attempt)
          × (rate_limit_delay c until rand err attempt ≤ℤ c.rate_limit_max_delay)
  unfolding rate_limit_delay
  rate_limit_delay-capped laws c until rand err attempt j ex nonneg num low =
      ground (arith, calculate_rate_limit_delay-capped laws c rand attempt j ex nonneg num low)
