-- ===== src/Retry/Delay.antt =====
-- pkg/retry/retry.go: the delays of the exponential retrier, and its loop. Go's float64 and its
-- `math.Pow` are a parameter.
use mcp_operator.Prelude.{
  ℕ, ◌+◌, ◌≤◌, ◌≡◌, inl, inr, Bool, true, false, Option, none, [], arith, if◌then◌else◌, Bool-cases,
  ℤ, pos, pos_part, neg_part, ◌≤ℤ◌, eqb_ℤ,
}
use mcp_operator.Retry.{Env, RetryError, Log, retry_loop, rounds_of}

pub record Floats : Type 1 where
  pub Float : Type 0
  -- The conversions `float64(n)` and `time.Duration(x)`.
  pub of_int : ℤ → Float
  pub to_int : Float → ℤ
  -- `lit m k` is the constant m / 10^k.
  pub lit : ℕ → ℕ → Float
  pub plus : Float → Float → Float
  pub minus : Float → Float → Float
  pub times : Float → Float → Float
  pub math_pow : Float → Float → Float
  pub less : Float → Float → Bool
  pub equal : Float → Float → Bool

-- Integers of at most 53 bits are exact as float64.
abbrev pub IsExact : ℤ → Type 0
IsExact n = pos_part n + neg_part n ≤ 9_007_199_254_740_992

-- What IEEE 754 and the conversion to an integer promise, away from NaN.
pub record FloatLaws (F : Floats) : Type 1 where
  pub is_nan : F.Float → Bool
  pub exact : (n : ℤ) → IsExact n → F.to_int (F.of_int n) ≡ n
  pub truncate_le :
      (x : F.Float) (n : ℤ)
      → IsExact n
      → is_nan x ≡ false
      → F.less x (F.of_int (pos 0)) ≡ false
      → F.less (F.of_int n) x ≡ false
      → (pos 0 ≤ℤ F.to_int x) × (F.to_int x ≤ℤ n)

module _ (F : Floats) where
  open F use {Float, of_int, to_int, lit, plus, minus, times, math_pow, less, equal}

  pub record Config : Type 0 where
    pub max_retries : ℤ
    pub initial_delay : ℤ
    pub max_delay : ℤ
    pub multiplier : Float
    pub jitter : Bool
    pub has_callback : Bool

  unfoldable pub default_config : Config
  default_config = record {
    max_retries = pos 5;
    initial_delay = pos 1_000_000_000;
    max_delay = pos 300_000_000_000;
    multiplier = lit 2 0;
    jitter = true;
    has_callback = false;
  }

  unfoldable pub new_retrier : Config → Config
  new_retrier c = record c {
    max_retries = if eqb_ℤ c.max_retries (pos 0) then pos 5 else c.max_retries;
    initial_delay = if eqb_ℤ c.initial_delay (pos 0) then pos 1_000_000_000 else c.initial_delay;
    max_delay = if eqb_ℤ c.max_delay (pos 0) then pos 300_000_000_000 else c.max_delay;
    multiplier = if equal c.multiplier (lit 0 0) then lit 2 0 else c.multiplier;
  }

  -- The backoff before the cap: InitialDelay * Multiplier ^ attempt.
  abbrev pub backoff_of : Config → ℕ → Float
  backoff_of c attempt =
      times (of_int c.initial_delay) (math_pow c.multiplier (of_int (pos attempt)))

  abbrev cap_at : ℤ → Float → Float
  cap_at max x = if less (of_int max) x then of_int max else x

  -- `calculateDelay`, where `rand` is what `rand.Float64` returns.
  unfoldable pub calculate_delay : Config → Float → ℕ → ℤ
  calculate_delay c rand attempt =
      let delay = cap_at c.max_delay (backoff_of c attempt) in
      let jitter_range = times delay (lit 1 1) in
      let moved = plus delay (times (times (minus rand (lit 5 1)) (lit 2 0)) jitter_range) in
      if c.jitter
      then to_int (if less moved (lit 0 0) then of_int c.initial_delay else moved)
      else to_int delay

  -- `Retrier.DoWithRetryable`; `rand k` is drawn for the delay after attempt `k`.
  unfoldable pub do_with_retryable :
      {E : Type 0} → Config → (ℕ → Float) → Env E → Option (RetryError E) × Log E
  unfolding retry_loop
  do_with_retryable c rand env =
      retry_loop env c.max_retries c.has_callback (λ k. calculate_delay c (rand k) k)
        (rounds_of c.max_retries) 0 none []

  -- The configurations of `RetryHTTPRequest`, `RetryKubernetesOperation` and
  -- `RetryDatabaseOperation`.
  unfoldable pub http_config : Config
  http_config = record {
    max_retries = pos 3;
    initial_delay = pos 1_000_000_000;
    max_delay = pos 30_000_000_000;
    multiplier = lit 2 0;
    jitter = true;
    has_callback = false;
  }

  unfoldable pub kubernetes_config : Config
  kubernetes_config = record {
    max_retries = pos 5;
    initial_delay = pos 500_000_000;
    max_delay = pos 10_000_000_000;
    multiplier = lit 15 1;
    jitter = true;
    has_callback = false;
  }

  unfoldable pub database_config : Config
  database_config = record {
    max_retries = pos 3;
    initial_delay = pos 100_000_000;
    max_delay = pos 5_000_000_000;
    multiplier = lit 2 0;
    jitter = false;
    has_callback = false;
  }

  -- Without jitter, and if the backoff before the cap is a number that is not negative, the delay
  -- is between 0 and `MaxDelay`, at every attempt. `MaxDelay` is not negative and has at most 53
  -- bits.
  pub calculate_delay-capped :
      (laws : FloatLaws F) (c : Config) (rand : Float) (attempt : ℕ)
      → c.jitter ≡ false
      → IsExact c.max_delay
      → pos 0 ≤ℤ c.max_delay
      → laws.is_nan (backoff_of c attempt) ≡ false
      → less (backoff_of c attempt) (of_int (pos 0)) ≡ false
      → (pos 0 ≤ℤ calculate_delay c rand attempt) × (calculate_delay c rand attempt ≤ℤ c.max_delay)
  unfolding calculate_delay
  calculate_delay-capped laws c rand attempt j ex nonneg num low =
      elim (Bool-cases (less (of_int c.max_delay) (backoff_of c attempt))) [
        | inl over ↦ rw (j, over, laws.exact c.max_delay ex) (nonneg, omega arith)
        | inr under ↦
            rw (j, under) (laws.truncate_le (backoff_of c attempt) c.max_delay ex num low under)
      ]
