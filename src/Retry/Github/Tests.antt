-- ===== src/Retry/Github/Tests.antt =====
-- Runs of the GitHub retrier over whole-number floats, and the theorems at them.
use mathlib.Core.Option
use mcp_operator.Prelude.{
  ℕ, String, ◌≡◌, refl, true, false, none, some, [], ◌∷◌, eqb, if◌then◌else◌, ℤ, pos, negsuc,
}
use mcp_operator.Retry.Whole.{whole}
use mcp_operator.Retry.Github.{
  ErrorType, general, rate_limit, network, not_found, GoError, Response, zero_time, GithubError,
  classify_github_error,
}
use mcp_operator.Retry.Github.Delay.{
  GithubRetryConfig, pow_from, calculate_rate_limit_delay, calculate_general_delay,
  rate_limit_delay, should_retry_error,
}
use mcp_operator.Retry.Github.Loop.{GithubEnv, success, do_with_github_retry}
use mcp_operator.Retry.Github.Results.{calls, closed_bodies, Verdict, do_with_github_retry-Verdict}

abbrev plain_error : String → GoError
plain_error s = record {
  message = s;
  is_net_error = false;
  is_op_error = false;
  is_dns_error = false;
}

abbrev reply : ℕ → String → Response
reply code after = record {
  status_code = pos code;
  rate_limit_reset = "";
  retry_after = after;
  has_body = true;
}

abbrev kind_and_wait : GithubError → ErrorType × ℤ
kind_and_wait e = (e.kind, e.retry_after)

classified :
    (Option.map kind_and_wait
        (classify_github_error (some (plain_error "denied")) (some (reply 429 "120")))
      ≡ some (rate_limit, pos 120_000_000_000))
    × (Option.map (λ e. e.kind) (classify_github_error (some (plain_error "dial TCP failed")) none)
        ≡ some network)
    × (Option.map
          (λ e. e.kind)
          (classify_github_error (some (plain_error "gone")) (some (reply 404 "")))
        ≡ some not_found)
    × (Option.map
          (λ e. e.kind)
          (classify_github_error (some (plain_error "gone")) (some (reply 500 "")))
        ≡ some general)
unfolding classify_github_error
classified = (refl, refl, refl, refl)

-- The product of nanoseconds wraps.
long_wait_wraps :
    Option.map
      (λ e. e.retry_after)
      (classify_github_error (some (plain_error "x")) (some (reply 403 "9223372037")))
    ≡ some (negsuc 9_223_372_036_709_551_615)
unfolding classify_github_error
long_wait_wraps = refl

abbrev settings : GithubRetryConfig whole
settings = record {
  max_retries = pos 2;
  initial_delay = pos 1;
  max_delay = pos 300;
  multiplier = pos 2;
  jitter = false;
  rate_limit_max_retries = pos 1;
  rate_limit_base_delay = pos 900;
  rate_limit_max_delay = pos 3600;
  network_max_retries = pos 2;
  network_base_delay = pos 2;
  network_max_delay = pos 120;
  has_callback = true;
}

-- Attempt 0 is rate limited, attempt 1 is answered.
abbrev throttled : GithubEnv whole
throttled = record {
  fn = λ k.
      if eqb k 0
      then (some (reply 429 ""), some (plain_error "slow down"))
      else (some (reply 200 ""), none);
  interrupted = λ k. none;
  until = λ k t. pos 0;
  rand = λ k. pos 0;
}

abbrev failing : GithubEnv whole
failing = record throttled { fn = λ k. (some (reply 500 ""), some (plain_error "oops")) }

github_runs :
    ((do_with_github_retry whole settings throttled).0 ≡ success)
    × (closed_bodies (do_with_github_retry whole settings throttled).1 ≡ 1 ∷ 0 ∷ [])
    × (calls (do_with_github_retry whole settings failing).1 ≡ 3)
unfolding do_with_github_retry should_retry_error rate_limit_delay calculate_rate_limit_delay
    calculate_general_delay pow_from classify_github_error
github_runs = (refl, refl, refl)

do_with_github_retry-Verdict_example :
    let (r, log) = do_with_github_retry whole settings failing in
    Verdict whole settings failing 2 r (calls log)
do_with_github_retry-Verdict_example = do_with_github_retry-Verdict whole settings failing 2 refl

abbrev limited : GithubError
limited = record {
  kind = rate_limit;
  status_code = pos 429;
  message = "GitHub API rate limit exceeded";
  retry_after = pos 9000;
  rate_limit_reset = zero_time;
  original = plain_error "slow down";
}
