-- ===== src/Retry/Github.antt =====
-- pkg/retry/github_retry.go: classification of GitHub errors and the retry loop that goes by it.
-- The clock and the random numbers are arguments; the duration histogram is left out.
pub mod Delay
pub mod Loop
pub mod Results
mod Tests
use mcp_operator.Prelude.{
  String, ◌==◌, Bool, true, ◌||◌, Option, none, some, List, [], ◌∷◌, map, if◌then◌else◌, any, ℤ,
  pos, negsuc, eqb_ℤ, wrap_signed, scale, runes, to_lower, has_infix, parse_int,
}

pub data ErrorType : Type 0 where
  general rate_limit network auth not_found : ErrorType

-- An error: its text, and whether it is a `net.Error`, a `*net.OpError` or a `*net.DNSError`.
pub record GoError : Type 0 where
  pub message : String
  pub is_net_error : Bool
  pub is_op_error : Bool
  pub is_dns_error : Bool

-- What is used of `*http.Response`; a missing header is the empty text.
pub record Response : Type 0 where
  pub status_code : ℤ
  pub rate_limit_reset : String
  pub retry_after : String
  pub has_body : Bool

-- `time.Time` as seconds since 1970, and the zero time.
abbrev pub zero_time : ℤ
zero_time = negsuc 62_135_596_799

pub record GithubError : Type 0 where
  pub kind : ErrorType
  pub status_code : ℤ
  pub message : String
  pub retry_after : ℤ
  pub rate_limit_reset : ℤ
  pub original : GoError

abbrev pub network_patterns : List String
network_patterns =
    "connection refused" ∷ "connection reset" ∷ "connection timeout" ∷ "network is unreachable"
    ∷ "no such host" ∷ "timeout" ∷ "dns" ∷ "tcp" ∷ "i/o timeout" ∷ []

unfoldable pub is_network_error : GoError → Bool
unfolding to_lower
is_network_error err =
    if err.is_net_error || err.is_op_error || err.is_dns_error
    then true
    else any (λ p. has_infix (runes p) (map to_lower (runes err.message))) network_patterns

abbrev reset_time : String → ℤ
reset_time header =
    if header == ""
    then zero_time
    else elim (parse_int header) [ none ↦ zero_time | some seconds ↦ seconds ]

abbrev retry_after_of : String → ℤ
retry_after_of header = if header == "" then pos 0 else elim (parse_int header) [
  | none ↦ pos 0
  | some seconds ↦ wrap_signed 64 (scale 1_000_000_000 seconds)
]

-- The switch on the status code.
unfoldable pub classify_status : GithubError → Response → GithubError
unfolding parse_int
classify_status err resp =
    if eqb_ℤ resp.status_code (pos 403) || eqb_ℤ resp.status_code (pos 429)
    then record seen {
      kind = rate_limit;
      message = "GitHub API rate limit exceeded";
      rate_limit_reset = reset_time resp.rate_limit_reset;
      retry_after = retry_after_of resp.retry_after;
    }
    else if eqb_ℤ resp.status_code (pos 401)
    then record seen { kind = auth; message = "GitHub API authentication failed" }
    else if eqb_ℤ resp.status_code (pos 404)
    then record seen { kind = not_found; message = "GitHub API resource not found" }
    else seen
  where
    seen : GithubError
    seen = record err { status_code = resp.status_code }

unfoldable pub classify_github_error : Option GoError → Option Response → Option GithubError
unfolding is_network_error classify_status
classify_github_error none resp = none
classify_github_error (some err) resp =
    if is_network_error err
    then some (record base { kind = network })
    else elim resp [ none ↦ some base | some r ↦ some (classify_status base r) ]
  where
    base : GithubError
    base = record {
      kind = general;
      status_code = pos 0;
      message = err.message;
      retry_after = pos 0;
      rate_limit_reset = zero_time;
      original = err;
    }
