-- ===== src/AutoUpdate.antt =====
-- pkg/services/auto_update_service.go: the failure tracker with its backoff. An instant is a number
-- of nanoseconds, as an integer. A pass runs on one goroutine.
pub mod Backoff
pub mod Template
pub mod Update
pub mod Comparison
pub mod Convergence
pub mod Check
pub mod Sync
pub mod Passes
mod Tests
use mcp_operator.Prelude.{
  ℕ, ◌+◌, ◌-◌, ◌%◌, ◌^◌, String, Bool, false, Option, none, some, ltb, if◌then◌else◌, ℤ, pos, ◌+ℤ◌,
  ltb_ℤ, wrap_signed, scale, Dict, lookup, insert, remove,
}

pub record UpdateFailureInfo : Type 0 where
  pub failure_count : ℕ
  pub last_failure_time : ℤ
  pub next_retry_time : ℤ

-- The value of `1 << uint(n)` in an int64.
abbrev shift_one : ℕ → ℤ
shift_one n = if ltb n 64 then wrap_signed 64 (pos (2 ^ n)) else pos 0

-- `uint(failureCount-1)`, of 64 bits.
abbrev shift_amount : ℕ → ℕ
shift_amount failure_count = (failure_count + (2 ^ 64 - 1)) % 2 ^ 64

abbrev cap_minutes : ℤ → ℤ
cap_minutes m = if ltb_ℤ (pos 1440) m then pos 1440 else m

-- `calculateBackoffDuration`, in nanoseconds.
unfoldable pub calculate_backoff_duration : ℕ → ℤ
calculate_backoff_duration failure_count =
    wrap_signed 64 (scale 60_000_000_000 (cap_minutes (shift_one (shift_amount failure_count))))

unfoldable pub is_in_backoff_period : (now : ℤ) → String → Dict UpdateFailureInfo → Bool
is_in_backoff_period now key tracker = elim (lookup key tracker) [
  | none ↦ false
  | some info ↦ ltb_ℤ now info.next_retry_time
]

-- The entry that a failure leaves, given the one before it.
unfoldable pub failed_again : (now : ℤ) → Option UpdateFailureInfo → UpdateFailureInfo
failed_again now none = record {
  failure_count = 1;
  last_failure_time = now;
  next_retry_time = now +ℤ calculate_backoff_duration 1;
}
failed_again now (some info) = record {
  failure_count = info.failure_count + 1;
  last_failure_time = now;
  next_retry_time = now +ℤ calculate_backoff_duration (info.failure_count + 1);
}

unfoldable pub record_failure : (now : ℤ) → String → Dict UpdateFailureInfo → Dict UpdateFailureInfo
unfolding failed_again
record_failure now key tracker = insert key (failed_again now (lookup key tracker)) tracker

unfoldable pub record_success : String → Dict UpdateFailureInfo → Dict UpdateFailureInfo
record_success key tracker = remove key tracker
