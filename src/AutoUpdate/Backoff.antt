-- ===== src/AutoUpdate/Backoff.antt =====
-- pkg/services/auto_update_service.go: the backoff after failed updates, by their number and their
-- instants.
use native.Mathlib.Numerals.{add-one}
use native.Mathlib.Decide.{dec_lt}
use mcp_operator.Prelude.{
  ℕ, zero, suc, ◌+◌, ◌-◌, ◌*◌, ◌^◌, ◌≤◌, ◌<◌, String, ◌==◌, eq_iff, ◌≡◌, refl, ap, ◌∙◌, subst, ◌≢◌,
  inl, inr, Bool, true, false, none, some, List, [], ◌∷◌, arith, ltb, if◌then◌else◌, ltb→lt,
  Bool-cases, length, ℤ, pos, ◌+ℤ◌, ltb_ℤ, eqb_ℤ, wrap_signed, scale, eqb_ℤ_sound, Dict, lookup,
  lookup-insert, lookup-remove,
}
use mcp_operator.AutoUpdate.{
  UpdateFailureInfo, shift_one, shift_amount, cap_minutes, calculate_backoff_duration,
  is_in_backoff_period, failed_again, record_failure, record_success,
}

-- 2^(n-1) minutes, at most a day.
abbrev pub backoff_minutes : ℕ → ℕ
backoff_minutes n = if ltb 1440 (2 ^ (n - 1)) then 1440 else 2 ^ (n - 1)

-- The duration after the count is the expected one.
abbrev expected_after : ℕ → Bool
expected_after count =
    eqb_ℤ (calculate_backoff_duration count) (pos (60_000_000_000 * backoff_minutes count))

-- The durations after 1 to `most` failures are the expected ones.
as_expected_up_to : (most : ℕ) → Bool
as_expected_up_to zero = true
as_expected_up_to (suc fewer) =
    let smaller = as_expected_up_to fewer in if expected_after (fewer + 1) then smaller else false

as_expected_top : (n : ℕ) → as_expected_up_to (suc n) ≡ true → expected_after (n + 1) ≡ true
unfolding as_expected_up_to
as_expected_top n h = ground arith

as_expected_below : (n : ℕ) → as_expected_up_to (suc n) ≡ true → as_expected_up_to n ≡ true
unfolding as_expected_up_to
as_expected_below n h = ground arith

as_expected_each :
    (most count : ℕ)
    → as_expected_up_to most ≡ true
    → count < most
    → expected_after (count + 1) ≡ true
as_expected_each zero count all_good below = absurd (omega arith)
as_expected_each (suc fewer) count all_good below = elim (dec_lt count fewer) [
  | yes smaller ↦ as_expected_each fewer count (as_expected_below fewer all_good) smaller
  | no last ↦
      subst (λ x. expected_after (x + 1) ≡ true) (omega arith) (as_expected_top fewer all_good)
]

duration_table : as_expected_up_to 63 ≡ true
unfolding as_expected_up_to calculate_backoff_duration
duration_table = refl

-- After 1 to 63 failures in a row the backoff is 2^(n-1) minutes, and a day from the twelfth on.
pub calculate_backoff_duration_lem :
    (n : ℕ)
    → 0 < n
    → n ≤ 63
    → calculate_backoff_duration n ≡ pos (60_000_000_000 * backoff_minutes n)
calculate_backoff_duration_lem zero h k = absurd (omega arith)
calculate_backoff_duration_lem (suc n) h k =
    rw (← add-one n) (eqb_ℤ_sound _ _ (as_expected_each 63 n duration_table (omega arith)))

shift_amount-pred : (n : ℕ) → 0 < n → n < 2 ^ 64 → shift_amount n ≡ n - 1
shift_amount-pred n h k = omega arith

last_bit : calculate_backoff_duration 64 ≡ pos 0
unfolding calculate_backoff_duration
last_bit = refl

-- A shift by 64 bits or more leaves nothing.
no_bits : (n : ℕ) → 64 ≤ n → shift_one n ≡ pos 0
no_bits n h = elim (Bool-cases (ltb n 64)) [
  | inl low ↦ absurd (omega (arith, ltb→lt n 64 low))
  | inr high ↦ ap (λ b. if b then wrap_signed 64 (pos (2 ^ n)) else pos 0) high
]

past_the_bits : (n : ℕ) → 64 < n → n < 2 ^ 64 → calculate_backoff_duration n ≡ pos 0
unfolding calculate_backoff_duration
past_the_bits n h k =
    ap (λ m. wrap_signed 64 (scale 60_000_000_000 (cap_minutes m)))
      (ap shift_one (shift_amount-pred n (omega arith) k) ∙ no_bits (n - 1) (omega arith))

-- From the 64th failure in a row on there is no backoff: the shift leaves the 64 bits.
pub calculate_backoff_duration_vanishes :
    (n : ℕ) → 64 ≤ n → n < 2 ^ 64 → calculate_backoff_duration n ≡ pos 0
calculate_backoff_duration_vanishes n h k = elim (dec_lt 64 n) [
  | yes more ↦ past_the_bits n more k
  | no least ↦ ap calculate_backoff_duration (omega arith) ∙ last_bit
]

-- Failures of one server at instants, the latest first.
abbrev pub failures_at : String → List ℤ → Dict UpdateFailureInfo → Dict UpdateFailureInfo
failures_at key [] tracker = tracker
failures_at key (t ∷ ts) tracker = record_failure t key (failures_at key ts tracker)

pub lookup-record_failure :
    (key : String) (now : ℤ) (other : String) (tracker : Dict UpdateFailureInfo)
    → lookup other (record_failure now key tracker) ≡ (
        if key == other then some (failed_again now (lookup key tracker)) else lookup other tracker)
unfolding record_failure
lookup-record_failure key now other tracker =
    lookup-insert key other (failed_again now (lookup key tracker)) tracker

lookup-same :
    (key : String) (now : ℤ) (tracker : Dict UpdateFailureInfo)
    → lookup key (record_failure now key tracker) ≡ some (failed_again now (lookup key tracker))
lookup-same key now tracker =
    ground (arith, lookup-record_failure key now key tracker, eq_iff key key)

-- The entry after n + 1 failures, the last of them at t.
abbrev pub entry : ℤ → ℕ → UpdateFailureInfo
entry t n = record {
  failure_count = n + 1;
  last_failure_time = t;
  next_retry_time = t +ℤ calculate_backoff_duration (n + 1);
}

failed_again-entry : (now t : ℤ) (n : ℕ) → failed_again now (some (entry t n)) ≡ entry now (n + 1)
unfolding failed_again
failed_again-entry now t n = refl

failed_again-none : (now : ℤ) → failed_again now none ≡ entry now 0
unfolding failed_again
failed_again-none now = refl

pub lookup-failures_at :
    (key : String) (t : ℤ) (ts : List ℤ) (tracker : Dict UpdateFailureInfo)
    → lookup key tracker ≡ none
    → lookup key (failures_at key (t ∷ ts) tracker) ≡ some (entry t (length ts))
lookup-failures_at key t [] tracker h =
    lookup-same key t tracker ∙ ap (λ o. some (failed_again t o)) h ∙ ap some (failed_again-none t)
lookup-failures_at key t (u ∷ ts) tracker h =
    lookup-same key t (failures_at key (u ∷ ts) tracker)
    ∙ ap (λ o. some (failed_again t o)) (lookup-failures_at key u ts tracker h)
    ∙ ap some (failed_again-entry t u (length ts))
    ∙ ap (λ n. some (entry t n)) (omega arith)

backoff-failures_at :
    (now : ℤ) (key : String) (t : ℤ) (ts : List ℤ) (tracker : Dict UpdateFailureInfo)
    → lookup key tracker ≡ none
    → is_in_backoff_period now key (failures_at key (t ∷ ts) tracker)
      ≡ ltb_ℤ now (t +ℤ calculate_backoff_duration (length ts + 1))
unfolding is_in_backoff_period
backoff-failures_at now key t ts tracker h =
    ap (λ o. elim o [ none ↦ false | some info ↦ ltb_ℤ now info.next_retry_time ])
      (lookup-failures_at key t ts tracker h)

-- A server that was not tracked and has then failed 1 to 63 times in a row, the last time at t, is
-- in its backoff period exactly before t + 2^(n-1) minutes, or t + 24 hours if that is less.
pub is_in_backoff_period-failures_at :
    (now : ℤ) (key : String) (t : ℤ) (ts : List ℤ) (tracker : Dict UpdateFailureInfo)
    → lookup key tracker ≡ none
    → length ts < 63
    → is_in_backoff_period now key (failures_at key (t ∷ ts) tracker)
      ≡ ltb_ℤ now (t +ℤ pos (60_000_000_000 * backoff_minutes (length ts + 1)))
is_in_backoff_period-failures_at now key t ts tracker h k =
    backoff-failures_at now key t ts tracker h
    ∙ ap (λ d. ltb_ℤ now (t +ℤ d))
        (calculate_backoff_duration_lem (length ts + 1) (omega arith) (omega arith))

-- From the 64th failure in a row on, a server that was not tracked before is in its backoff period
-- only at instants before its last failure.
pub is_in_backoff_period_vanishes :
    (now : ℤ) (key : String) (t : ℤ) (ts : List ℤ) (tracker : Dict UpdateFailureInfo)
    → lookup key tracker ≡ none
    → 63 ≤ length ts
    → length ts < 2 ^ 64 - 1
    → is_in_backoff_period now key (failures_at key (t ∷ ts) tracker) ≡ ltb_ℤ now (t +ℤ pos 0)
is_in_backoff_period_vanishes now key t ts tracker h low high =
    backoff-failures_at now key t ts tracker h
    ∙ ap (λ d. ltb_ℤ now (t +ℤ d))
        (calculate_backoff_duration_vanishes (length ts + 1) (omega arith) (omega arith))

-- A failure of one server and a success of it leave the backoff of every other server as it was; a
-- success ends the backoff of the server itself.
pub is_in_backoff_period_local :
    (now t : ℤ) (key other : String) (tracker : Dict UpdateFailureInfo)
    → key ≢ other
    → (is_in_backoff_period now other (record_failure t key tracker)
        ≡ is_in_backoff_period now other tracker)
      × (is_in_backoff_period now other (record_success key tracker)
          ≡ is_in_backoff_period now other tracker)
      × (is_in_backoff_period now key (record_success key tracker) ≡ false)
unfolding is_in_backoff_period record_success
is_in_backoff_period_local now t key other tracker h = (
  ground (arith, lookup-record_failure key t other tracker, eq_iff key other),
  ground (arith, lookup-remove key other tracker, eq_iff key other),
  ground (arith, lookup-remove key key tracker, eq_iff key key),
)
