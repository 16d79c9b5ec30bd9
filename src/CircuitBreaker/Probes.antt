-- ===== src/CircuitBreaker/Probes.antt =====
-- pkg/circuitbreaker/circuitbreaker.go: runs of failing calls, and of panicking probes.
use mcp_operator.Prelude.{
  ℕ, zero, suc, ◌+◌, ◌≤◌, ◌<◌, ◌≡◌, refl, ap, ◌∙◌, Bool, true, false, some, List, [], ◌∷◌, arith,
  replicate, pos, sub_ℕ, ◌≤ℤ◌, ◌<ℤ◌,
}
use mcp_operator.CircuitBreaker.{
  closed, open_circuit, half_open, CircuitBreaker, circuit_breaker_open, too_many_requests, Outcome,
  returns, panics, returned, call, Use, call_at, reset_now, step, run,
}

-- `n` calls in a row whose function returns an error, all at one instant.
abbrev pub failing : ℕ → ℕ → List Use
failing t n = replicate n (call_at (returns (some "error")) t t)

-- `n` calls in a row whose function panics.
abbrev pub panicking : ℕ → ℕ → List Use
panicking t n = replicate n (call_at panics t t)

step-failing :
    (cb : CircuitBreaker) (t k : ℕ)
    → cb.state ≡ closed
    → cb.max_failures ≡ pos k
    → let cb' = step cb (call_at (returns (some "error")) t t) in
      (cb'.failures ≡ suc cb.failures)
      × (cb'.config ≡ cb.config)
      × (suc cb.failures < k → cb'.state ≡ closed)
      × (k ≤ suc cb.failures → (cb'.state ≡ open_circuit) × (cb'.last_failure_time ≡ t))
unfolding step call
step-failing cb t k s e = ground arith

-- A closed breaker with limit `k` and `f` failures so far stays closed through `n` more failing
-- calls if `f + n` is below `k`, and its count is then `f + n`.
pub failing-closed :
    (n : ℕ) (cb : CircuitBreaker) (t k : ℕ)
    → cb.state ≡ closed
    → cb.max_failures ≡ pos k
    → cb.failures + n < k
    → let cb' = run cb (failing t n) in
      (cb'.state ≡ closed) × (cb'.failures ≡ cb.failures + n) × (cb'.config ≡ cb.config)
unfolding run
failing-closed zero cb t k s e h = (s, omega arith, refl)
failing-closed (suc n) cb t k s e h =
    let (one, kept, stays, trips) = step-failing cb t k s e in
    let (st, fs, cf) =
      failing-closed n (step cb (call_at (returns (some "error")) t t)) t k (stays (omega arith))
        (ap (λ c. c.max_failures) kept ∙ e) (omega arith) in
    (st, omega arith, cf ∙ kept)

-- A closed breaker with limit `f + n + 1` and `f` failures so far is open after `n + 1` more calls
-- that fail at the instant `t`, and has `t` as its last failure.
pub failing-open :
    (n : ℕ) (cb : CircuitBreaker) (t : ℕ)
    → cb.state ≡ closed
    → cb.max_failures ≡ pos (suc (cb.failures + n))
    → let cb' = run cb (failing t (suc n)) in
      (cb'.state ≡ open_circuit) × (cb'.last_failure_time ≡ t)
unfolding run
failing-open zero cb t s e = (step-failing cb t (suc (cb.failures + 0)) s e).3 (omega arith)
failing-open (suc n) cb t s e =
    let (one, kept, stays, trips) = step-failing cb t (suc (cb.failures + suc n)) s e in
    failing-open n (step cb (call_at (returns (some "error")) t t)) t (stays (omega arith))
      (ap (λ c. c.max_failures) kept ∙ e ∙ ap pos (omega arith))

-- While a breaker is open, a call that starts no later than `Timeout` after the last failure is
-- refused with `ErrCircuitBreakerOpen`, whatever its function would do, and only the counter of
-- refused calls changes.
pub open-call_refused :
    (cb : CircuitBreaker) (f : Outcome) (now done : ℕ)
    → cb.state ≡ open_circuit
    → sub_ℕ now cb.last_failure_time ≤ℤ cb.timeout
    → call cb f now done ≡ (
      record cb { metrics = record cb.metrics { rejected = cb.metrics.rejected + 1 } },
      returned (some circuit_breaker_open),
    )
unfolding call
open-call_refused cb f now done s h = ground arith

-- Half-open with every probe used up.
abbrev pub IsStuck : CircuitBreaker → Type 0
IsStuck cb = (cb.state ≡ half_open) × (cb.max_requests ≤ℤ pos cb.requests)

IsStuck-call :
    (cb : CircuitBreaker) (f : Outcome) (now done : ℕ)
    → IsStuck cb
    → ((call cb f now done).1 ≡ returned (some too_many_requests)) × IsStuck (call cb f now done).0
unfolding call
IsStuck-call cb f now done s = ground arith

abbrev pub all_calls : List Use → Bool
all_calls [] = true
all_calls (call_at f now done ∷ us) = all_calls us
all_calls (reset_now ∷ us) = false

IsStuck-run :
    (cb : CircuitBreaker) (us : List Use) → all_calls us ≡ true → IsStuck cb → IsStuck (run cb us)
unfolding run step
IsStuck-run cb [] h s = s
IsStuck-run cb (call_at f now done ∷ us) h s =
    IsStuck-run (call cb f now done).0 us h (IsStuck-call cb f now done s).1
IsStuck-run cb (reset_now ∷ us) h s = cc

-- The first probe that panics takes an open breaker, whose timeout has passed, to half-open with no
-- probe counted; each later one is counted.
step-panicking :
    (cb : CircuitBreaker) (t : ℕ)
    → cb.state ≡ open_circuit
    → cb.timeout <ℤ sub_ℕ t cb.last_failure_time
    → let cb' = step cb (call_at panics t t) in
      (cb'.state ≡ half_open) × (cb'.requests ≡ 0) × (cb'.config ≡ cb.config)
unfolding step call
step-panicking cb t s h = ground arith

step-panicking_half :
    (cb : CircuitBreaker) (t k : ℕ)
    → cb.state ≡ half_open
    → cb.max_requests ≡ pos k
    → cb.requests < k
    → let cb' = step cb (call_at panics t t) in
      (cb'.state ≡ half_open) × (cb'.requests ≡ suc cb.requests) × (cb'.config ≡ cb.config)
unfolding step call
step-panicking_half cb t k s e h = ground arith

panicking-IsStuck :
    (n : ℕ) (cb : CircuitBreaker) (t : ℕ)
    → cb.state ≡ half_open
    → cb.max_requests ≡ pos (cb.requests + n)
    → IsStuck (run cb (panicking t n))
unfolding run
panicking-IsStuck zero cb t s e = (s, ground arith)
panicking-IsStuck (suc n) cb t s e =
    let (st, one, kept) = step-panicking_half cb t (cb.requests + suc n) s e (omega arith) in
    panicking-IsStuck n (step cb (call_at panics t t)) t st
      (ap (λ c. c.max_requests) kept ∙ e ∙ ap pos (omega arith))

-- An open breaker with `MaxRequests` = `k`, past its timeout, lets `k + 1` calls run that all
-- panic; from then on every call is refused with `ErrTooManyRequests`, however late it starts and
-- however many calls came between, until `Reset`.
pub panicking_probes_lock_out :
    (cb : CircuitBreaker) (t k : ℕ) (us : List Use) (f : Outcome) (now done : ℕ)
    → cb.state ≡ open_circuit
    → cb.max_requests ≡ pos k
    → cb.timeout <ℤ sub_ℕ t cb.last_failure_time
    → all_calls us ≡ true
    → (call (run (run cb (panicking t (suc k))) us) f now done).1
      ≡ returned (some too_many_requests)
unfolding run
panicking_probes_lock_out cb t k us f now done s e h only =
    let cb' = step cb (call_at panics t t) in
    let (st, none_yet, kept) = step-panicking cb t s h in
    (IsStuck-call (run (run cb' (panicking t k)) us) f now done (
      IsStuck-run (run cb' (panicking t k)) us only (
        panicking-IsStuck k cb' t st (ap (λ c. c.max_requests) kept ∙ e ∙ ap pos (omega arith))))).0
