-- ===== src/CircuitBreaker/Invariant.antt =====
-- pkg/circuitbreaker/circuitbreaker.go: the invariant between two uses.
use mcp_operator.Prelude.{
  ℕ, ◌≤◌, ◌≡◌, Bool, true, false, List, [], ◌∷◌, arith, if◌then◌else◌, pos, ◌≤ℤ◌, ◌<ℤ◌,
}
use mcp_operator.CircuitBreaker.{
  State, closed, open_circuit, half_open, Config, CircuitBreaker, new_circuit_breaker, Outcome,
  call, reset, Use, call_at, reset_now, step, run,
}

-- The edges of the state diagram; only `Reset` leads from open to closed.
abbrev pub is_edge : State → State → Bool
is_edge closed open_circuit = true
is_edge open_circuit half_open = true
is_edge half_open closed = true
is_edge half_open open_circuit = true
is_edge open_circuit closed = true
is_edge _ _ = false

-- A log of state changes, the latest first, that leads from `closed` along edges to a state.
abbrev pub Walk : List (State × State) → State → Type 0
Walk [] s = s ≡ closed
Walk ((a, b) ∷ log) s = (b ≡ s) × (is_edge a b ≡ true) × Walk log a

pub record Inv (cb : CircuitBreaker) : Type 0 where
  pub gauge_exact : cb.metrics.gauge ≡ cb.state
  pub below_limit :
      cb.state ≡ closed → pos 0 <ℤ cb.max_failures → pos cb.failures <ℤ cb.max_failures
  pub probes_capped :
      cb.state ≡ half_open → pos 0 ≤ℤ cb.max_requests → pos cb.requests ≤ℤ cb.max_requests
  pub counted : cb.failures ≤ cb.metrics.failures_total
  pub callback_log : cb.metrics.notified ≡ (if cb.has_callback then cb.metrics.changes else [])
  pub logged : Walk cb.metrics.changes cb.state

-- A new breaker, with any configuration, satisfies the invariant.
pub new_circuit_breaker-Inv : (c : Config) → Inv (new_circuit_breaker c)
unfolding new_circuit_breaker
new_circuit_breaker-Inv c = ground arith

call-Inv : (cb : CircuitBreaker) (f : Outcome) (now done : ℕ) → Inv cb → Inv (call cb f now done).0
unfolding call
call-Inv cb f now done v = ground arith

reset-Inv : (cb : CircuitBreaker) → Inv cb → Inv (reset cb)
unfolding reset
reset-Inv cb v = ground arith

step-Inv : (cb : CircuitBreaker) (u : Use) → Inv cb → Inv (step cb u)
unfolding step
step-Inv cb (call_at f now done) v = call-Inv cb f now done v
step-Inv cb reset_now v = reset-Inv cb v

-- Every sequence of uses, from a breaker that satisfies the invariant, keeps it: the gauge shows
-- the state, a closed breaker with a positive limit is below it, a half-open one has counted at
-- most `MaxRequests` probes, and the callback, if set, has seen every change.
pub run-Inv : (cb : CircuitBreaker) (us : List Use) → Inv cb → Inv (run cb us)
unfolding run
run-Inv cb [] v = v
run-Inv cb (u ∷ us) v = run-Inv (step cb u) us (step-Inv cb u v)
