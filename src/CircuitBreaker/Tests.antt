-- ===== src/CircuitBreaker/Tests.antt =====
-- Runs of a breaker on concrete histories, and the theorems at them.
use mcp_operator.Prelude.{ℕ, ◌≡◌, refl, ◌≢◌, true, none, some, List, [], ◌∷◌, arith, pos}
use mcp_operator.CircuitBreaker.{
  closed, open_circuit, half_open, Config, CircuitBreaker, new_circuit_breaker,
  circuit_breaker_open, returns, CallResult, returned, call, reset, step, run,
}
use mcp_operator.CircuitBreaker.Invariant.{Inv, new_circuit_breaker-Inv, run-Inv}
use mcp_operator.CircuitBreaker.Spec.{
  View, healthy, tripped, view, spec_call, call-spec_call, Attempt, calls, spec_run, view-run,
}
use mcp_operator.CircuitBreaker.Probes.{failing}

abbrev two_strikes : Config
two_strikes = record {
  name = "registry";
  max_failures = pos 2;
  timeout = pos 10;
  max_requests = pos 1;
  has_callback = true;
}

breaker : Unit {0}
unfolding new_circuit_breaker run step call reset
breaker = tt

abbrev outage : List Attempt
outage =
    record { result = some "refused"; now = 1; done = 2 }
    ∷ record { result = some "refused"; now = 3; done = 4 }
    ∷ record { result = none; now = 10; done = 11 }
    ∷ []

abbrev tripped_at : ℕ → CircuitBreaker
tripped_at t = run (new_circuit_breaker two_strikes) (failing t 2)

trips_and_recovers :
    (view (run (new_circuit_breaker two_strikes) (calls outage)) ≡ tripped 4)
    × ((call (run (new_circuit_breaker two_strikes) (calls outage)) (returns none) 15 16).1
        ≡ returned none)
    × ((call (tripped_at 5) (returns none) 15 16).1 ≡ returned (some circuit_breaker_open))
    × ((tripped_at 5).metrics.notified ≡ (closed, open_circuit) ∷ [])
    × ((reset (tripped_at 5)).state ≡ closed)
unfolding breaker
trips_and_recovers = (refl, refl, refl, refl, refl)

defaults :
    (new_circuit_breaker (record two_strikes { max_failures = pos 0; name = "" })).config
    ≡ record two_strikes { max_failures = pos 5; name = "default" }
unfolding breaker
defaults = refl

call-spec_call_example :
    let (after, result) = call (tripped_at 5) (returns none) 20 21 in
    ◌≡◌ {A = View × CallResult} (view after, result) (healthy 0, returned none)
unfolding breaker spec_call
call-spec_call_example = call-spec_call (tripped_at 5) none 20 21 (grind arith)

view-run_example :
    (view (run (new_circuit_breaker two_strikes) (calls outage)) ≡ tripped 4)
    × ((run (new_circuit_breaker two_strikes) (calls outage)).state ≢ half_open)
unfolding breaker spec_call spec_run
view-run_example = view-run (new_circuit_breaker two_strikes) outage (grind arith)

run-Inv_example : Inv (run (new_circuit_breaker two_strikes) (failing 5 2))
run-Inv_example =
    run-Inv (new_circuit_breaker two_strikes) (failing 5 2) (new_circuit_breaker-Inv two_strikes)
