-- ===== src/CircuitBreaker.antt =====
-- pkg/circuitbreaker/circuitbreaker.go. An instant is a number of nanoseconds, and is an argument
-- of the operations that read the clock; `int` and `time.Duration` settings are integers. The two
-- counters start at 0 and only grow by 1, so they are natural numbers. `metrics` holds what the
-- Prometheus collectors of one breaker hold, and the calls of `OnStateChange`.
pub mod Invariant
pub mod Spec
pub mod Probes
mod Tests
use mcp_operator.Prelude.{
  ℕ, ◌+◌, ◌*◌, String, ◌==◌, Bool, true, false, Option, none, some, List, [], ◌∷◌, if◌then◌else◌, ℤ,
  pos, sub_ℕ, ltb_ℤ, leb_ℤ, eqb_ℤ,
}

pub data State : Type 0 where
  closed open_circuit half_open : State

abbrev pub State-string : State → String
State-string closed = "closed"
State-string open_circuit = "open"
State-string half_open = "half-open"

abbrev pub same_state : State → State → Bool
same_state closed closed = true
same_state open_circuit open_circuit = true
same_state half_open half_open = true
same_state _ _ = false

pub record Config : Type 0 where
  pub name : String
  pub max_failures : ℤ
  pub timeout : ℤ
  pub max_requests : ℤ
  -- Whether `OnStateChange` is set.
  pub has_callback : Bool

pub record Metrics : Type 0 where
  pub gauge : State
  pub rejected : ℕ
  pub failed : ℕ
  pub success : ℕ
  pub failures_total : ℕ
  -- The label pairs of `circuitBreakerStateChanges`, the latest first.
  pub changes : List (State × State)
  -- The calls of `OnStateChange`, the latest first.
  pub notified : List (State × State)

pub record CircuitBreaker : Type 0 where
  pub config : Config
  pub open config use *
  pub state : State
  pub failures : ℕ
  pub requests : ℕ
  pub last_failure_time : ℕ
  pub metrics : Metrics

-- The defaults that `NewCircuitBreaker` fills in.
unfoldable pub with_defaults : Config → Config
with_defaults c = record {
  name = if c.name == "" then "default" else c.name;
  max_failures = if eqb_ℤ c.max_failures (pos 0) then pos 5 else c.max_failures;
  timeout = if eqb_ℤ c.timeout (pos 0) then pos 60_000_000_000 else c.timeout;
  max_requests = if eqb_ℤ c.max_requests (pos 0) then pos 1 else c.max_requests;
  has_callback = c.has_callback;
}

unfoldable pub new_circuit_breaker : Config → CircuitBreaker
unfolding with_defaults
new_circuit_breaker c = record {
  config = with_defaults c;
  state = closed;
  failures = 0;
  requests = 0;
  last_failure_time = 0;
  metrics = record {
    gauge = closed;
    rejected = 0;
    failed = 0;
    success = 0;
    failures_total = 0;
    changes = [];
    notified = [];
  };
}

unfoldable pub set_state : CircuitBreaker → State → CircuitBreaker
set_state cb new = if same_state cb.state new then cb else record cb {
  state = new;
  metrics = record m {
    gauge = new;
    changes = (cb.state, new) ∷ m.changes;
    notified = if cb.has_callback then (cb.state, new) ∷ m.notified else m.notified;
  };
}
  where
    m : Metrics
    m = cb.metrics

pub data CallError : Type 0 where
  circuit_breaker_open too_many_requests : CallError
  from_fn : String → CallError

-- The switch of `beforeRequest`, on the state that it finds.
before_in : State → CircuitBreaker → ℕ → CircuitBreaker × Option CallError
unfolding set_state
before_in closed cb now = (cb, none)
before_in open_circuit cb now =
    if ltb_ℤ cb.timeout (sub_ℕ now cb.last_failure_time)
    then (record (set_state cb half_open) { requests = 0 }, none)
    else (cb, some circuit_breaker_open)
before_in half_open cb now =
    if leb_ℤ cb.max_requests (pos cb.requests)
    then (cb, some too_many_requests)
    else (record cb { requests = cb.requests + 1 }, none)

unfoldable pub before_request : CircuitBreaker → ℕ → CircuitBreaker × Option CallError
unfolding before_in
before_request cb now = before_in cb.state cb now

-- The switch of `onFailure`, after the counters are updated.
failure_in : State → CircuitBreaker → CircuitBreaker
unfolding set_state
failure_in closed cb =
    if leb_ℤ cb.max_failures (pos cb.failures) then set_state cb open_circuit else cb
failure_in half_open cb = set_state cb open_circuit
failure_in open_circuit cb = cb

unfoldable pub on_failure : CircuitBreaker → ℕ → CircuitBreaker
unfolding failure_in
on_failure cb now = failure_in cb.state (record cb {
  failures = cb.failures + 1;
  last_failure_time = now;
  metrics = record m { failures_total = m.failures_total + 1 };
})
  where
    m : Metrics
    m = cb.metrics

success_in : State → CircuitBreaker → CircuitBreaker
unfolding set_state
success_in closed cb = record cb { failures = 0 }
success_in half_open cb = record (set_state cb closed) { failures = 0; requests = 0 }
success_in open_circuit cb = cb

unfoldable pub on_success : CircuitBreaker → CircuitBreaker
unfolding success_in
on_success cb = success_in cb.state cb

unfoldable pub after_request : CircuitBreaker → Option String → ℕ → CircuitBreaker
unfolding on_failure on_success
after_request cb (some e) now = on_failure cb now
after_request cb none now = on_success cb

-- What the function handed to `Call` does: return an error or nil, or panic.
pub data Outcome : Type 0 where
  returns : Option String → Outcome
  panics : Outcome

pub data CallResult : Type 0 where
  returned : Option CallError → CallResult
  panicked : CallResult

-- The last counter of `Call`, and its return value.
count_result : CircuitBreaker → Option String → CircuitBreaker × CallResult
count_result cb (some e) =
    (record cb { metrics = record m { failed = m.failed + 1 } }, returned (some (from_fn e)))
  where
    m : Metrics
    m = cb.metrics
count_result cb none = (record cb { metrics = record m { success = m.success + 1 } }, returned none)
  where
    m : Metrics
    m = cb.metrics

-- The rest of `Call`: a panic of `fn` leaves through the deferred unlock, with no `afterRequest`.
execute : CircuitBreaker → Outcome → ℕ → CircuitBreaker × CallResult
unfolding after_request count_result
execute cb panics now = (cb, panicked)
execute cb (returns e) now = count_result (after_request cb e now) e

admitted : CircuitBreaker × Option CallError → Outcome → ℕ → CircuitBreaker × CallResult
unfolding execute
admitted (cb, some e) f now =
    (record cb { metrics = record m { rejected = m.rejected + 1 } }, returned (some e))
  where
    m : Metrics
    m = cb.metrics
admitted (cb, none) f now = execute cb f now

-- `Call`, which holds the mutex throughout: the clock reads `now` on entry and `done` after `fn`.
unfoldable pub call : CircuitBreaker → Outcome → (now done : ℕ) → CircuitBreaker × CallResult
unfolding before_request admitted
call cb f now done = admitted (before_request cb now) f done

unfoldable pub reset : CircuitBreaker → CircuitBreaker
unfolding set_state
reset cb = record (set_state cb closed) { failures = 0; requests = 0 }

abbrev pub get_state : CircuitBreaker → State
get_state cb = cb.state

abbrev pub get_failures : CircuitBreaker → ℕ
get_failures cb = cb.failures

-- One use of a breaker: a call that runs from `now` to `done`, or a reset.
pub data Use : Type 0 where
  call_at : Outcome → (now done : ℕ) → Use
  reset_now : Use

unfoldable pub step : CircuitBreaker → Use → CircuitBreaker
step cb (call_at f now done) = (call cb f now done).0
step cb reset_now = reset cb

-- The mutex puts the uses in an order.
unfoldable pub run : CircuitBreaker → List Use → CircuitBreaker
run cb [] = cb
run cb (u ∷ us) = run (step cb u) us
