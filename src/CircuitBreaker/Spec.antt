-- ===== src/CircuitBreaker/Spec.antt =====
-- pkg/circuitbreaker/circuitbreaker.go: a contract with two states, healthy and tripped, and the
-- breaker against it.
use mcp_operator.Prelude.{
  ℕ, ◌+◌, String, ◌≡◌, refl, ◌∙◌, ◌≢◌, Option, none, some, List, [], ◌∷◌, arith, if◌then◌else◌, pos,
  sub_ℕ, ltb_ℤ, leb_ℤ,
}
use mcp_operator.CircuitBreaker.{
  State, closed, open_circuit, half_open, Config, CircuitBreaker, new_circuit_breaker,
  circuit_breaker_open, too_many_requests, from_fn, Outcome, returns, CallResult, returned,
  panicked, call, Use, call_at, step, run,
}

-- A breaker that is closed, with its consecutive failures, or open since an instant.
pub data View : Type 0 where
  healthy : ℕ → View
  tripped : ℕ → View
  probing : View

abbrev pub view_of : State → CircuitBreaker → View
view_of closed cb = healthy cb.failures
view_of open_circuit cb = tripped cb.last_failure_time
view_of half_open cb = probing

abbrev pub view : CircuitBreaker → View
view cb = view_of cb.state cb

-- What a call that ran `fn` to an error or to success makes of the view.
abbrev pub after_fn : Config → ℕ → Option String → ℕ → View
after_fn c n none done = healthy 0
after_fn c n (some e) done =
    if leb_ℤ c.max_failures (pos (n + 1)) then tripped done else healthy (n + 1)

abbrev pub probe_fn : Option String → ℕ → View
probe_fn none done = healthy 0
probe_fn (some e) done = tripped done

abbrev pub answer : Option String → CallResult
answer none = returned none
answer (some e) = returned (some (from_fn e))

-- The contract of `Call` for a function that returns `e`.
unfoldable pub spec_call : Config → View → Option String → (now done : ℕ) → View × CallResult
spec_call c (healthy n) e now done = (after_fn c n e done, answer e)
spec_call c (tripped t) e now done =
    if ltb_ℤ c.timeout (sub_ℕ now t)
    then (probe_fn e done, answer e)
    else (tripped t, returned (some circuit_breaker_open))
spec_call c probing e now done = (probing, panicked)

-- `Call` implements the contract: from a breaker that is not half-open, and for a function that
-- returns, its result and the view of the state that it leaves are those of `spec_call`.
pub call-spec_call :
    (cb : CircuitBreaker) (e : Option String) (now done : ℕ)
    → cb.state ≢ half_open
    → let (after, result) = call cb (returns e) now done in
      (view after, result) ≡ spec_call cb.config (view cb) e now done
unfolding call spec_call
call-spec_call cb e now done h = ground arith

-- One call of a history: what the function returns, and the clock around it.
pub record Attempt : Type 0 where
  pub result : Option String
  pub now : ℕ
  pub done : ℕ

abbrev pub calls : List Attempt → List Use
calls [] = []
calls (a ∷ hist) = call_at (returns a.result) a.now a.done ∷ calls hist

-- The contract along a history.
unfoldable pub spec_run : Config → View → List Attempt → View
spec_run c v [] = v
spec_run c v (a ∷ hist) = spec_run c (spec_call c v a.result a.now a.done).0 hist

step-view :
    (cb : CircuitBreaker) (e : Option String) (now done : ℕ)
    → cb.state ≢ half_open
    → (view (step cb (call_at (returns e) now done)) ≡ (spec_call cb.config (view cb) e now done).0)
      × ((step cb (call_at (returns e) now done)).state ≢ half_open)
      × ((step cb (call_at (returns e) now done)).config ≡ cb.config)
unfolding step call spec_call
step-view cb e now done h = ground arith

-- A history of calls whose functions return, from a breaker that is not half-open, ends in the
-- state that the contract gives, which is not half-open either.
pub view-run :
    (cb : CircuitBreaker) (hist : List Attempt)
    → cb.state ≢ half_open
    → (view (run cb (calls hist)) ≡ spec_run cb.config (view cb) hist)
      × ((run cb (calls hist)).state ≢ half_open)
unfolding run spec_run
view-run cb [] h = (refl, h)
view-run cb (a ∷ hist) h =
    let (same, out, kept) = step-view cb a.result a.now a.done h in
    let (v, o) = view-run (step cb (call_at (returns a.result) a.now a.done)) hist out in
    (v ∙ (λ i. spec_run (kept i) (same i) hist), o)

refused_in_half_open :
    (cb : CircuitBreaker) (f : Outcome) (now done : ℕ)
    → cb.state ≢ half_open
    → (call cb f now done).1 ≢ returned (some too_many_requests)
unfolding call
refused_in_half_open cb f now done h = grind arith

new-ne-half_open : (c : Config) → (new_circuit_breaker c).state ≢ half_open
unfolding new_circuit_breaker
new-ne-half_open c = grind arith

-- After a history of calls whose functions return, on a new breaker, no call is refused with
-- `ErrTooManyRequests`, whatever its function does.
pub call-ne-too_many_requests :
    (c : Config) (hist : List Attempt) (f : Outcome) (now done : ℕ)
    → (call (run (new_circuit_breaker c) (calls hist)) f now done).1
      ≢ returned (some too_many_requests)
call-ne-too_many_requests c hist f now done =
    refused_in_half_open (run (new_circuit_breaker c) (calls hist)) f now done
      (view-run (new_circuit_breaker c) hist (new-ne-half_open c)).1
