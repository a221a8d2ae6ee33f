-- ===== src/Core/CircuitBreaker/Invariant.antt =====
-- What holds of a breaker between any two calls.
use quant_stack.Prelude.{ℕ, ◌≤◌, ◌<◌, ◌≡◌, String, false, none, List, [], ◌∷◌, arith, is_none}
use quant_stack.Core.CircuitBreaker.{
  CircuitBreaker, closed, is_closed, Call, request, success, failure, new, step, run,
}

-- A closed breaker is below its threshold and remembers no opening; any other knows when it opened;
-- the probes of a half-open one are within their bound.
pub record IsConsistent (b : CircuitBreaker) : Type 0 where
  pub below : b.state ≡ closed → b.consecutive_failures < b.failure_threshold
  pub forgotten : b.state ≡ closed → b.opened_at ≡ none
  pub unused : b.state ≡ closed → b.half_open_calls ≡ 0
  pub dated : is_closed b.state ≡ false → is_none b.opened_at ≡ false
  pub bounded : b.half_open_calls ≤ b.half_open_max_calls
  pub positive : 0 < b.failure_threshold

pub new-IsConsistent : (name : String) (k t m : ℕ) → 0 < k → IsConsistent (new name k t m)
unfolding new
new-IsConsistent name k t m h = ground arith

pub step-IsConsistent : (b : CircuitBreaker) (c : Call) → IsConsistent b → IsConsistent (step b c).0
unfolding step
step-IsConsistent b (request now) h = ground arith
step-IsConsistent b success h = ground arith
step-IsConsistent b (failure now e) h = ground arith

-- From a consistent breaker every history of requests, successes and failures, at any times of the
-- clock, leaves a consistent breaker.
pub run-IsConsistent :
    (b : CircuitBreaker) (cs : List Call) → IsConsistent b → IsConsistent (run b cs)
unfolding run
run-IsConsistent b [] h = h
run-IsConsistent b (c ∷ cs) h = run-IsConsistent (step b c).0 cs (step-IsConsistent b c h)
