-- ===== src/Core/CircuitBreaker/Tests.antt =====
-- The breaker at concrete inputs.
use quant_stack.Prelude.{◌≡◌, refl, some, List, [], ◌∷◌, arith}
use quant_stack.Core.CircuitBreaker.{
  CircuitBreaker, open_, half_open, Call, failure, new, step, run,
}
use quant_stack.Core.CircuitBreaker.Invariant.{IsConsistent, new-IsConsistent, run-IsConsistent}
use quant_stack.Core.CircuitBreaker.Window.{ask, from_deadline, ask-open_exact}

abbrev fresh : CircuitBreaker
unfolding new
fresh = new "collector.vix" 3 60 1

-- Opened at time 7, by the third failure.
abbrev down : CircuitBreaker
down = record {
  name = "collector.vix";
  failure_threshold = 3;
  recovery_timeout = 60;
  half_open_max_calls = 1;
  state = open_;
  consecutive_failures = 3;
  opened_at = some 7;
  total_opens = 1;
  last_error = some "timeout";
  half_open_calls = 0;
}

abbrev history : List Call
history = failure 5 (some "timeout") ∷ failure 6 (some "timeout") ∷ failure 7 (some "timeout") ∷ []

trips : run (new "collector.vix" 3 60 1) history ≡ down
unfolding run step new
trips = refl

run-IsConsistent_example : IsConsistent (run (new "collector.vix" 3 60 1) history)
run-IsConsistent_example =
    run-IsConsistent (new "collector.vix" 3 60 1) history
      (new-IsConsistent "collector.vix" 3 60 1 (omega arith))

ask-open_exact_example : (ask down (10 ∷ 66 ∷ 67 ∷ 68 ∷ [])).1 ≡ 1
unfolding from_deadline
ask-open_exact_example = ask-open_exact down 7 (10 ∷ 66 ∷ 67 ∷ 68 ∷ []) refl refl

abbrev probing : CircuitBreaker
probing = record down { state = half_open; half_open_calls = 1 }
