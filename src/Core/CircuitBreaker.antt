-- ===== src/Core/CircuitBreaker.antt =====
-- backend/app/core/circuit_breaker.py: the breaker of one dependency. `time.monotonic()` is the
-- argument `now`, in clock ticks; a method that mutates the breaker returns the new record.
pub mod Invariant
pub mod Window
pub mod Threshold
mod Tests
use quant_stack.Prelude.{
  ℕ, ◌+◌, String, Bool, true, false, ◌&&◌, Option, none, some, leb, if◌then◌else◌, List, [], ◌∷◌,
}

pub data CircuitState : Type 0 where
  closed open_ half_open : CircuitState

pub record CircuitBreaker : Type 0 where
  pub name : String
  pub failure_threshold : ℕ
  pub recovery_timeout : ℕ
  pub half_open_max_calls : ℕ
  pub state : CircuitState
  pub consecutive_failures : ℕ
  pub opened_at : Option ℕ
  pub total_opens : ℕ
  pub last_error : Option String
  pub half_open_calls : ℕ

-- The dataclass constructor: the fields with `init=False` take their defaults.
unfoldable pub new : String → ℕ → ℕ → ℕ → CircuitBreaker
new name threshold timeout max_calls = record {
  name = name;
  failure_threshold = threshold;
  recovery_timeout = timeout;
  half_open_max_calls = max_calls;
  state = closed;
  consecutive_failures = 0;
  opened_at = none;
  total_opens = 0;
  last_error = none;
  half_open_calls = 0;
}

-- `opened_at is not None and now - opened_at >= recovery_timeout`
unfoldable pub timed_out : ℕ → CircuitBreaker → Bool
timed_out now b = elim b.opened_at [ none ↦ false | some t ↦ leb (t + b.recovery_timeout) now ]

-- The last statements of `allow_request`: a bounded number of probe calls.
unfoldable pub probe : CircuitBreaker → CircuitBreaker × Bool
probe b =
    if leb b.half_open_max_calls b.half_open_calls
    then (b, false)
    else (record b { half_open_calls = b.half_open_calls + 1 }, true)

unfoldable pub allow_request : ℕ → CircuitBreaker → CircuitBreaker × Bool
unfolding timed_out probe
allow_request now b = elim b.state [
  | closed ↦ (b, true)
  | open_ ↦
      if timed_out now b
      then probe (record b { state = half_open; half_open_calls = 0 })
      else (b, false)
  | half_open ↦ probe b
]

abbrev pub is_closed : CircuitState → Bool
is_closed closed = true
is_closed _ = false

unfoldable pub record_success : CircuitBreaker → CircuitBreaker × Bool
record_success b = (
  record b { state = closed; consecutive_failures = 0; opened_at = none; half_open_calls = 0 },
  if is_closed b.state then false else true,
)

-- `_open`
unfoldable pub trip : ℕ → CircuitBreaker → CircuitBreaker
trip now b = record b { state = open_; opened_at = some now; total_opens = b.total_opens + 1 }

-- The part of `record_failure` behind the half-open test: count, and trip at the threshold.
unfoldable pub count_failure : ℕ → CircuitBreaker → CircuitBreaker × Bool
unfolding trip
count_failure now b =
    let b' = record b { consecutive_failures = b.consecutive_failures + 1 } in
    if leb b'.failure_threshold b'.consecutive_failures && is_closed b'.state
    then (trip now b', true)
    else (b', false)

unfoldable pub record_failure : ℕ → Option String → CircuitBreaker → CircuitBreaker × Bool
unfolding trip count_failure
record_failure now error b =
    let b' = record b { last_error = error } in
    elim b.state [
      | half_open ↦ (trip now b', true)
      | closed ↦ count_failure now b'
      | open_ ↦ count_failure now b'
    ]

-- The calls that a client makes, each at a time of the monotonic clock.
pub data Call : Type 0 where
  request : ℕ → Call
  success : Call
  failure : ℕ → Option String → Call

unfoldable pub step : CircuitBreaker → Call → CircuitBreaker × Bool
unfolding allow_request record_success record_failure
step b (request now) = allow_request now b
step b success = record_success b
step b (failure now e) = record_failure now e b

-- A history of calls: the breaker that it leaves.
unfoldable pub run : CircuitBreaker → List Call → CircuitBreaker
run b [] = b
run b (c ∷ cs) = run (step b c).0 cs
