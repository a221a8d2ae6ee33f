-- ===== src/Core/BreakerRegistry.antt =====
-- `CircuitBreakerRegistry` of backend/app/core/circuit_breaker.py. A caller holds the breaker that
-- the registry holds, so that its calls are written back under the breaker's name.
pub mod Laws
mod Tests
use quant_stack.Prelude.{
  ℕ, zero, suc, String, Option, none, some, List, [], ◌∷◌, map, ◌==◌, if◌then◌else◌,
}
use quant_stack.Prelude.Dict.{Dict, lookup, insert}
use quant_stack.Core.CircuitBreaker.{CircuitBreaker, CircuitState, Call, new, step}

pub record BreakerRegistry : Type 0 where
  pub failure_threshold : ℕ
  pub recovery_timeout : ℕ
  pub breakers : Dict CircuitBreaker

unfoldable pub init : ℕ → ℕ → BreakerRegistry
init k t = record { failure_threshold = k; recovery_timeout = t; breakers = [] }

-- `value or default`: Python takes the default for `None` and for 0.
abbrev pub or_default : Option ℕ → ℕ → ℕ
or_default none d = d
or_default (some n) d = if n == 0 then d else n

-- The default of `half_open_max_calls`.
abbrev pub one_probe : ℕ
one_probe = 1

unfoldable pub create : BreakerRegistry → String → Option ℕ → Option ℕ → CircuitBreaker
unfolding new
create r name k t =
    new name (or_default k r.failure_threshold) (or_default t r.recovery_timeout) one_probe

unfoldable pub get :
    BreakerRegistry → String → Option ℕ → Option ℕ → BreakerRegistry × CircuitBreaker
unfolding create
get r name k t = elim (lookup name r.breakers) [
  | some b ↦ (r, b)
  | none ↦ let b = create r name k t in (record r { breakers = insert name b r.breakers }, b)
]

-- A call on the breaker that is registered under the name.
unfoldable pub call : BreakerRegistry → String → Call → BreakerRegistry
unfolding step
call r name c = elim (lookup name r.breakers) [
  | some b ↦ record r { breakers = insert name (step b c).0 r.breakers }
  | none ↦ r
]

-- The entries of `CircuitBreaker.to_dict`.
pub record Snapshot : Type 0 where
  pub name : String
  pub state : CircuitState
  pub consecutive_failures : ℕ
  pub total_opens : ℕ
  pub last_error : Option String
  pub failure_threshold : ℕ
  pub recovery_timeout : ℕ

unfoldable pub to_dict : CircuitBreaker → Snapshot
to_dict b = record {
  name = b.name;
  state = b.state;
  consecutive_failures = b.consecutive_failures;
  total_opens = b.total_opens;
  last_error = b.last_error;
  failure_threshold = b.failure_threshold;
  recovery_timeout = b.recovery_timeout;
}

unfoldable pub snapshot : BreakerRegistry → List Snapshot
unfolding to_dict
snapshot r = map (λ e. to_dict e.1) r.breakers
