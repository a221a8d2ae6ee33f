-- ===== src/Core/CircuitBreaker/Window.antt =====
-- What an open breaker lets through: nothing before its timeout, then a bounded number of probes.
use quant_stack.Prelude.{
  ℕ, suc, ◌+◌, ◌-◌, ◌≤◌, ◌<◌, ◌≡◌, refl, some, List, [], ◌∷◌, arith, All, length, Bool-cases, inl,
  inr, if◌then◌else◌, leb,
}
use Prim.Native.Nat.{min}
use quant_stack.Core.CircuitBreaker.{CircuitBreaker, open_, half_open, allow_request}

-- Callers that ask, one after the other, at the given times, and report no outcome: the breaker
-- that they leave and how many of them were let through.
unfoldable pub ask : CircuitBreaker → List ℕ → CircuitBreaker × ℕ
ask b [] = (b, 0)
ask b (now ∷ ts) =
    let (b', ok) = allow_request now b in let (b'', n) = ask b' ts in (b'', if ok then suc n else n)

-- The callers left when the first one comes at or after the deadline.
unfoldable pub from_deadline : ℕ → List ℕ → List ℕ
from_deadline d [] = []
from_deadline d (now ∷ ts) = if leb d now then now ∷ ts else from_deadline d ts

-- An open breaker lets nobody through and does not change while its timeout has not elapsed,
-- whatever the number and the order of the requests.
pub ask-open :
    (b : CircuitBreaker) (t : ℕ) (ts : List ℕ)
    → b.state ≡ open_
    → b.opened_at ≡ some t
    → All (λ now. now < t + b.recovery_timeout) ts
    → ask b ts ≡ (b, 0)
unfolding ask allow_request
ask-open b t [] o d h = refl
ask-open b t (now ∷ ts) o d h = ground (arith, ask-open b t ts o d h.1)

-- A half-open breaker lets through exactly as many of the callers as it has probes left.
pub ask-half_open :
    (b : CircuitBreaker) (ts : List ℕ)
    → b.state ≡ half_open
    → b.half_open_calls ≤ b.half_open_max_calls
    → (ask b ts).1 ≡ min (length ts) (b.half_open_max_calls - b.half_open_calls)
unfolding ask allow_request
ask-half_open b [] s h = omega arith
ask-half_open b (now ∷ ts) s h = ground (
  arith,
  ask-half_open b ts,
  ask-half_open (record b { half_open_calls = b.half_open_calls + 1 }) ts,
)

-- A half-open breaker whose probes are used up refuses every later request, at any time, and stays
-- as it is: only a recorded outcome moves it.
pub ask-exhausted :
    (b : CircuitBreaker) (ts : List ℕ)
    → b.state ≡ half_open
    → b.half_open_max_calls ≤ b.half_open_calls
    → ask b ts ≡ (b, 0)
unfolding ask allow_request
ask-exhausted b [] s h = refl
ask-exhausted b (now ∷ ts) s h = ground (arith, ask-exhausted b ts)

-- The breaker that the first request past the deadline makes of an open one.
abbrev reopened : CircuitBreaker → CircuitBreaker
reopened b = record b { state = half_open; half_open_calls = 0 }

ask-late :
    (b : CircuitBreaker) (t now : ℕ) (ts : List ℕ)
    → b.state ≡ open_
    → b.opened_at ≡ some t
    → t + b.recovery_timeout ≤ now
    → ask b (now ∷ ts) ≡ ask (reopened b) (now ∷ ts)
unfolding ask allow_request
ask-late b t now ts o d h = ground arith

ask-early :
    (b : CircuitBreaker) (t now : ℕ) (ts : List ℕ)
    → b.state ≡ open_
    → b.opened_at ≡ some t
    → now < t + b.recovery_timeout
    → ask b (now ∷ ts) ≡ ask b ts
unfolding ask allow_request
ask-early b t now ts o d h = ground arith

-- Of the callers of an open breaker, who report no outcome, those before the timeout has elapsed
-- are refused. Of the others, from the first one that comes after it, as many get through as there
-- are, up to `half_open_max_calls`.
pub ask-open_exact :
    (b : CircuitBreaker) (t : ℕ) (ts : List ℕ)
    → b.state ≡ open_
    → b.opened_at ≡ some t
    → (ask b ts).1 ≡ min (length (from_deadline (t + b.recovery_timeout) ts)) b.half_open_max_calls
unfolding from_deadline
ask-open_exact b t [] o d = unfold ask in omega arith
ask-open_exact b t (now ∷ ts) o d = elim (Bool-cases (leb (t + b.recovery_timeout) now)) [
  | inl late ↦ ground (arith, ask-late b t now ts, ask-half_open (reopened b) (now ∷ ts))
  | inr early ↦ ground (arith, ask-early b t now ts, ask-open_exact b t ts)
]
