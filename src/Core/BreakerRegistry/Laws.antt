-- ===== src/Core/BreakerRegistry/Laws.antt =====
-- One breaker to a name, whoever asks for it.
use quant_stack.Prelude.{ℕ, String, ◌≡◌, ◌≢◌, Option, arith, Option-cases, inl, inr}
use quant_stack.Prelude.Dict.{lookup, insert, lookup-insert_self, lookup-insert_ne}
use quant_stack.Core.CircuitBreaker.{Call, step}
use quant_stack.Core.BreakerRegistry.{BreakerRegistry, get, create, call}

-- Whoever asks for a name again, with whatever thresholds, gets the breaker that the first one got,
-- as a call since then has left it, and the registry does not change.
pub get_again :
    (r : BreakerRegistry) (name : String) (k t k' t' : Option ℕ) (c : Call)
    → let (r', b) = get r name k t in
      let called = call r' name c in get called name k' t' ≡ (called, (step b c).0)
unfolding get call
get_again r name k t k' t' c = elim (Option-cases (lookup name r.breakers)) [
  | inl e ↦
      let b = create r name k t in
      let d = insert name b r.breakers in
      ground (arith, lookup-insert_self name b r.breakers, lookup-insert_self name (step b c).0 d)
  | inr (b, e) ↦ ground (arith, lookup-insert_self name (step b c).0 r.breakers)
]

-- Getting and calling the breaker of one name leaves the breaker of every other name alone.
pub other_names :
    (r : BreakerRegistry) (name other : String) (k t : Option ℕ) (c : Call)
    → name ≢ other
    → lookup other (call (get r name k t).0 name c).breakers ≡ lookup other r.breakers
unfolding get call
other_names r name other k t c ne = elim (Option-cases (lookup name r.breakers)) [
  | inl e ↦
      let b = create r name k t in
      let d = insert name b r.breakers in
      ground (
        arith,
        lookup-insert_self name b r.breakers,
        lookup-insert_ne name other b r.breakers ne,
        lookup-insert_ne name other (step b c).0 d ne,
      )
  | inr (b, e) ↦ ground (arith, lookup-insert_ne name other (step b c).0 r.breakers ne)
]
