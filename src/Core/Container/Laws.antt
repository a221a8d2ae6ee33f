-- ===== src/Core/Container/Laws.antt =====
-- A service is built once, until its interface is registered anew or the container is reset.
use quant_stack.Prelude.{◌↔◌, Option-cases, inl, inr, String, ◌≡◌, none, arith}
use quant_stack.Prelude.Dict.{lookup, lookup-insert_self, lookup-remove_self}
use quant_stack.Core.Container.{Container, instance_, no_factory, register, resolve}

module _ {F A W : Type 0} (build : F → W → A × W) where
  -- A resolve that succeeded is repeated, at any later state of the program, without building: it
  -- gives the same service and changes nothing.
  pub resolve_again :
      (i : String) (c : Container F A) (w w' : W) {a : A}
      → (resolve build i c w).0 ≡ instance_ a
      → let c' = (resolve build i c w).1 in resolve build i c' w' ≡ (instance_ a, c', w')
  unfolding resolve
  resolve_again i c w w' {a} e = elim (Option-cases (lookup i c.instances)) [
    | inl fresh ↦ ground (arith, lookup-insert_self i a c.instances)
    | inr (a', kept) ↦ ground arith
  ]

  -- After an interface is registered, whether or not a service of an older factory exists, the next
  -- resolve builds one with the new factory, once.
  pub resolve-register :
      (i : String) (f : F) (c : Container F A) (w : W)
      → let r = resolve build i (register i f c) w in
        (r.0 ≡ instance_ (build f w).0) × (r.2 ≡ (build f w).1)
  unfolding resolve register
  resolve-register i f c w =
      ground (arith, lookup-remove_self i c.instances, lookup-insert_self i f c.factories)

  -- A resolve fails exactly when the interface has neither a service nor a factory, and then it
  -- changes nothing.
  pub resolve-no_factory :
      (i : String) (c : Container F A) (w : W)
      → ((resolve build i c w).0 ≡ no_factory i)
        ↔ ((lookup i c.instances ≡ none) × (lookup i c.factories ≡ none))
  unfolding resolve
  resolve-no_factory i c w = ground arith
