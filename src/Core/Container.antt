-- ===== src/Core/Container.antt =====
-- `Container` of backend/app/core/container.py. Interfaces are named by a text; what a factory does
-- is the argument `build`: it reads and changes the rest of the program, `W`, and returns a service.
pub mod Laws
mod Tests
use quant_stack.Prelude.{String, Option, none, some, [], List}
use quant_stack.Prelude.Dict.{Dict, lookup, insert, remove}

pub data Resolved {ℓ} (A : Type ℓ) : Type ℓ where
  instance_ : A → Resolved A
  no_factory : String → Resolved A

-- `F` are the factories and `A` the services.
pub record Container {ℓ} (F A : Type ℓ) : Type ℓ where
  pub factories : Dict F
  pub instances : Dict A

module _ {ℓ} {F A : Type ℓ} where
  unfoldable pub empty : Container F A
  empty = record { factories = []; instances = [] }

  unfoldable pub register : String → F → Container F A → Container F A
  register interface factory c = record {
    factories = insert interface factory c.factories;
    instances = remove interface c.instances;
  }

  unfoldable pub reset : Container F A → Container F A
  reset c = record c { instances = [] }

module _ {ℓ} {F A W : Type ℓ} (build : F → W → A × W) where
  -- The result, the container and the rest of the program after `resolve`.
  unfoldable pub resolve : String → Container F A → W → Resolved A × Container F A × W
  resolve interface c w = elim (lookup interface c.instances) [
    | some a ↦ (instance_ a, c, w)
    | none ↦ elim (lookup interface c.factories) [
      | none ↦ (no_factory interface, c, w)
      | some f ↦
          let (a, w') = build f w in
          (instance_ a, record c { instances = insert interface a c.instances }, w')
    ]
  ]
