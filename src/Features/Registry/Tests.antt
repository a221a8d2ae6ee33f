-- ===== src/Features/Registry/Tests.antt =====
-- The registry at concrete features.
use quant_stack.Prelude.{◌≡◌, ◌<◌, refl, String, some, List, [], ◌∷◌}
use quant_stack.Prelude.Dict.{lookup}
use quant_stack.Features.Registry.{
  FeatureDefinition, register_all, dependency_order, dependents_of, in_order, cyclic, arrows, count,
  names_of,
}
use quant_stack.Features.Registry.Downstream.{IsDownstream, dependents_of_lem}
use quant_stack.Features.Registry.Order.{
  IsOrder, registered, arrows_within, dependency_order_lem, dependency_order-cyclic,
}

abbrev feature : String → List String → FeatureDefinition
feature name deps = record { feature_name = name; category = "structure"; dependencies = deps }

abbrev features : List FeatureDefinition
features =
    feature "bias" ("trend" ∷ "bos" ∷ [])
    ∷ feature "bos" ("swing" ∷ [])
    ∷ feature "trend" ("swing" ∷ "unknown" ∷ [])
    ∷ feature "swing" []
    ∷ []

abbrev looped : List FeatureDefinition
looped = feature "a" ("b" ∷ []) ∷ feature "b" ("a" ∷ []) ∷ feature "c" [] ∷ []

orders : dependency_order (registered features) ≡ in_order ("swing" ∷ "bos" ∷ "trend" ∷ "bias" ∷ [])
unfolding dependency_order register_all lookup
orders = refl

refuses : dependency_order (registered looped) ≡ cyclic ("a" ∷ "b" ∷ [])
unfolding dependency_order register_all lookup
refuses = refl

dependency_order_lem_example : IsOrder features ("swing" ∷ "bos" ∷ "trend" ∷ "bias" ∷ [])
dependency_order_lem_example =
    dependency_order_lem features ("swing" ∷ "bos" ∷ "trend" ∷ "bias" ∷ []) orders

dependency_order-cyclic_example :
    (0 < 2)
    × ((n : String)
        → 0 < count n ("a" ∷ "b" ∷ [])
        → (0 < count n (names_of (registered looped)))
          × (0 < arrows_within n ("a" ∷ "b" ∷ []) (arrows (registered looped))))
dependency_order-cyclic_example = dependency_order-cyclic looped ("a" ∷ "b" ∷ []) refuses

downstream : dependents_of (registered features) "swing" ≡ some ("bos" ∷ "trend" ∷ "bias" ∷ [])
unfolding dependents_of register_all lookup
downstream = refl

dependents_of_lem_example :
    (0 < count "bias" ("bos" ∷ "trend" ∷ "bias" ∷ [])
      → IsDownstream (arrows (registered features)) "swing" "bias")
    × (IsDownstream (arrows (registered features)) "swing" "bias"
        → count "bias" ("bos" ∷ "trend" ∷ "bias" ∷ []) ≡ 1)
dependents_of_lem_example =
    dependents_of_lem features "swing" ("bos" ∷ "trend" ∷ "bias" ∷ []) downstream "bias"
