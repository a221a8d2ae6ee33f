-- ===== src/Features/Registry.antt =====
-- backend/app/features/registry.py: the features by name, and the order in which they are computed. Names
-- are compared by their characters, as Python does.
pub mod Counts
pub mod Progress
pub mod Keys
pub mod Order
pub mod Downstream
mod Tests
use Prim.Native.Nat.{Ordering}
use Prim.Native.String.{compare}
use quant_stack.Prelude.{
  ℕ, zero, suc, ◌+◌, ◌-◌, String, Bool, true, false, not, Option, none, some, List, [], ◌∷◌, ◌++◌,
  map, ◌==◌, str_eq, is_none, filterb, length, if◌then◌else◌,
}
use quant_stack.Prelude.Dict.{Dict, lookup, insert}

-- The fields of a definition that the registry reads.
pub record FeatureDefinition : Type 0 where
  pub feature_name : String
  pub category : String
  pub dependencies : List String

abbrev pub FeatureRegistry : Type 0
FeatureRegistry = Dict FeatureDefinition

unfoldable pub register : FeatureDefinition → FeatureRegistry → FeatureRegistry
unfolding insert
register d r = insert d.feature_name d r

-- The registry after the definitions have been registered in turn.
unfoldable pub register_all : FeatureRegistry → List FeatureDefinition → FeatureRegistry
unfolding register
register_all r [] = r
register_all r (d ∷ ds) = register_all (register d r) ds

abbrev pub str_le : String → String → Bool
str_le s t = elim (compare s t) [ Ordering.lt ↦ true | Ordering.eq ↦ true | Ordering.gt ↦ false ]

-- `sorted(names)`
unfoldable pub insert_name : String → List String → List String
insert_name n [] = n ∷ []
insert_name n (m ∷ ms) = if str_le n m then n ∷ m ∷ ms else m ∷ insert_name n ms

unfoldable pub sort_names : List String → List String
unfolding insert_name
sort_names [] = []
sort_names (n ∷ ns) = insert_name n (sort_names ns)

abbrev pub names_of : FeatureRegistry → List String
names_of r = map (λ e. e.0) r

-- The pairs of an upstream feature that is registered and a feature that depends on it, in the order in
-- which the two loops of `dependency_order` come to them.
unfoldable pub arrows_to : FeatureRegistry → String → List String → List (String × String)
arrows_to r name [] = []
arrows_to r name (upstream ∷ us) =
    if is_none (lookup upstream r)
    then arrows_to r name us
    else (upstream, name) ∷ arrows_to r name us

unfoldable pub arrows_from : FeatureRegistry → FeatureRegistry → List (String × String)
unfolding arrows_to
arrows_from r [] = []
arrows_from r ((name, d) ∷ ds) = arrows_to r name d.dependencies ++ arrows_from r ds

unfoldable pub arrows : FeatureRegistry → List (String × String)
unfolding arrows_from
arrows r = arrows_from r r

-- `in_degree[name]` after the loops.
unfoldable pub in_degree : List (String × String) → String → ℕ
in_degree [] n = 0
in_degree ((upstream, name) ∷ es) n = if str_eq name n then suc (in_degree es n) else in_degree es n

-- `dependents[upstream]` after the loops.
unfoldable pub dependents : List (String × String) → String → List String
dependents [] u = []
dependents ((upstream, name) ∷ es) u =
    if str_eq upstream u then name ∷ dependents es u else dependents es u

-- `in_degree`, `queue` and `ordered`.
pub record Kahn : Type 0 where
  pub degree : String → ℕ
  pub queue : List String
  pub ordered : List String

-- One less for a downstream feature; at 0 it is queued. Before, the degree is not 0.
unfoldable pub relax : String → Kahn → Kahn
relax d k = record {
  degree = λ n. if str_eq n d then k.degree n - 1 else k.degree n;
  queue = if k.degree d == 1 then k.queue ++ d ∷ [] else k.queue;
  ordered = k.ordered;
}

unfoldable pub relax_all : List String → Kahn → Kahn
unfolding relax
relax_all [] k = k
relax_all (d ∷ ds) k = relax_all ds (relax d k)

-- The `while` loop, within `fuel` rounds.
unfoldable pub drain : List (String × String) → ℕ → Kahn → Kahn
unfolding relax_all sort_names dependents
drain es zero k = k
drain es (suc fuel) k = elim k.queue [
  | [] ↦ k
  | n ∷ queue ↦ drain es fuel (
      relax_all (sort_names (dependents es n))
        (record k { queue = queue; ordered = k.ordered ++ n ∷ [] }))
]

unfoldable pub start_of : FeatureRegistry → Kahn
unfolding sort_names in_degree arrows
start_of r = record {
  degree = in_degree (arrows r);
  queue = sort_names (filterb (λ n. in_degree (arrows r) n == 0) (names_of r));
  ordered = [];
}

-- The loop's end; each round takes another feature, so that their number is enough fuel.
unfoldable pub drained : FeatureRegistry → Kahn
unfolding drain start_of
drained r = drain (arrows r) (length r) (start_of r)

-- How many times a name stands in a list.
abbrev pub count : String → List String → ℕ
count n [] = 0
count n (m ∷ ms) = if str_eq m n then suc (count n ms) else count n ms

-- The order, or the features of a cycle.
pub data Resolution : Type 0 where
  in_order : List String → Resolution
  cyclic : List String → Resolution

unfoldable pub dependency_order : FeatureRegistry → Resolution
unfolding drained sort_names
dependency_order r =
    let ordered = (drained r).ordered in
    if length ordered == length r
    then in_order ordered
    else cyclic (sort_names (filterb (λ n. count n ordered == 0) (names_of r)))

-- `get`
unfoldable pub get : String → FeatureRegistry → Option FeatureDefinition
unfolding lookup
get name r = lookup name r

-- `category is None or d.category == category`
abbrev pub is_wanted : Option String → FeatureDefinition → Bool
is_wanted none d = true
is_wanted (some category) d = str_eq d.category category

unfoldable pub insert_definition :
    FeatureDefinition → List FeatureDefinition → List FeatureDefinition
insert_definition d [] = d ∷ []
insert_definition d (e ∷ es) =
    if str_le d.feature_name e.feature_name then d ∷ e ∷ es else e ∷ insert_definition d es

unfoldable pub list_definitions : Option String → FeatureRegistry → List FeatureDefinition
unfolding insert_definition
list_definitions category [] = []
list_definitions category ((name, d) ∷ r) =
    let rest = list_definitions category r in
    if is_wanted category d then insert_definition d rest else rest

-- `reached` and `queue`.
pub record Reach : Type 0 where
  pub reached : List String
  pub queue : List String

-- The `for` loop over the features downstream of one.
unfoldable pub reach_all : List String → Reach → Reach
reach_all [] k = k
reach_all (d ∷ ds) k =
    if count d k.reached == 0
    then reach_all ds (record { reached = k.reached ++ d ∷ []; queue = k.queue ++ d ∷ [] })
    else reach_all ds k

-- The `while` loop, within `fuel` rounds.
unfoldable pub spread : List (String × String) → ℕ → Reach → Reach
unfolding reach_all dependents
spread es zero k = k
spread es (suc fuel) k = elim k.queue [
  | [] ↦ k
  | c ∷ queue ↦ spread es fuel (reach_all (dependents es c) (record k { queue = queue }))
]

-- Each feature is queued at most once, besides the first: one more than there are is enough fuel.
unfoldable pub reached_from : FeatureRegistry → String → List String
unfolding spread arrows
reached_from r feature =
    (spread (arrows r) (suc (length r)) (record { reached = []; queue = feature ∷ [] })).reached

-- `dependents_of`, or nothing where `dependency_order` raises.
unfoldable pub dependents_of : FeatureRegistry → String → Option (List String)
unfolding dependency_order reached_from
dependents_of r feature = elim (dependency_order r) [
  | in_order ns ↦ some (filterb (λ n. not (count n (reached_from r feature) == 0)) ns)
  | cyclic cs ↦ none
]
