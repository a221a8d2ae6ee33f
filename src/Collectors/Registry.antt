-- ===== src/Collectors/Registry.antt =====
-- backend/app/collectors/registry.py: registration, dependencies and the order in which the
-- collectors are scheduled. Of a collector it uses the name, the priority and the names that it
-- depends on; `enabled` and `status` are the two fields of its health that the registry writes.
mod Tests
pub mod Visit
pub mod Order
pub mod Depth
pub mod Switch
use quant_stack.Prelude.{
  ℕ, zero, suc, ◌+◌, ◌≤◌, ◌≡◌, String, Bool, true, false, not, ◌&&◌, Option, none, some, List, [],
  ◌∷◌, ◌++◌, map, leb, ltb, ◌==◌, str_eq, if◌then◌else◌, is_none, length, filterb, anyb,
}
use quant_stack.Prelude.Dict.{Dict, lookup, insert}

pub data Status : Type 0 where
  idle ok degraded failed disabled circuit_open : Status

pub record Collector : Type 0 where
  pub name : String
  pub priority : ℕ
  pub depends_on : List String
  pub enabled : Bool
  pub status : Status

-- `_collectors` and `_disabled`.
pub record Registry : Type 0 where
  pub collectors : Dict Collector
  pub disabled_names : List String

abbrev pub mem : String → List String → Bool
mem k = anyb λ j. str_eq j k

-- `register`: a name that is there already keeps its collector.
unfoldable pub register : Collector → Registry → Registry
register c r =
    if is_none (lookup c.name r.collectors)
    then record r { collectors = insert c.name c r.collectors }
    else r

-- `validate_dependencies`: the pairs of a collector and an unknown name that it depends on.
unfoldable pub unknown_of : Registry → Collector → List String → List (String × String)
unknown_of r c [] = []
unknown_of r c (d ∷ ds) =
    if is_none (lookup d r.collectors) then (c.name, d) ∷ unknown_of r c ds else unknown_of r c ds

unfoldable pub problems_of : Registry → Dict Collector → List (String × String)
unfolding unknown_of
problems_of r [] = []
problems_of r ((n, c) ∷ cs) = unknown_of r c c.depends_on ++ problems_of r cs

unfoldable pub validate_dependencies : Registry → List (String × String)
unfolding problems_of
validate_dependencies r = problems_of r r.collectors

-- `sorted(names, key=priority)`: stable insertion by the priority of the collector.
unfoldable pub priority_of : Dict Collector → String → ℕ
priority_of by_name n = elim (lookup n by_name) [ none ↦ 0 | some c ↦ c.priority ]

unfoldable pub insert_sorted : Dict Collector → String → List String → List String
insert_sorted by_name n [] = n ∷ []
insert_sorted by_name n (m ∷ ms) =
    if leb (priority_of by_name n) (priority_of by_name m)
    then n ∷ m ∷ ms
    else m ∷ insert_sorted by_name n ms

unfoldable pub sorted : Dict Collector → List String → List String
unfolding insert_sorted priority_of
sorted by_name [] = []
sorted by_name (n ∷ ns) = insert_sorted by_name n (sorted by_name ns)

-- `(d for d in collector.depends_on if d in by_name)`
unfoldable pub known : Dict Collector → List String → List String
known by_name = filterb λ d. not (is_none (lookup d by_name))

-- What `visit` mutates: the names that are being visited, those that are done, and `ordered`.
-- `state` maps a name to 1 or 2: it is `visiting` or `done` here.
pub record Walk : Type 0 where
  pub visiting : List String
  pub done : List String
  pub ordered : List Collector

pub data Walked : Type 0 where
  walked : Walk → Walked
  cycle : List String → Walked
  out_of_fuel : Walked

-- The loop over dependencies, where `visit` is the recursive call.
unfoldable pub visit_all :
    (String → List String → Walk → Walked) → List String → List String → Walk → Walked
visit_all visit [] chain w = walked w
visit_all visit (n ∷ ns) chain w = elim (visit n chain w) [
  | walked w' ↦ visit_all visit ns chain w'
  | cycle c ↦ cycle c
  | out_of_fuel ↦ out_of_fuel
]

-- The end of `visit`: the name is done and its collector is appended.
unfoldable pub finish : Collector → String → Walked → Walked
finish c n (walked w) = walked (record w { done = n ∷ w.done; ordered = w.ordered ++ c ∷ [] })
finish c n (cycle names) = cycle names
finish c n out_of_fuel = out_of_fuel

-- `visit`, with fuel for the depth of the recursion. The names it is called with are registered.
unfoldable pub visit : Dict Collector → ℕ → String → List String → Walk → Walked
visit by_name zero n chain w = out_of_fuel
visit by_name (suc fuel) n chain w =
    let rest = visit_all (visit by_name fuel) in
    if mem n w.done
    then walked w
    else if mem n w.visiting
    then cycle (chain ++ n ∷ [])
    else elim (lookup n by_name) [
      | none ↦ walked w
      | some c ↦ finish c n (
          rest (sorted by_name (known by_name c.depends_on)) (chain ++ n ∷ [])
            (record w { visiting = n ∷ w.visiting }))
    ]

abbrev pub names : Dict Collector → List String
names = map λ e. e.0

-- `resolution_order`: as many levels as there are collectors, and one more, are enough.
unfoldable pub resolution_order : Registry → Walked
resolution_order r =
    visit_all (visit r.collectors (suc (length r.collectors)))
      (sorted r.collectors (names r.collectors)) []
      (record { visiting = []; done = []; ordered = [] })

-- `enable` and `disable`: the name leaves or joins the disabled ones, and its collector's health says
-- so; `disable` returns the enabled collectors that depend on it.
unfoldable pub discard : String → List String → List String
discard n = filterb λ m. not (str_eq m n)

unfoldable pub mark : String → Bool → Status → Dict Collector → Dict Collector
mark n on st cs = elim (lookup n cs) [
  | none ↦ cs
  | some c ↦ insert n (record c { enabled = on; status = st }) cs
]

unfoldable pub enable : String → Registry → Registry
unfolding discard mark
enable n r = record {
  collectors = mark n true idle r.collectors;
  disabled_names = discard n r.disabled_names;
}

unfoldable pub dependents : String → List String → Dict Collector → List String
dependents n off [] = []
dependents n off ((_, c) ∷ cs) =
    if mem n c.depends_on && not (mem c.name off)
    then c.name ∷ dependents n off cs
    else dependents n off cs

unfoldable pub disable : String → Registry → Registry × List String
unfolding mark dependents
disable n r =
    let r' : Registry = record {
      collectors = mark n false disabled r.collectors;
      disabled_names = if mem n r.disabled_names then r.disabled_names else n ∷ r.disabled_names;
    } in
    (r', dependents n r'.disabled_names r'.collectors)

-- `run_collector` runs a collector that is there and not disabled.
unfoldable pub runs : String → Registry → Bool
runs n r = if is_none (lookup n r.collectors) then false else not (mem n r.disabled_names)
