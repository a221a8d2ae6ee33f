-- ===== src/Collectors/Registry/Tests.antt =====
-- The registry with three collectors, the first of which depends on the others.
use quant_stack.Prelude.{ℕ, ◌≡◌, ◌≢◌, refl, String, true, List, [], ◌∷◌, map, All, arith, eq_iff}
use quant_stack.Prelude.Dict.{lookup}
use quant_stack.Collectors.Registry.{
  Collector, Registry, Walk, walked, out_of_fuel, idle, mem, sorted, insert_sorted, priority_of,
  known, visit, visit_all, finish, names, resolution_order,
}
use quant_stack.Collectors.Registry.Visit.{DepsFirst, IsKeyed}
use quant_stack.Collectors.Registry.Order.{resolution_order_lem}
use quant_stack.Collectors.Registry.Depth.{resolution_order_ends}

abbrev collector : String → ℕ → List String → Collector
collector n p ds = record { name = n; priority = p; depends_on = ds; enabled = true; status = idle }

abbrev breadth : Collector
breadth = collector "breadth" 10 ("market" ∷ "ghost" ∷ [])

abbrev market : Collector
market = collector "market" 20 []

abbrev small : Registry
small = record { collectors = ("breadth", breadth) ∷ ("market", market) ∷ []; disabled_names = [] }

small-IsKeyed : IsKeyed small.collectors
unfolding lookup
small-IsKeyed k c e = ground (arith, eq_iff "breadth" k, eq_iff "market" k)

abbrev walk : Walk
walk = record {
  visiting = "market" ∷ "breadth" ∷ [];
  done = "breadth" ∷ "market" ∷ [];
  ordered = market ∷ breadth ∷ [];
}

market_first : resolution_order small ≡ walked walk
unfolding resolution_order visit visit_all sorted insert_sorted priority_of known lookup finish
market_first = refl

resolution_order_lem_example :
    (map (λ c. c.name) walk.ordered ≡ "market" ∷ "breadth" ∷ [])
    × DepsFirst small.collectors walk.done
    × All (λ n. mem n walk.done ≡ true) (sorted small.collectors (names small.collectors))
resolution_order_lem_example = resolution_order_lem small walk small-IsKeyed market_first

resolution_order_ends_example : resolution_order small ≢ out_of_fuel
resolution_order_ends_example = resolution_order_ends small small-IsKeyed
