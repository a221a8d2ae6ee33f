-- ===== src/Collectors/Registry/Order.antt =====
-- The order in which the collectors are scheduled.
use quant_stack.Prelude.{suc, ◌≡◌, refl, true, none, [], map, reverse, All, length}
use quant_stack.Prelude.Dict.{lookup}
use quant_stack.Collectors.Registry.{
  Registry, Walk, walked, mem, sorted, visit, names, resolution_order,
}
use quant_stack.Collectors.Registry.Depth.{names-AreKnown}
use quant_stack.Collectors.Registry.Visit.{DepsFirst, IsKeyed, All-sorted, visit_lem, visit_all_lem}

-- If the walk over collectors that are filed under their own names ends without a cycle, then
-- `ordered` has the names in the order in which they were done, each has all the registered
-- collectors that it depends on before it, and every registered collector is listed.
pub resolution_order_lem :
    (r : Registry) (w : Walk)
    → IsKeyed r.collectors
    → resolution_order r ≡ walked w
    → (map (λ c. c.name) w.ordered ≡ reverse w.done)
      × DepsFirst r.collectors w.done
      × All (λ n. mem n w.done ≡ true) (sorted r.collectors (names r.collectors))
unfolding resolution_order
resolution_order_lem r w keyed e =
    let post =
      visit_all_lem r.collectors (visit r.collectors (suc (length r.collectors)))
        (visit_lem r.collectors (suc (length r.collectors)) keyed)
        (sorted r.collectors (names r.collectors)) []
        (record { visiting = []; done = []; ordered = [] }) w
        (All-sorted (λ n. lookup n r.collectors ≡ none → ⊥) r.collectors (names r.collectors)
          (names-AreKnown r.collectors))
        e in
    (post.0.lined refl, post.0.sound tt, post.1)
