-- ===== src/Features/Registry/Order.antt =====
-- What `dependency_order` answers.
use quant_stack.Prelude.{
  ℕ, suc, ◌+◌, ◌≤◌, ◌<◌, ◌≡◌, refl, subst, ap, ◌∙◌, String, List, [], ◌∷◌, arith, str_eq, eq_iff,
  eq_refl, filterb, ◌==◌, length, length-map, if◌then◌else◌, Bool-cases, inl, inr, All-map,
}
use quant_stack.Features.Registry.{
  FeatureDefinition, FeatureRegistry, register_all, names_of, arrows, sort_names, start_of, drained,
  insert_name, count, in_order, cyclic, dependency_order,
}
use quant_stack.Features.Registry.Counts.{count-sort_names, count-filterb, pending, unplaced}
use quant_stack.Features.Registry.Progress.{Ready, IsKept, drain_lem}
use quant_stack.Features.Registry.Keys.{
  IsDict, AreBetween, register_all-IsDict, arrows-AreBetween, start-IsKept,
}

pub unplaced_nil : (ms : List String) → unplaced [] ms ≡ length ms
unplaced_nil [] = refl
unplaced_nil (m ∷ ms) = ap suc (unplaced_nil ms)

unplaced_absent :
    (n : String) (done ms : List String)
    → count n ms ≡ 0
    → unplaced (n ∷ done) ms ≡ unplaced done ms
unplaced_absent n done [] h = refl
unplaced_absent n done (m ∷ ms) h =
    let rest = unplaced_absent n done ms in ground (arith, h, rest, eq_iff m n, eq_iff n m)

unplaced_once :
    (n : String) (done ms : List String)
    → count n done ≡ 0
    → count n ms ≡ 1
    → suc (unplaced (n ∷ done) ms) ≡ unplaced done ms
unplaced_once n done [] f h = absurd (omega (arith, h))
unplaced_once n done (m ∷ ms) f h =
    let rest = unplaced_once n done ms f in
    let absent = unplaced_absent n done ms in
    ground (arith, f, h, rest, absent, eq_iff m n, eq_iff n m)

-- Of distinct names, those that are placed and those that are not make all.
unplaced_lem :
    (done ms : List String)
    → ((n : String) → count n done ≤ 1)
    → ((n : String) → 0 < count n done → count n ms ≡ 1)
    → unplaced done ms + length done ≡ length ms
unplaced_lem [] ms s q = omega (arith, unplaced_nil ms)
unplaced_lem (n ∷ done) ms s q =
    let rest = unplaced_lem done ms (λ m. ground (arith, s m)) (λ m h. ground (arith, h, q m)) in
    let fresh : count n done ≡ 0 = ground (arith, s n, eq_refl n) in
    let once : count n ms ≡ 1 = ground (arith, q n, eq_refl n) in
    omega (arith, rest, unplaced_once n done ms fresh once)

all_placed :
    (n : String) (done ms : List String) → unplaced done ms ≡ 0 → 0 < count n ms → 0 < count n done
all_placed n done [] z h = absurd (omega (arith, h))
all_placed n done (m ∷ ms) z h =
    let rest = all_placed n done ms in ground (arith, z, h, rest, eq_iff m n)

-- How many arrows go into a name from names of the list.
abbrev pub arrows_within : String → List String → List (String × String) → ℕ
arrows_within n cs [] = 0
arrows_within n cs ((upstream, name) ∷ es) =
    if str_eq name n
    then (if count upstream cs == 0 then arrows_within n cs es else suc (arrows_within n cs es))
    else arrows_within n cs es

pending-within :
    (n : String) (done cs names : List String) (es : List (String × String))
    → AreBetween names es
    → ((u : String) → 0 < count u names → count u done ≡ 0 → 0 < count u cs)
    → pending n done es ≤ arrows_within n cs es
pending-within n done cs names [] b h = omega arith
pending-within n done cs names ((u, m) ∷ es) b h =
    let rest = pending-within n done cs names es b.1 h in
    let open_one = h u b.0.0 in ground (arith, rest, open_one)

length-insert_name : (n : String) (ms : List String) → length (insert_name n ms) ≡ suc (length ms)
unfolding insert_name
length-insert_name n [] = refl
length-insert_name n (m ∷ ms) = let rest = length-insert_name n ms in ground (arith, rest)

length-sort_names : (ms : List String) → length (sort_names ms) ≡ length ms
unfolding sort_names
length-sort_names [] = refl
length-sort_names (m ∷ ms) = length-insert_name m (sort_names ms) ∙ ap suc (length-sort_names ms)

length-filterb :
    (done ms : List String) → length (filterb (λ n. count n done == 0) ms) ≡ unplaced done ms
length-filterb done [] = refl
length-filterb done (m ∷ ms) = let rest = length-filterb done ms in ground (arith, rest)

module _ (ds : List FeatureDefinition) where
  abbrev pub registered : FeatureRegistry
  registered = register_all [] ds

  pub distinct : IsDict registered
  distinct = register_all-IsDict [] ds (λ n. omega arith)

  drained-IsKept :
      IsKept (arrows registered) (names_of registered) [] (drained registered)
      × ((drained registered).queue ≡ [])
  unfolding drained
  drained-IsKept =
      drain_lem (arrows registered) (names_of registered)
        (All-map (arrows registered) (λ e h. h.1) (arrows-AreBetween registered))
        (length registered) (start_of registered) (start-IsKept registered distinct)
        (omega (
          arith,
          unplaced_nil (names_of registered),
          length-map (λ (e : String × FeatureDefinition). e.0) registered,
        ))

  -- What holds of an order of the registered features.
  pub record IsOrder (ns : List String) : Type 0 where
    pub once : (n : String) → count n ns ≡ count n (names_of registered)
    pub upstream_first : Ready (arrows registered) (names_of registered) [] ns

  placed :
      unplaced (drained registered).ordered (names_of registered)
        + length (drained registered).ordered
      ≡ length registered
  placed =
      let k = drained registered in
      let h = drained-IsKept.0 in
      unplaced_lem k.ordered (names_of registered) (λ n. omega (arith, h.single n))
        (λ n p. omega (arith, p, h.named n, distinct n))
      ∙ length-map (λ (e : String × FeatureDefinition). e.0) registered

  drained-IsOrder :
      length (drained registered).ordered ≡ length registered → IsOrder (drained registered).ordered
  drained-IsOrder e =
      let k = drained registered in
      let h = drained-IsKept.0 in
      let all : unplaced k.ordered (names_of registered) ≡ 0 = omega (arith, e, placed) in
      record {
        once = λ n. ground (
          arith,
          h.single n,
          h.named n,
          distinct n,
          all_placed n k.ordered (names_of registered) all,
        );
        upstream_first = h.ready;
      }

  -- If `dependency_order` gives an order, then every registered feature stands in it, once, and nothing else,
  -- and each stands behind every registered feature that it depends on.
  pub dependency_order_lem :
      (ns : List String) → dependency_order registered ≡ in_order ns → IsOrder ns
  unfolding dependency_order
  dependency_order_lem ns e =
      elim (Bool-cases (length (drained registered).ordered == length registered)) [
        | inl p ↦
            let q : (drained registered).ordered ≡ ns = ground (arith, p, e) in
            subst IsOrder q (drained-IsOrder (ground (arith, p)))
        | inr p ↦ absurd (ground (arith, p, e))
      ]

  -- The names of a refusal.
  abbrev stuck : List String
  stuck =
      sort_names (filterb (λ n. count n (drained registered).ordered == 0) (names_of registered))

  count-stuck :
      (n : String)
      → count n stuck
        ≡ (if count n (drained registered).ordered == 0 then count n (names_of registered) else 0)
  count-stuck n =
      let test = λ (m : String). count m (drained registered).ordered == 0 in
      count-sort_names n (filterb test (names_of registered))
      ∙ count-filterb n test (names_of registered)

  stuck-depends : (n : String) → 0 < count n stuck → 0 < arrows_within n stuck (arrows registered)
  stuck-depends n p =
      let k = drained registered in
      let h = drained-IsKept.0 in
      let idle : count n k.queue ≡ 0 = ap (count n) drained-IsKept.1 in
      let waits : 0 < pending n k.ordered (arrows registered) =
        ground (arith, p, count-stuck n, idle, h.offered n, h.counted n) in
      let within =
        pending-within n k.ordered stuck (names_of registered) (arrows registered)
          (arrows-AreBetween registered) (λ u a b. ground (arith, a, b, count-stuck u)) in
      omega (arith, waits, within)

  -- If `dependency_order` refuses, the features that it names are registered, there is at least one, and each of
  -- them depends on one of them: there is a cycle among them.
  pub dependency_order-cyclic :
      (cs : List String)
      → dependency_order registered ≡ cyclic cs
      → (0 < length cs)
        × ((n : String)
            → 0 < count n cs
            → (0 < count n (names_of registered)) × (0 < arrows_within n cs (arrows registered)))
  unfolding dependency_order
  dependency_order-cyclic cs e =
      elim (Bool-cases (length (drained registered).ordered == length registered)) [
        | inl p ↦ absurd (ground (arith, p, e))
        | inr p ↦
            let q : stuck ≡ cs = ground (arith, p, e) in
            let k = drained registered in
            let some_left : 0 < length stuck = ground (
              arith,
              p,
              placed,
              length-sort_names (filterb (λ n. count n k.ordered == 0) (names_of registered)),
              length-filterb k.ordered (names_of registered),
            ) in
            subst
              (λ l.
                (0 < length l)
                × ((n : String)
                    → 0 < count n l
                    → (0 < count n (names_of registered))
                      × (0 < arrows_within n l (arrows registered))))
              q (some_left, λ n h. (ground (arith, h, count-stuck n), stuck-depends n h))
      ]
