-- ===== src/Collectors/Registry/Depth.antt =====
-- The recursion of `visit` is never deeper than the number of collectors.
use quant_stack.Prelude.{
  ℕ, zero, suc, ◌≤◌, ◌<◌, ◌≡◌, ◌≢◌, refl, String, true, false, none, List, [], ◌∷◌, ◌++◌, arith,
  length, str_eq, eq_iff, if◌then◌else◌, Bool-cases, Option-cases, inl, inr,
}
use quant_stack.Prelude.Dict.{Dict, lookup}
use quant_stack.Collectors.Registry.{
  Collector, Registry, Walk, out_of_fuel, mem, sorted, known, visit, visit_all, finish, names,
  resolution_order,
}
use quant_stack.Collectors.Registry.Visit.{
  IsKeyed, AreKnown, Keeps, Walked-cases, All-sorted, known-AreKnown, visit_lem,
}

-- How many of the names are not in the list.
abbrev unvisited : List String → List String → ℕ
unvisited vis [] = 0
unvisited vis (k ∷ ks) = if mem k vis then unvisited vis ks else suc (unvisited vis ks)

unvisited-le-length : (vis ks : List String) → unvisited vis ks ≤ length ks
unvisited-le-length vis [] = omega arith
unvisited-le-length vis (k ∷ ks) = ground (arith, unvisited-le-length vis ks)

unvisited_mono :
    (u v ks : List String)
    → ((k : String) → mem k u ≡ true → mem k v ≡ true)
    → unvisited v ks ≤ unvisited u ks
unvisited_mono u v [] h = omega arith
unvisited_mono u v (k ∷ ks) h = ground (arith, unvisited_mono u v ks h, h k)

unvisited-cons :
    (n : String) (vis ks : List String)
    → mem n ks ≡ true
    → mem n vis ≡ false
    → unvisited (n ∷ vis) ks < unvisited vis ks
unvisited-cons n vis [] m f = absurd (ground arith)
unvisited-cons n vis (k ∷ ks) m f = ground (
  arith,
  eq_iff n k,
  eq_iff k n,
  unvisited-cons n vis ks,
  unvisited_mono vis (n ∷ vis) ks (λ j h. ground arith),
)

mem-names : (n : String) (d : Dict Collector) → (lookup n d ≡ none → ⊥) → mem n (names d) ≡ true
unfolding lookup
mem-names n [] h = absurd (h refl)
mem-names n ((k, c) ∷ d) h = elim (Bool-cases (str_eq k n)) [
  | inl e ↦ rw e
  | inr e ↦ rw e (mem-names n d (λ l. h (rw e l)))
]

module _ (by_name : Dict Collector) (keyed : IsKeyed by_name) where
  abbrev left : Walk → ℕ
  left w = unvisited w.visiting (names by_name)

  Keeps-left : {w w' : Walk} → Keeps by_name w w' → left w' ≤ left w
  Keeps-left {w} {w'} k = unvisited_mono w.visiting w'.visiting (names by_name) k.marks

  -- Enough fuel for the visits is enough for the loop over them.
  visit_all_ends :
      (fuel : ℕ)
      → ((n : String) (chain : List String) (w : Walk)
          → (lookup n by_name ≡ none → ⊥)
          → left w < fuel
          → visit by_name fuel n chain w ≢ out_of_fuel)
      → (ns chain : List String) (w : Walk) → AreKnown by_name ns
      → left w < fuel
      → visit_all (visit by_name fuel) ns chain w ≢ out_of_fuel
  unfolding visit_all
  visit_all_ends fuel ends [] chain w kn h e = cc
  visit_all_ends fuel ends (n ∷ ns) chain w kn h e =
      elim (Walked-cases (visit by_name fuel n chain w)) [
        | inl (u, p) ↦
            let k = (visit_lem by_name fuel keyed n chain w u kn.0 p).0 in
            let le = Keeps-left k in
            visit_all_ends fuel ends ns chain u kn.1 (omega arith) (ground arith)
        | inr (inl (c, p)) ↦ ground arith
        | inr (inr p) ↦ ends n chain w kn.0 h p
      ]

  visit_ends :
      (fuel : ℕ) (n : String) (chain : List String) (w : Walk)
      → (lookup n by_name ≡ none → ⊥)
      → left w < fuel
      → visit by_name fuel n chain w ≢ out_of_fuel
  unfolding visit finish
  visit_ends zero n chain w reg h e = elim h [ ]
  visit_ends (suc fuel) n chain w reg h e = elim (Bool-cases (mem n w.done)) [
    | inl d ↦ ground arith
    | inr nd ↦ elim (Bool-cases (mem n w.visiting)) [
      | inl v ↦ ground arith
      | inr nv ↦ elim (Option-cases (lookup n by_name)) [
        | inl l ↦ reg l
        | inr (c, l) ↦
            let w₁ : Walk = record w { visiting = n ∷ w.visiting } in
            let less = unvisited-cons n w.visiting (names by_name) (mem-names n by_name reg) nv in
            visit_all_ends fuel (visit_ends fuel) (sorted by_name (known by_name c.depends_on))
              (chain ++ n ∷ []) w₁
              (All-sorted (λ d. lookup d by_name ≡ none → ⊥) by_name (known by_name c.depends_on)
                (known-AreKnown by_name c.depends_on))
              (omega arith) (ground arith)
      ]
    ]
  ]

length-names : (d : Dict Collector) → length (names d) ≡ length d
length-names [] = refl
length-names (e ∷ d) = omega (arith, length-names d)

AreKnown-cons :
    (e : String × Collector) (d : Dict Collector) (ns : List String)
    → AreKnown d ns
    → AreKnown (e ∷ d) ns
unfolding lookup
AreKnown-cons e d [] h = tt
AreKnown-cons (k, c) d (n ∷ ns) h = (
  λ l. elim (Bool-cases (str_eq k n)) [ inl same ↦ ground arith | inr other ↦ h.0 (ground arith) ],
  AreKnown-cons (k, c) d ns h.1,
)

-- Every name of the registry is registered.
pub names-AreKnown : (d : Dict Collector) → AreKnown d (names d)
unfolding lookup
names-AreKnown [] = tt
names-AreKnown ((k, c) ∷ d) =
    ((λ l. ground (arith, eq_iff k k)), AreKnown-cons (k, c) d (names d) (names-AreKnown d))

-- `resolution_order` of collectors that are filed under their own names ends, with an order or
-- with a cycle: one level more than there are collectors is fuel enough for the recursion of
-- `visit`.
pub resolution_order_ends : (r : Registry) → IsKeyed r.collectors → resolution_order r ≢ out_of_fuel
unfolding resolution_order
resolution_order_ends r keyed =
    let le = unvisited-le-length [] (names r.collectors) in
    let len = length-names r.collectors in
    visit_all_ends r.collectors keyed (suc (length r.collectors))
      (visit_ends r.collectors keyed (suc (length r.collectors)))
      (sorted r.collectors (names r.collectors)) []
      (record { visiting = []; done = []; ordered = [] })
      (All-sorted (λ n. lookup n r.collectors ≡ none → ⊥) r.collectors (names r.collectors)
        (names-AreKnown r.collectors))
      (omega arith)
