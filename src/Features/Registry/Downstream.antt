-- ===== src/Features/Registry/Downstream.antt =====
-- What `dependents_of` reaches.
use quant_stack.Prelude.{
  ℕ, zero, suc, ◌+◌, ◌≤◌, ◌<◌, ◌≡◌, refl, sym, subst, ap, ◌∙◌, String, Bool, none, some, List, [],
  ◌∷◌, ◌++◌, arith, str_eq, eq_iff, eq_refl, not, filterb, ◌==◌, length, length-map, length-append,
  if◌then◌else◌, Bool-cases, inl, inr, All, All-map, All-append,
}
use quant_stack.Features.Registry.{
  FeatureDefinition, names_of, arrows, dependents, count, Resolution, Reach, reach_all, spread,
  reached_from, dependency_order, dependents_of, in_order, cyclic,
}
use quant_stack.Features.Registry.Progress.{List-cases, All-dependents}
use quant_stack.Features.Registry.Keys.{arrows-AreBetween}
use quant_stack.Features.Registry.Order.{
  registered, distinct, unplaced_nil, IsOrder, dependency_order_lem,
}
use quant_stack.Features.Registry.Counts.{count-append, count-filterb, unplaced, unplaced-placed}

-- A feature that depends on another, directly or through others.
pub data IsDownstream (es : List (String × String)) (u : String) : String → Type 0 where
  direct : {n : String} → 0 < count n (dependents es u) → IsDownstream es u n
  further :
      {m n : String} → IsDownstream es u m → 0 < count n (dependents es m) → IsDownstream es u n

All-count : (P : String → Type 0) (n : String) (ms : List String) → All P ms → 0 < count n ms → P n
All-count P n [] h p = absurd (omega (arith, p))
All-count P n (m ∷ ms) h p = elim (Bool-cases (str_eq m n)) [
  | inl e ↦ subst P ((eq_iff m n).0 e) h.0
  | inr e ↦ All-count P n ms h.1 (ground (arith, p, e))
]

count-All :
    (P : String → Type 0) (ms : List String) → ((n : String) → 0 < count n ms → P n) → All P ms
count-All P [] h = tt
count-All P (m ∷ ms) h =
    (h m (ground (arith, eq_refl m)), count-All P ms (λ n p. h n (ground (arith, p))))

module _ (es : List (String × String)) (names : List String) (u : String) where
  -- What holds between the rounds, and while `left` is to be reached from `c`.
  pub record IsSpread (c : String) (left : List String) (k : Reach) : Type 0 where
    pub sound : All (IsDownstream es u) k.reached
    pub queued : (n : String) → 0 < count n k.queue → 0 < count n (u ∷ k.reached)
    pub closed :
        (n m : String)
        → 0 < count n (u ∷ k.reached)
        → count n k.queue ≡ 0
        → 0 < count m (dependents es n)
        → 0 < count m k.reached + (if str_eq n c then count m left else 0)

  -- The rounds that may follow.
  abbrev bound : Reach → ℕ
  bound k = length k.queue + unplaced k.reached names

  reach_all-IsSpread :
      (c : String) (left : List String) (k : Reach)
      → All (IsDownstream es u) left
      → All (λ d. 0 < count d names) left
      → IsSpread c left k
      → IsSpread c [] (reach_all left k) × (bound (reach_all left k) ≤ bound k)
  unfolding reach_all
  reach_all-IsSpread c [] k g b h = (h, omega arith)
  reach_all-IsSpread c (d ∷ left) k g b h = elim (Bool-cases (count d k.reached == 0)) [
    | inl e ↦
        let next : Reach = record { reached = k.reached ++ d ∷ []; queue = k.queue ++ d ∷ [] } in
        let fresh : count d k.reached ≡ 0 = ground (arith, e) in
        let less = unplaced-placed k.reached d names fresh b.0 in
        let more = length-append k.queue (d ∷ []) in
        let rest = reach_all-IsSpread c left next g.1 b.1 (record {
          sound = All-append _ k.reached (d ∷ []) h.sound (g.0, tt);
          queued = λ n p. ground (
            arith,
            p,
            h.queued n,
            count-append n k.queue (d ∷ []),
            count-append n k.reached (d ∷ []),
          );
          closed = λ n m p q r. ground (
            arith,
            p,
            q,
            r,
            h.closed n m,
            count-append n k.queue (d ∷ []),
            count-append n k.reached (d ∷ []),
            count-append m k.reached (d ∷ []),
          );
        }) in
        rw e (rest.0, omega (arith, rest.1, less, more))
    | inr e ↦
        let rest = reach_all-IsSpread c left k g.1 b.1 (record {
          sound = h.sound;
          queued = h.queued;
          closed = λ n m p q r. ground (arith, p, q, r, e, h.closed n m, eq_iff d m, eq_iff m d);
        }) in
        rw e rest
  ]

  dependents-IsDownstream :
      (c : String) (k : Reach)
      → All (IsDownstream es u) k.reached
      → 0 < count c (u ∷ k.reached)
      → (n : String) → 0 < count n (dependents es c)
      → IsDownstream es u n
  dependents-IsDownstream c k h p n q = elim (Bool-cases (str_eq u c)) [
    | inl e ↦ direct (subst (λ v. 0 < count n (dependents es v)) (sym ((eq_iff u c).0 e)) q)
    | inr e ↦
        let there : 0 < count c k.reached = ground (arith, p, e) in
        further (All-count (IsDownstream es u) c k.reached h there) q
  ]

  -- A round of the loop, for the feature at the front of the queue.
  abbrev visited : String → List String → Reach → Reach
  visited c queue k = reach_all (dependents es c) (record k { queue = queue })

  module _ (between : All (λ e. 0 < count e.1 names) es) where
    visited-IsSpread :
        (c' c : String) (queue : List String) (k : Reach)
        → k.queue ≡ c ∷ queue
        → IsSpread c' [] k
        → IsSpread c [] (visited c queue k) × (bound (visited c queue k) < bound k)
    visited-IsSpread c' c queue k e h =
        let at : (n : String) → count n k.queue ≡ count n (c ∷ queue) = λ n. ap (count n) e in
        let known : 0 < count c (u ∷ k.reached) = h.queued c (ground (arith, at c, eq_refl c)) in
        let size : length k.queue ≡ suc (length queue) = ap length e in
        let rest =
          reach_all-IsSpread c (dependents es c) (record k { queue = queue })
            (count-All (IsDownstream es u) (dependents es c)
              (dependents-IsDownstream c k h.sound known))
            (All-dependents es names c es between)
            (record {
              sound = h.sound;
              queued = λ n p. h.queued n (ground (arith, p, at n));
              closed =
                  λ n m p q r. ground (arith, p, q, r, h.closed n m, at n, eq_iff n c, eq_iff c n);
            }) in
        (rest.0, omega (arith, rest.1, size))

    -- What holds at the end of the loop.
    pub record IsClosed (k : Reach) : Type 0 where
      pub sound : All (IsDownstream es u) k.reached
      pub complete :
          (n m : String)
          → 0 < count n (u ∷ k.reached)
          → 0 < count m (dependents es n)
          → 0 < count m k.reached

    IsSpread-IsClosed : (c : String) (k : Reach) → IsSpread c [] k → k.queue ≡ [] → IsClosed k
    IsSpread-IsClosed c k h e = record {
      sound = h.sound;
      complete = λ n m p r.
          let idle : count n k.queue ≡ 0 = ap (count n) e in ground (arith, h.closed n m p idle r);
    }

    spread-nil : (fuel : ℕ) (k : Reach) → k.queue ≡ [] → spread es fuel k ≡ k
    unfolding spread
    spread-nil zero k e = refl
    spread-nil (suc fuel) k e = ground (arith, e)

    spread-cons :
        (fuel : ℕ) (c : String) (queue : List String) (k : Reach)
        → k.queue ≡ c ∷ queue
        → spread es (suc fuel) k ≡ spread es fuel (visited c queue k)
    unfolding spread
    spread-cons fuel c queue k e = ground (arith, e)

    spread_lem :
        (fuel : ℕ) (c : String) (k : Reach)
        → IsSpread c [] k
        → bound k ≤ fuel
        → IsClosed (spread es fuel k)
    spread_lem zero c k h f = elim (List-cases k.queue) [
      | inl e ↦ subst IsClosed (sym (spread-nil zero k e)) (IsSpread-IsClosed c k h e)
      | inr (d, queue, e) ↦
          let size : length k.queue ≡ suc (length queue) = ap length e in
          absurd (omega (arith, f, size))
    ]
    spread_lem (suc fuel) c k h f = elim (List-cases k.queue) [
      | inl e ↦ subst IsClosed (sym (spread-nil (suc fuel) k e)) (IsSpread-IsClosed c k h e)
      | inr (d, queue, e) ↦
          let round = visited-IsSpread c d queue k e h in
          let rest = spread_lem fuel d (visited d queue k) round.0 (omega (arith, f, round.1)) in
          subst IsClosed (sym (spread-cons fuel d queue k e)) rest
    ]

    IsClosed-complete :
        (k : Reach) → IsClosed k → (n : String) → IsDownstream es u n → 0 < count n k.reached
    IsClosed-complete k h n (direct q) = h.complete u n (ground (arith, eq_refl u)) q
    IsClosed-complete k h n (further {m = m} d q) =
        let there = IsClosed-complete k h m d in h.complete m n (ground (arith, there)) q

module _ (ds : List FeatureDefinition) (feature : String) where
  abbrev first : Reach
  first = record { reached = []; queue = feature ∷ [] }

  first-IsSpread :
      IsSpread (arrows (registered ds)) (names_of (registered ds)) feature feature [] first
  first-IsSpread = record {
    sound = tt;
    queued = λ n p. p;
    closed = λ n m p q r. ground (arith, p, q);
  }

  closed_between : All (λ e. 0 < count e.1 (names_of (registered ds))) (arrows (registered ds))
  closed_between = All-map (arrows (registered ds)) (λ e h. h.1) (arrows-AreBetween (registered ds))

  reached_iff :
      (n : String)
      → (0 < count n (reached_from (registered ds) feature)
          → IsDownstream (arrows (registered ds)) feature n)
        × (IsDownstream (arrows (registered ds)) feature n
            → 0 < count n (reached_from (registered ds) feature))
  unfolding reached_from
  reached_iff n =
      let r = registered ds in
      let size = length-map (λ (e : String × FeatureDefinition). e.0) r in
      let end =
        spread_lem (arrows r) (names_of r) feature closed_between (suc (length r)) feature first
          first-IsSpread (omega (arith, unplaced_nil (names_of r), size)) in
      (
        λ p. All-count (IsDownstream (arrows r) feature) n _ end.sound p,
        λ d. IsClosed-complete (arrows r) (names_of r) feature closed_between _ end n d,
      )

  downstream-named :
      (n : String)
      → IsDownstream (arrows (registered ds)) feature n
      → 0 < count n (names_of (registered ds))
  downstream-named n (direct q) =
      All-count _ n _
        (All-dependents (arrows (registered ds)) (names_of (registered ds)) feature
          (arrows (registered ds)) closed_between)
        q
  downstream-named n (further {m = m} d q) =
      All-count _ n _
        (All-dependents (arrows (registered ds)) (names_of (registered ds)) m
          (arrows (registered ds)) closed_between)
        q

  abbrev is_reached : String → Bool
  is_reached n = not (count n (reached_from (registered ds) feature) == 0)

  answered :
      (ns : List String) (res : Resolution)
      → dependency_order (registered ds) ≡ res
      → (elim res [ in_order ms ↦ some (filterb is_reached ms) | cyclic cs ↦ none ]) ≡ some ns
      → (ms : List String) × IsOrder ds ms × (filterb is_reached ms ≡ ns)
  answered ns (in_order ms) q e = (ms, dependency_order_lem ds ms q, ground (arith, e))
  answered ns (cyclic cs) q e = absurd (ground (arith, e))

  -- If `dependents_of` answers, the answer has exactly the features that depend on the given one, directly or
  -- through others, and each of them once.
  pub dependents_of_lem :
      (ns : List String)
      → dependents_of (registered ds) feature ≡ some ns
      → (n : String)
      → (0 < count n ns → IsDownstream (arrows (registered ds)) feature n)
        × (IsDownstream (arrows (registered ds)) feature n → count n ns ≡ 1)
  unfolding dependents_of
  dependents_of_lem ns e n =
      let (ms, order, same) = answered ns (dependency_order (registered ds)) refl e in
      let counted : count n ns ≡ (if is_reached n then count n ms else 0) =
        sym (ap (count n) same) ∙ count-filterb n is_reached ms in
      let iff = reached_iff n in
      (
        λ p. iff.0 (ground (arith, p, counted)),
        λ d.
            let there = iff.1 d in
            let named = downstream-named n d in
            ground (arith, counted, there, named, order.once n, distinct ds n),
      )
