-- ===== src/Features/Registry/Progress.antt =====
-- What every round of the topological sort keeps.
use quant_stack.Prelude.{
  ℕ, zero, suc, ◌+◌, ◌≤◌, ◌<◌, ◌≡◌, refl, sym, subst, ap, ◌∙◌, String, List, [], ◌∷◌, ◌++◌, arith,
  str_eq, eq_iff, eq_refl, Bool-cases, inl, inr, ◌⊎◌, All,
}
use mathlib.Core.List.{append-nil, append_assoc}
use quant_stack.Features.Registry.{
  Kahn, relax, relax_all, drain, str_le, count, dependents, sort_names, insert_name,
}
use quant_stack.Features.Registry.Counts.{
  count-append, count-sort_names, pending, pending-done, unplaced, unplaced-placed,
}

pub List-cases {ℓ} :
    {A : Type ℓ} (l : List A) → (l ≡ []) ⊎ ((a : A) × (rest : List A) × (l ≡ a ∷ rest))
List-cases [] = inl refl
List-cases (a ∷ rest) = inr (a, rest, refl)

module _ (es : List (String × String)) (names : List String) where
  -- Each name is free of open arrows when its turn comes, where those of `done` came before.
  abbrev pub Ready : List String → List String → Type 0
  Ready done [] = Unit
  Ready done (n ∷ ns) = (pending n done es ≡ 0) × Ready (done ++ n ∷ []) ns

  Ready-append :
      (done ns : List String) (n : String)
      → Ready done ns
      → pending n (done ++ ns) es ≡ 0
      → Ready done (ns ++ n ∷ [])
  Ready-append done [] n r h = (rw (sym (append-nil done)) h, tt)
  Ready-append done (m ∷ ns) n r h = (
    r.0,
    Ready-append (done ++ m ∷ []) ns n r.1
        (ap (λ l. pending n l es) (append_assoc done (m ∷ []) ns) ∙ h),
  )

  -- What holds between the rounds, and while the names `left` are still to be relaxed.
  pub record IsKept (left : List String) (k : Kahn) : Type 0 where
    pub counted : (n : String) → k.degree n ≡ pending n k.ordered es + count n left
    pub single : (n : String) → count n k.queue + count n k.ordered ≤ 1
    pub free : (n : String) → 0 < count n k.queue + count n k.ordered → k.degree n ≡ 0
    pub named : (n : String) → 0 < count n k.queue + count n k.ordered → 0 < count n names
    pub offered :
        (n : String) → 0 < count n names → k.degree n ≡ 0 → 0 < count n k.queue + count n k.ordered
    pub ready : Ready [] k.ordered

  relax-IsKept :
      (d : String) (left : List String) (k : Kahn)
      → 0 < count d names
      → IsKept (d ∷ left) k
      → IsKept left (relax d k)
  unfolding relax
  relax-IsKept d left k g h = record {
    counted = λ n. ground (arith, h.counted n, h.counted d, eq_iff n d, eq_iff d n, eq_refl d);
    single = λ n. ground (
      arith,
      h.single n,
      h.free n,
      h.free d,
      h.counted d,
      eq_iff n d,
      eq_iff d n,
      eq_refl d,
      count-append n k.queue (d ∷ []),
    );
    free = λ n p. ground (
      arith,
      p,
      h.free n,
      h.free d,
      h.counted d,
      eq_iff n d,
      eq_iff d n,
      eq_refl d,
      count-append n k.queue (d ∷ []),
    );
    named = λ n p. ground (
      arith,
      p,
      g,
      h.named n,
      eq_iff n d,
      eq_iff d n,
      eq_refl d,
      count-append n k.queue (d ∷ []),
    );
    offered = λ n p z. ground (
      arith,
      p,
      z,
      h.offered n,
      h.counted d,
      eq_iff n d,
      eq_iff d n,
      eq_refl d,
      count-append n k.queue (d ∷ []),
    );
    ready = h.ready;
  }

  relax_all-IsKept :
      (ds : List String) (k : Kahn)
      → All (λ d. 0 < count d names) ds
      → IsKept ds k
      → IsKept [] (relax_all ds k)
  unfolding relax_all
  relax_all-IsKept [] k g h = h
  relax_all-IsKept (d ∷ ds) k g h = relax_all-IsKept ds (relax d k) g.1 (relax-IsKept d ds k g.0 h)

  -- The name at the front of the queue moves to the order.
  abbrev pub popped : String → List String → Kahn → Kahn
  popped n queue k = record k { queue = queue; ordered = k.ordered ++ n ∷ [] }

  popped-IsKept :
      (n : String) (queue : List String) (k : Kahn)
      → k.queue ≡ n ∷ queue
      → IsKept [] k
      → IsKept (sort_names (dependents es n)) (popped n queue k)
  popped-IsKept n queue k q h =
      let at : (m : String) → count m k.queue ≡ count m (n ∷ queue) = λ m. ap (count m) q in
      let mine : count n k.queue ≡ suc (count n queue) = at n ∙ simp eq_refl in
      let fresh : count n k.ordered ≡ 0 = omega (arith, h.single n, mine) in
      let moved : (m : String)
          → count m (k.ordered ++ n ∷ []) ≡ count m k.ordered + count m (n ∷ []) =
        λ m. count-append m k.ordered (n ∷ []) in
      record {
        counted = λ m. ground (
          arith,
          h.counted m,
          pending-done m n k.ordered es fresh,
          count-sort_names m (dependents es n),
        );
        single = λ m. ground (arith, h.single m, at m, moved m);
        free = λ m p. ground (arith, p, h.free m, at m, moved m);
        named = λ m p. ground (arith, p, h.named m, at m, moved m);
        offered = λ m p z. ground (arith, p, z, h.offered m, at m, moved m);
        ready = Ready-append [] k.ordered n h.ready (omega (arith, h.counted n, h.free n, mine));
      }

  unplaced-front :
      (n : String) (queue : List String) (k : Kahn)
      → k.queue ≡ n ∷ queue
      → IsKept [] k
      → unplaced (k.ordered ++ n ∷ []) names < unplaced k.ordered names
  unplaced-front n queue k q h =
      let mine : count n k.queue ≡ suc (count n queue) = ap (count n) q ∙ simp eq_refl in
      unplaced-placed k.ordered n names (omega (arith, h.single n, mine))
        (h.named n (omega (arith, mine)))

  relax_all-ordered : (ds : List String) (k : Kahn) → (relax_all ds k).ordered ≡ k.ordered
  unfolding relax_all relax
  relax_all-ordered [] k = refl
  relax_all-ordered (d ∷ ds) k = relax_all-ordered ds (relax d k)

  abbrev pub IsNamed : String → Type 0
  IsNamed n = 0 < count n names

  All-insert_name :
      (n : String) (ms : List String)
      → 0 < count n names
      → All IsNamed ms
      → All IsNamed (insert_name n ms)
  unfolding insert_name
  All-insert_name n [] p h = (p, tt)
  All-insert_name n (m ∷ ms) p h = elim (Bool-cases (str_le n m)) [
    | inl e ↦ rw e (p, h)
    | inr e ↦ rw e (h.0, All-insert_name n ms p h.1)
  ]

  All-sort_names : (ms : List String) → All IsNamed ms → All IsNamed (sort_names ms)
  unfolding sort_names
  All-sort_names [] h = tt
  All-sort_names (m ∷ ms) h = All-insert_name m (sort_names ms) h.0 (All-sort_names ms h.1)

  pub All-dependents :
      (u : String) (fs : List (String × String))
      → All (λ e. 0 < count e.1 names) fs
      → All IsNamed (dependents fs u)
  unfolding dependents
  All-dependents u [] h = tt
  All-dependents u ((v, m) ∷ fs) h = elim (Bool-cases (str_eq v u)) [
    | inl e ↦ rw e (h.0, All-dependents u fs h.1)
    | inr e ↦ rw e (All-dependents u fs h.1)
  ]

  module _ (closed : All (λ e. 0 < count e.1 names) es) where
    -- A round of the loop.
    abbrev round_of : String → List String → Kahn → Kahn
    round_of n queue k = relax_all (sort_names (dependents es n)) (popped n queue k)

    round-IsKept :
        (n : String) (queue : List String) (k : Kahn)
        → k.queue ≡ n ∷ queue
        → IsKept [] k
        → IsKept [] (round_of n queue k)
    round-IsKept n queue k q h =
        relax_all-IsKept (sort_names (dependents es n)) (popped n queue k)
          (All-sort_names (dependents es n) (All-dependents n es closed))
          (popped-IsKept n queue k q h)

    round-unplaced :
        (n : String) (queue : List String) (k : Kahn)
        → k.queue ≡ n ∷ queue
        → IsKept [] k
        → unplaced (round_of n queue k).ordered names < unplaced k.ordered names
    round-unplaced n queue k q h =
        rw (relax_all-ordered (sort_names (dependents es n)) (popped n queue k))
          (unplaced-front n queue k q h)

    drain-nil : (fuel : ℕ) (k : Kahn) → k.queue ≡ [] → drain es (suc fuel) k ≡ k
    unfolding drain
    drain-nil fuel k e = ground (arith, e)

    drain-cons :
        (fuel : ℕ) (n : String) (queue : List String) (k : Kahn)
        → k.queue ≡ n ∷ queue
        → drain es (suc fuel) k ≡ drain es fuel (round_of n queue k)
    unfolding drain
    drain-cons fuel n queue k e = ground (arith, e)

    -- With fuel for every name that has no place yet, the loop ends with an empty queue.
    pub drain_lem :
        (fuel : ℕ) (k : Kahn)
        → IsKept [] k
        → unplaced k.ordered names ≤ fuel
        → IsKept [] (drain es fuel k) × ((drain es fuel k).queue ≡ [])
    unfolding drain
    drain_lem zero k h f = elim (List-cases k.queue) [
      | inl e ↦ (h, e)
      | inr (n, queue, e) ↦ absurd (omega (arith, f, unplaced-front n queue k e h))
    ]
    drain_lem (suc fuel) k h f = elim (List-cases k.queue) [
      | inl e ↦ subst (λ r. IsKept [] r × (r.queue ≡ [])) (sym (drain-nil fuel k e)) (h, e)
      | inr (n, queue, e) ↦
          let rest =
            drain_lem fuel (round_of n queue k) (round-IsKept n queue k e h)
              (omega (arith, f, round-unplaced n queue k e h)) in
          subst (λ r. IsKept [] r × (r.queue ≡ [])) (sym (drain-cons fuel n queue k e)) rest
    ]
