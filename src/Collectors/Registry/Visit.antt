-- ===== src/Collectors/Registry/Visit.antt =====
-- What one call of `visit` does to the walk.
use quant_stack.Prelude.{
  ℕ, zero, suc, ◌≡◌, refl, sym, ap, subst, ◌∙◌, String, true, false, Option, none, some, List, [],
  ◌∷◌, ◌++◌, map, reverse, arith, leb, All, str_eq, eq_iff, eq_refl, if◌then◌else◌, Bool-cases,
  Option-cases, inl, inr, ◌⊎◌,
}
use mathlib.Core.List.{map-append, reverse-append}
use mathlib.Core.Path.{ap₂}
use quant_stack.Prelude.Dict.{Dict, lookup}
use quant_stack.Collectors.Registry.{
  Collector, Walk, Walked, walked, cycle, out_of_fuel, mem, sorted, known, insert_sorted,
  priority_of, visit, visit_all, finish,
}

mem-cons : (k n : String) (l : List String) → mem k (n ∷ l) ≡ (if str_eq n k then true else mem k l)
mem-cons k n l = refl

pub Walked-cases :
    (r : Walked)
    → ((w : Walk) × (r ≡ walked w)) ⊎ (((c : List String) × (r ≡ cycle c)) ⊎ (r ≡ out_of_fuel))
Walked-cases (walked w) = inl (w, refl)
Walked-cases (cycle c) = inr (inl (c, refl))
Walked-cases out_of_fuel = inr (inr refl)

module _ (by_name : Dict Collector) where
  abbrev pub deps_in : Option Collector → List String
  deps_in none = []
  deps_in (some c) = sorted by_name (known by_name c.depends_on)

  abbrev pub deps_of : String → List String
  deps_of n = deps_in (lookup n by_name)

  -- Newest first: each name stands once, and all that it depends on stands behind it.
  abbrev pub DepsFirst : List String → Type 0
  DepsFirst [] = Unit
  DepsFirst (n ∷ rest) =
      All (λ d. mem d rest ≡ true) (deps_of n) × (mem n rest ≡ false) × DepsFirst rest

  abbrev pub collector_name : Collector → String
  collector_name c = c.name

  -- What a call keeps, from the walk `w` to the walk `w'`.
  pub record Keeps (w w' : Walk) : Type 0 where
    pub grows : (k : String) → mem k w.done ≡ true → mem k w'.done ≡ true
    pub marks : (k : String) → mem k w.visiting ≡ true → mem k w'.visiting ≡ true
    pub busy : (k : String) → mem k w.visiting ≡ true → mem k w.done ≡ false → mem k w'.done ≡ false
    pub sound : DepsFirst w.done → DepsFirst w'.done
    pub lined :
        map collector_name w.ordered ≡ reverse w.done
        → map collector_name w'.ordered ≡ reverse w'.done

  Keeps-refl : (w : Walk) → Keeps w w
  Keeps-refl w = record {
    grows = λ k h. h;
    marks = λ k h. h;
    busy = λ k h i. i;
    sound = λ h. h;
    lined = λ h. h;
  }

  Keeps-trans : {u v w : Walk} → Keeps u v → Keeps v w → Keeps u w
  Keeps-trans f g = record {
    grows = λ k h. g.grows k (f.grows k h);
    marks = λ k h. g.marks k (f.marks k h);
    busy = λ k h i. g.busy k (f.marks k h) (f.busy k h i);
    sound = λ h. g.sound (f.sound h);
    lined = λ h. g.lined (f.lined h);
  }

  -- The contract of `visit`.
  abbrev pub Visits : (String → List String → Walk → Walked) → Type 0
  Visits v =
      (n : String) (chain : List String) (w w' : Walk)
      → (lookup n by_name ≡ none → ⊥)
      → v n chain w ≡ walked w'
      → Keeps w w' × (mem n w'.done ≡ true)

  abbrev pub AreKnown : List String → Type 0
  AreKnown = All λ n. lookup n by_name ≡ none → ⊥

  All-grows :
      (w w' : Walk) (ns : List String)
      → Keeps w w'
      → All (λ n. mem n w.done ≡ true) ns
      → All (λ n. mem n w'.done ≡ true) ns
  All-grows w w' [] k h = tt
  All-grows w w' (n ∷ ns) k h = (k.grows n h.0, All-grows w w' ns k h.1)

  pub visit_all_lem :
      (v : String → List String → Walk → Walked)
      → Visits v
      → (ns chain : List String) (w w' : Walk) → AreKnown ns
      → visit_all v ns chain w ≡ walked w'
      → Keeps w w' × All (λ n. mem n w'.done ≡ true) ns
  unfolding visit_all
  visit_all_lem v ok [] chain w w' kn e = let p : w ≡ w' = ground arith in rw p (Keeps-refl w', tt)
  visit_all_lem v ok (n ∷ ns) chain w w' kn e = elim (Walked-cases (v n chain w)) [
    | inl (u, p) ↦
        let first = ok n chain w u kn.0 p in
        let rest = visit_all_lem v ok ns chain u w' kn.1 (ground arith) in
        (Keeps-trans first.0 rest.0, (rest.0.grows n first.1, rest.1))
    | inr (inl (c, p)) ↦ absurd (ground arith)
    | inr (inr p) ↦ absurd (ground arith)
  ]

module _ (P : String → Type 0) (by_name : Dict Collector) where
  All-insert_sorted :
      (n : String) (ns : List String) → P n → All P ns → All P (insert_sorted by_name n ns)
  unfolding insert_sorted
  All-insert_sorted n [] h hs = (h, tt)
  All-insert_sorted n (m ∷ ms) h hs =
      elim (Bool-cases (leb (priority_of by_name n) (priority_of by_name m))) [
        | inl e ↦ rw e (h, hs)
        | inr e ↦ rw e (hs.0, All-insert_sorted n ms h hs.1)
      ]

  pub All-sorted : (ns : List String) → All P ns → All P (sorted by_name ns)
  unfolding sorted
  All-sorted [] h = tt
  All-sorted (n ∷ ns) h = All-insert_sorted n (sorted by_name ns) h.0 (All-sorted ns h.1)

module _ (by_name : Dict Collector) where
  pub known-AreKnown : (ds : List String) → AreKnown by_name (known by_name ds)
  unfolding known
  known-AreKnown [] = tt
  known-AreKnown (d ∷ ds) = elim (Option-cases (lookup d by_name)) [
    | inl e ↦ rw e (known-AreKnown ds)
    | inr (c, e) ↦ rw e ((λ f. cc), known-AreKnown ds)
  ]

  -- The registry files each collector under its own name.
  abbrev pub IsKeyed : Type 0
  IsKeyed = (k : String) (c : Collector) → lookup k by_name ≡ some c → c.name ≡ k

  closes :
      (n : String) (w w₂ : Walk) (c : Collector)
      → IsKeyed
      → mem n w.done ≡ false
      → mem n w.visiting ≡ false
      → lookup n by_name ≡ some c
      → Keeps by_name (record w { visiting = n ∷ w.visiting }) w₂
      → All (λ d. mem d w₂.done ≡ true) (sorted by_name (known by_name c.depends_on))
      → Keeps by_name w (record w₂ { done = n ∷ w₂.done; ordered = w₂.ordered ++ c ∷ [] })
        × (mem n (n ∷ w₂.done) ≡ true)
  closes n w w₂ c keyed nd nv l k all =
      let deps : deps_of by_name n ≡ sorted by_name (known by_name c.depends_on) =
        ap (λ (o : Option Collector). deps_in by_name o) l in
      (
        record {
          grows = λ j h. ground (arith, k.grows j);
          marks = λ j h. k.marks j (ground arith);
          busy = λ j h i. ground (arith, k.busy j, eq_iff n j);
          sound = λ h. (
            subst (λ ds. All (λ d. mem d w₂.done ≡ true) ds) (sym deps) all,
            k.busy n (rw (eq_refl n)) nd,
            k.sound h,
          );
          lined = λ h.
              map-append _ w₂.ordered (c ∷ [])
              ∙ ap₂ (λ xs x. xs ++ x ∷ []) (k.lined h) (keyed n c l)
              ∙ sym (reverse-append (n ∷ []) w₂.done);
        },
        rw (eq_refl n),
      )

  visit_new :
      (fuel : ℕ) (n : String) (chain : List String) (w w' : Walk) (c : Collector)
      → IsKeyed
      → Visits by_name (visit by_name fuel)
      → mem n w.done ≡ false
      → mem n w.visiting ≡ false
      → lookup n by_name ≡ some c
      → finish c n (
          visit_all
            (visit by_name fuel)
            (sorted by_name (known by_name c.depends_on))
            (chain ++ n ∷ [])
            (record w { visiting = n ∷ w.visiting }))
        ≡ walked w'
      → Keeps by_name w w' × (mem n w'.done ≡ true)
  visit_new fuel n chain w w' c keyed ih nd nv l e =
      let deps = sorted by_name (known by_name c.depends_on) in
      let w₁ : Walk = record w { visiting = n ∷ w.visiting } in
      elim (Walked-cases (visit_all (visit by_name fuel) deps (chain ++ n ∷ []) w₁)) [
        | inl (w₂, p) ↦
            let post =
              visit_all_lem by_name (visit by_name fuel) ih deps (chain ++ n ∷ []) w₁ w₂
                (All-sorted (λ d. lookup d by_name ≡ none → ⊥) by_name (known by_name c.depends_on)
                  (known-AreKnown c.depends_on))
                p in
            let out : Walk = record w₂ { done = n ∷ w₂.done; ordered = w₂.ordered ++ c ∷ [] } in
            let q : out ≡ w' = unfold finish in ground arith in
            rw (sym q) (closes n w w₂ c keyed nd nv l post.0 (post.1))
        | inr (inl (x, p)) ↦ absurd (unfold finish in ground arith)
        | inr (inr p) ↦ absurd (unfold finish in ground arith)
      ]

  -- Whatever its fuel, a visit of a registered name that comes to an end leaves the name done, with
  -- all that it depends on done before it, and disturbs nothing that was done or is being visited.
  pub visit_lem : (fuel : ℕ) → IsKeyed → Visits by_name (visit by_name fuel)
  unfolding visit
  visit_lem zero keyed n chain w w' reg e = absurd (ground arith)
  visit_lem (suc fuel) keyed n chain w w' reg e = elim (Bool-cases (mem n w.done)) [
    | inl d ↦ let p : w ≡ w' = ground arith in rw (sym p) (Keeps-refl by_name w, d)
    | inr nd ↦ elim (Bool-cases (mem n w.visiting)) [
      | inl v ↦ absurd (ground arith)
      | inr nv ↦ elim (Option-cases (lookup n by_name)) [
        | inl l ↦ absurd (reg l)
        | inr (c, l) ↦
            visit_new fuel n chain w w' c keyed (visit_lem fuel keyed) nd nv l (ground arith)
      ]
    ]
  ]
