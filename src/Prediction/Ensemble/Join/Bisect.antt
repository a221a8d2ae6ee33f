-- ===== src/Prediction/Ensemble/Join/Bisect.antt =====
-- The binary search of the join against a scan of the series.
use quant_stack.Prelude.{
  ℕ, zero, suc, ◌+◌, ◌/◌, ◌≤◌, ◌<◌, ◌≡◌, refl, ap, ◌∙◌, true, Option, none, some, List, [], ◌∷◌,
  length, ltb, leb, if◌then◌else◌, arith, All, length-map, nth_there, Bool-cases, inl, inr,
}
use quant_stack.Prediction.Ensemble.Join.{
  above, bisect_loop, bisect_right, observation_before, timestamps, as_of_value,
}

-- A list in ascending order, equal neighbours included.
abbrev pub IsAscending : List ℕ → Type 0
IsAscending [] = Unit
IsAscending (t ∷ ts) = All (λ u. t ≤ u) ts × IsAscending ts

-- How many times at the front are at most `x`.
abbrev pub rank_of : ℕ → List ℕ → ℕ
rank_of x [] = 0
rank_of x (t ∷ ts) = if ltb x t then 0 else suc (rank_of x ts)

rank_of_le : (x : ℕ) (a : List ℕ) → rank_of x a ≤ length a
rank_of_le x [] = omega arith
rank_of_le x (t ∷ ts) = ground (arith, rank_of_le x ts)

later_above : (x t : ℕ) (ts : List ℕ) (i : ℕ) → x < t → All (λ u. t ≤ u) ts → above x ts i ≡ true
later_above x t [] i h q = refl
later_above x t (u ∷ us) zero h q = ground (arith, h, q.0)
later_above x t (u ∷ us) (suc i) h q = later_above x t us i h q.1

-- In an ascending list the test answers whether the place is at or behind the rank.
above_iff : (x : ℕ) (a : List ℕ) (i : ℕ) → IsAscending a → above x a i ≡ leb (rank_of x a) i
above_iff x [] i s = ground arith
above_iff x (t ∷ ts) zero s = ground arith
above_iff x (t ∷ ts) (suc i) s = elim (Bool-cases (ltb x t)) [
  | inl p ↦
      let h : x < t = ground (arith, p) in
      let e = later_above x t ts i h s.0 in ground (arith, p, e)
  | inr p ↦ let e = above_iff x ts i s.1 in ground (arith, p, e)
]

bisect_loop_lem :
    (fuel x : ℕ) (a : List ℕ) (low high : ℕ)
    → IsAscending a
    → low ≤ rank_of x a
    → rank_of x a ≤ high
    → high ≤ low + fuel
    → bisect_loop fuel x a low high ≡ rank_of x a
unfolding bisect_loop
bisect_loop_lem zero x a low high s l h f = omega arith
bisect_loop_lem (suc fuel) x a low high s l h f =
    let mid = (low + high) / 2 in
    let e = above_iff x a mid s in
    elim (Bool-cases (ltb low high)) [
      | inr p ↦ ground (arith, p, l, h)
      | inl p ↦
          let q : low < high = ground (arith, p) in
          elim (Bool-cases (leb (rank_of x a) mid)) [
            | inl r ↦
                let le : rank_of x a ≤ mid = ground (arith, r) in
                let go = bisect_loop_lem fuel x a low mid s l le (omega (arith, q, f)) in
                ground (arith, p, e, r, go)
            | inr r ↦
                let gt : mid + 1 ≤ rank_of x a = ground (arith, r) in
                let go = bisect_loop_lem fuel x a (mid + 1) high s gt h (omega (arith, q, f)) in
                ground (arith, p, e, r, go)
          ]
    ]

pub bisect_right_lem : (x : ℕ) (a : List ℕ) → IsAscending a → bisect_right a x ≡ rank_of x a
unfolding bisect_right
bisect_right_lem x a s =
    bisect_loop_lem (length a) x a 0 (length a) s (omega arith) (rank_of_le x a) (omega arith)

-- The last observation at or before the instant, by a scan from the front.
abbrev pub last_before : {F : Type 0} → ℕ → List (ℕ × F) → Option F
last_before at [] = none
last_before at (o ∷ os) =
    if ltb at o.0 then none else elim (last_before at os) [ none ↦ some o.1 | some v ↦ some v ]

step_back :
    {F : Type 0} (o : ℕ × F) (os : List (ℕ × F)) (r : ℕ)
    → r ≤ length os
    → observation_before (o ∷ os) (suc r)
      ≡ elim (observation_before os r) [ none ↦ some o.1 | some v ↦ some v ]
step_back o os zero h = refl
step_back o os (suc r) h = let (v, e) = nth_there r os (omega arith) in ground (arith, e)

observation_lem :
    {F : Type 0} (at : ℕ) (series : List (ℕ × F))
    → observation_before series (rank_of at (timestamps series)) ≡ last_before at series
observation_lem {F} at [] = refl
observation_lem {F} at (o ∷ os) =
    let back =
      step_back o os (rank_of at (timestamps os))
        (omega (arith, rank_of_le at (timestamps os), length-map (λ (e : ℕ × F). e.0) os)) in
    let rest = observation_lem at os in ground (arith, back, rest)

-- For observations in ascending order of their instants, the value as of an instant, which the code finds
-- by a binary search, is that of the last observation at or before it, which a scan finds.
pub as_of_value_lem :
    {F : Type 0} (at : ℕ) (series : List (ℕ × F))
    → IsAscending (timestamps series)
    → as_of_value series at ≡ last_before at series
unfolding as_of_value
as_of_value_lem at [] s = refl
as_of_value_lem at (o ∷ os) s =
    ap (observation_before (o ∷ os)) (bisect_right_lem at (timestamps (o ∷ os)) s)
    ∙ observation_lem at (o ∷ os)
