-- ===== src/Features/Structure/Safety/Pivots.antt =====
-- `_confirmed_swings` of backend/app/features/structure.py, when bars are added at the end.
use quant_stack.Prelude.{
  nth, ℕ, zero, suc, ◌+◌, ◌-◌, ◌≤◌, ◌<◌, ◌≡◌, refl, ap, ◌∙◌, Bool, true, false, none, some, List,
  [], ◌∷◌, ◌++◌, arith, All, All-map, length, length-append, length-map, map, if◌then◌else◌,
  Option-cases, inl, inr,
}
use mathlib.Core.List.{map-append}
use quant_stack.Prelude.Floats.{Floats}
use quant_stack.Features.Schema.{Candle}
use quant_stack.Features.Structure.Swings.{Swing, range_from, all_at, pivots, pivot_range}
use quant_stack.Features.Structure.Breaks.{QuietUntil}

nth-append {ℓ} : {A : Type ℓ} (k : ℕ) (xs ys : List A) → k < length xs → nth k (xs ++ ys) ≡ nth k xs
nth-append k [] ys h = absurd (omega arith)
nth-append zero (x ∷ xs) ys h = refl
nth-append (suc k) (x ∷ xs) ys h = nth-append k xs ys (omega arith)

range_from-split : (i m n : ℕ) → range_from i (m + n) ≡ range_from i m ++ range_from (i + m) n
range_from-split i zero n =
    let e : zero + n ≡ n = omega arith in let f : i + 0 ≡ i = omega arith in ground (arith, e, f)
range_from-split i (suc m) n =
    let e : suc m + n ≡ suc (m + n) = omega arith in
    let f : i + 1 + m ≡ i + suc m = omega arith in
    ground (arith, e, f, range_from-split (i + 1) m n)

-- The numbers of a range lie within it.
range_from-within :
    (i n lo hi : ℕ) → lo ≤ i → i + n ≤ hi → All (λ j. (lo ≤ j) × (j < hi)) (range_from i n)
range_from-within i zero lo hi h q = tt
range_from-within i (suc n) lo hi h q =
    ((h, omega arith), range_from-within (i + 1) n lo hi (omega arith) (omega arith))

module _ {F : Type 0} (fl : Floats F) where
  all_at-append :
      (test : F → Bool) (xs ys : List F) (i n : ℕ)
      → i + n ≤ length xs
      → all_at fl test (xs ++ ys) i n ≡ all_at fl test xs i n
  unfolding all_at
  all_at-append test xs ys i zero h = refl
  all_at-append test xs ys i (suc n) h =
      let here = nth-append i xs ys (omega arith) in
      let rest = all_at-append test xs ys (i + 1) n (omega arith) in ground (arith, here, rest)

  -- The pivots of bars that have their neighbours do not change.
  pivots-append :
      (beats : F → F → Bool) (k : ℕ) (xs ys : List F) (js : List ℕ)
      → All (λ j. (k ≤ j) × (j + k < length xs)) js
      → pivots fl beats k (xs ++ ys) js ≡ pivots fl beats k xs js
  unfolding pivots
  pivots-append beats k xs ys [] h = refl
  pivots-append beats k xs ys (j ∷ js) h = elim (Option-cases (nth j xs)) [
    | inl e ↦
        let here = nth-append j xs ys (omega (arith, h.0)) in
        let rest = pivots-append beats k xs ys js h.1 in ground (arith, e, here, rest)
    | inr (x, e) ↦
        let here = nth-append j xs ys (omega (arith, h.0)) in
        let rest = pivots-append beats k xs ys js h.1 in
        let all = all_at-append (beats x) xs ys (j - k) (k + k + 1) (omega (arith, h.0)) in
        ground (arith, e, here, rest, all)
  ]

  pivots-split :
      (beats : F → F → Bool) (k : ℕ) (xs : List F) (is js : List ℕ)
      → pivots fl beats k xs (is ++ js) ≡ pivots fl beats k xs is ++ pivots fl beats k xs js
  unfolding pivots
  pivots-split beats k xs [] js = refl
  pivots-split beats k xs (i ∷ is) js = elim (Option-cases (nth i xs)) [
    | inl e ↦ let rest = pivots-split beats k xs is js in ground (arith, e, rest)
    | inr (x, e) ↦ let rest = pivots-split beats k xs is js in ground (arith, e, rest)
  ]

  if-QuietUntil :
      (n : ℕ) (b : Bool) (e : Swing F) (es : List (Swing F))
      → n ≤ e.0
      → QuietUntil fl n es
      → QuietUntil fl n (if b then e ∷ es else es)
  if-QuietUntil n true e es h q = (h, q)
  if-QuietUntil n false e es h q = q

  pivots-QuietUntil :
      (beats : F → F → Bool) (k n : ℕ) (xs : List F) (js : List ℕ)
      → All (λ j. n ≤ j + k) js
      → QuietUntil fl n (pivots fl beats k xs js)
  unfolding pivots
  pivots-QuietUntil beats k n xs [] h = tt
  pivots-QuietUntil beats k n xs (j ∷ js) h =
      let rest = pivots fl beats k xs js in
      let quiet = pivots-QuietUntil beats k n xs js h.1 in
      elim (nth j xs)
        as (λ o. QuietUntil fl n (elim o [
          | none ↦ rest
          | some level ↦
              if all_at fl (beats level) xs (j - k) (k + k + 1) then (j + k, level) ∷ rest else rest
        ])) [
          | none ↦ quiet
          | some level ↦
              if-QuietUntil n (all_at fl (beats level) xs (j - k) (k + k + 1)) (j + k, level) rest
                h.0 quiet
        ]

  -- The swings of more bars are those of the first bars, and later ones.
  pub pivots-more :
      (beats : F → F → Bool) (k : ℕ) (f : Candle F → F) (cs ds : List (Candle F))
      → (later : List (Swing F)) × (pivots fl beats k
            (map f (cs ++ ds))
            (pivot_range k (length (cs ++ ds)))
          ≡ pivots fl beats k (map f cs) (pivot_range k (length cs)) ++ later)
        × QuietUntil fl (length cs) later
  pivots-more beats k f cs ds =
      let all = map f cs ++ map f ds in
      let n = length cs in
      let m = n - k - k in
      let q = (length (cs ++ ds) - k - k) - m in
      let old = range_from k m in
      let new = range_from (k + m) q in
      let total : length (cs ++ ds) - k - k ≡ m + q = omega (arith, length-append cs ds) in
      let split : range_from k (length (cs ++ ds) - k - k) ≡ old ++ new =
        ap (range_from k) total ∙ range_from-split k m q in
      let short : All (λ j. (k ≤ j) × (j + k < length (map f cs))) old =
        All-map old (λ j h. (h.0, omega (arith, h.1, h.0, length-map f cs)))
          (range_from-within k m k (k + m) (omega arith) (omega arith)) in
      let first = pivots-append beats k (map f cs) (map f ds) old short in
      let late : All (λ j. n ≤ j + k) new =
        All-map new (λ j h. omega (arith, h.0))
          (range_from-within (k + m) q (k + m) (k + m + q) (omega arith) (omega arith)) in
      (
        pivots fl beats k all new,
        ap (λ l. pivots fl beats k l (pivot_range k (length (cs ++ ds)))) (map-append f cs ds)
            ∙ ap (pivots fl beats k all) split
            ∙ pivots-split beats k all old new
            ∙ ap (λ r. r ++ pivots fl beats k all new) first,
        pivots-QuietUntil beats k n all new late,
      )
