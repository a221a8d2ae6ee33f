-- ===== src/Features/Structure/Sessions/Area.antt =====
-- The value area of a session, and the bounds of its positions.
use quant_stack.Prelude.{
  ℕ, zero, suc, ◌+◌, ◌-◌, ◌≤◌, ◌<◌, ◌≡◌, ◌⊎◌, refl, subst, true, false, ◌&&◌, ◌||◌, some, List, [],
  ◌∷◌, nth, nth_there, length, ltb, arith, All, Bool-cases, inl, inr,
}
use quant_stack.Prelude.Int.{pos}
use quant_stack.Prelude.Floats.{Floats, IsOrdered, lt, minus, sum_of}
use quant_stack.Features.Structure.Sessions.Profile.{ValueArea, goes_up, widen, area_of}

nth-All {ℓ κ} :
    {A : Type ℓ} (P : A → Type κ) (i : ℕ) (xs : List A) (x : A) → All P xs → nth i xs ≡ some x → P x
nth-All P i [] x h e = absurd (ground (arith, e))
nth-All P zero (y ∷ ys) x h e = subst P (ground (arith, e)) h.0
nth-All P (suc i) (y ∷ ys) x h e = nth-All P i ys x h.1 e

module _ {F : Type 0} (fl : Floats F) where
  -- A bin is worth more than the -1.0 that stands for none.
  abbrev pub IsFilled : F → Type 0
  IsFilled b = fl.le b (minus fl (fl.lit (pos 1) 0)) ≡ false

  -- The area holds the point of control, lies within the bins, and has its target or all bins.
  pub record IsValueArea (poc_index last : ℕ) (target : F) (a : ValueArea F) : Type 0 where
    pub from_poc : a.low_index ≤ poc_index
    pub to_poc : poc_index ≤ a.high_index
    pub within : a.high_index ≤ last
    pub enough : (lt fl a.covered target ≡ false) ⊎ ((a.low_index ≡ 0) × (a.high_index ≡ last))

  module _ (o : IsOrdered fl) (last : ℕ) (target : F) (bins : List F) (filled : All IsFilled bins)
      (size : length bins ≡ suc last) where
    bin_there : (i : ℕ) → i ≤ last → (b : F) × (nth i bins ≡ some b) × IsFilled b
    bin_there i h =
        let (b, e) = nth_there i bins (omega (arith, size, h)) in
        (b, e, nth-All IsFilled i bins b filled e)

    -- The loop goes up only where there is a bin above, and down only where there is one below.
    up_there :
        (a : ValueArea F)
        → a.low_index ≤ last
        → (ltb 0 a.low_index || ltb a.high_index last) ≡ true
        → goes_up fl last bins a ≡ true
        → a.high_index < last
    up_there a w m u = elim (Bool-cases (ltb a.high_index last)) [
      | inl p ↦ ground (arith, p)
      | inr p ↦
          let low : 0 < a.low_index = ground (arith, p, m) in
          let (b, e, f) = bin_there (a.low_index - 1) (omega (arith, w)) in
          absurd (ground (arith, p, low, e, f, u))
    ]

    down_there : (a : ValueArea F) → goes_up fl last bins a ≡ false → 0 < a.low_index
    down_there a u = elim (Bool-cases (ltb 0 a.low_index)) [
      | inl p ↦ ground (arith, p)
      | inr p ↦ elim (Bool-cases (ltb a.high_index last)) [
        | inr q ↦ absurd (ground (arith, p, q, u, o.reflexive (minus fl (fl.lit (pos 1) 0))))
        | inl q ↦
            let h : a.high_index < last = ground (arith, q) in
            let (b, e, f) = bin_there (a.high_index + 1) (omega (arith, h)) in
            let above = o.total b (minus fl (fl.lit (pos 1) 0)) f in
            absurd (ground (arith, p, q, u, e, above))
      ]
    ]

    stops :
        (a : ValueArea F)
        → a.high_index ≤ last
        → (lt fl a.covered target && (ltb 0 a.low_index || ltb a.high_index last)) ≡ false
        → (lt fl a.covered target ≡ false) ⊎ ((a.low_index ≡ 0) × (a.high_index ≡ last))
    stops a w p = elim (Bool-cases (lt fl a.covered target)) [
      | inr q ↦ inl q
      | inl q ↦ inr (ground (arith, p, q), ground (arith, p, q, w))
    ]

    -- With fuel for every bin that is left, the loop ends without an index out of range.
    widen_lem :
        (fuel poc_index : ℕ) (a : ValueArea F)
        → a.low_index ≤ poc_index
        → poc_index ≤ a.high_index
        → a.high_index ≤ last
        → a.low_index + (last - a.high_index) ≤ fuel
        → (a' : ValueArea F) × (widen fl fuel target last bins a ≡ some a')
          × IsValueArea poc_index last target a'
    unfolding widen
    widen_lem zero poc_index a l h w f = (
      a,
      refl,
      record {
        from_poc = l;
        to_poc = h;
        within = w;
        enough = inr (omega (arith, f), omega (arith, f, w));
      },
    )
    widen_lem (suc fuel) poc_index a l h w f =
        elim (Bool-cases (lt fl a.covered target && (ltb 0 a.low_index || ltb a.high_index last))) [
          | inr p ↦ (
            a,
            ground (arith, p),
            record { from_poc = l; to_poc = h; within = w; enough = stops a w p },
          )
          | inl p ↦ elim (Bool-cases (goes_up fl last bins a)) [
            | inl u ↦
                let more : a.high_index < last =
                  up_there a (omega (arith, l, h, w)) (ground (arith, p)) u in
                let (b, e, filled_b) = bin_there (a.high_index + 1) (omega (arith, more)) in
                let next : ValueArea F = record {
                  low_index = a.low_index;
                  high_index = a.high_index + 1;
                  covered = fl.add a.covered b;
                } in
                let (a', r, good) =
                  widen_lem fuel poc_index next l (omega (arith, h)) (omega (arith, more))
                    (omega (arith, f, more)) in
                (a', ground (arith, p, u, e, r), good)
            | inr u ↦
                let more : 0 < a.low_index = down_there a u in
                let (b, e, filled_b) = bin_there (a.low_index - 1) (omega (arith, l, h, w)) in
                let next : ValueArea F = record {
                  low_index = a.low_index - 1;
                  high_index = a.high_index;
                  covered = fl.add a.covered b;
                } in
                let (a', r, good) =
                  widen_lem fuel poc_index next (omega (arith, l)) h w (omega (arith, f, more)) in
                (a', ground (arith, p, u, e, r), good)
          ]
        ]

  -- If `<=` is a total order, then for thirty bins that are each above -1 (a sum of weights is), from
  -- any of them and with any weight to begin with, the loop ends and no index is out of range; the value
  -- area that it leaves holds the bin it began with, lies within the profile, and has at least seven
  -- tenths of all weight by its running sum, or is the whole profile.
  pub area_of_lem :
      (o : IsOrdered fl) (poc_index : ℕ) (top : F) (bins : List F)
      → All IsFilled bins
      → length bins ≡ 30
      → poc_index < 30
      → (a : ValueArea F) × (area_of fl poc_index top bins ≡ some a)
        × IsValueArea poc_index 29 (fl.mul (fl.lit (pos 70) 2) (sum_of fl bins)) a
  unfolding area_of
  area_of_lem o poc_index top bins filled size p =
      widen_lem o 29 (fl.mul (fl.lit (pos 70) 2) (sum_of fl bins)) bins filled size 30 poc_index
        (record { low_index = poc_index; high_index = poc_index; covered = top }) (omega arith)
        (omega arith) (omega (arith, p)) (omega (arith, p))
