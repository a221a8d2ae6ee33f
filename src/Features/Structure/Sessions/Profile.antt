-- ===== src/Features/Structure/Sessions/Profile.antt =====
-- The volume profile of `_session_features`: thirty bins, the point of control and the value area around
-- it, which a loop widens towards the heavier side.
use quant_stack.Prelude.{
  ℕ, zero, suc, ◌+◌, ◌-◌, Bool, ◌&&◌, ◌||◌, Option, none, some, List, [], ◌∷◌, nth, ltb,
  if◌then◌else◌,
}
use Prim.Native.Nat.{min}
use quant_stack.Prelude.Int.{ℤ, pos, negsuc}
use quant_stack.Prelude.Floats.{Floats, gt, lt, num, minus, sum_of}

-- `value_area_width` and `poc_distance`
pub record ProfileRow (F : Type 0) : Type 0 where
  pub value_area_width : Option F
  pub poc_distance : Option F

-- The variables of the loop.
pub record ValueArea (F : Type 0) : Type 0 where
  pub low_index : ℕ
  pub high_index : ℕ
  pub covered : F

-- `min(i, 29)` as an index of thirty bins: a negative one counts from the end.
abbrev pub bin_index : ℤ → Option ℕ
bin_index (pos n) = some (min n 29)
bin_index (negsuc n) = if ltb n 30 then some (29 - n) else none

module _ {F : Type 0} (fl : Floats F) where
  -- `bins[i] += w`
  unfoldable pub add_at : ℕ → F → List F → List F
  add_at i w [] = []
  add_at zero w (b ∷ bins) = fl.add b w ∷ bins
  add_at (suc i) w (b ∷ bins) = b ∷ add_at i w bins

  unfoldable pub fill : F → F → List F → List F → List F → Option (List F)
  unfolding add_at
  fill low width (c ∷ closes) (w ∷ ws) bins =
      elim (bin_index (fl.trunc (fl.div (fl.sub c low) width))) [
        | none ↦ none
        | some i ↦ fill low width closes ws (add_at i w bins)
      ]
  fill low width _ _ bins = some bins

  -- The index of the first largest of the bins, where `best` with `top` is the largest of those before `i`.
  unfoldable pub poc_from : ℕ → ℕ → F → List F → ℕ
  poc_from i best top [] = best
  poc_from i best top (b ∷ bins) =
      if gt fl b top then poc_from (i + 1) i b bins else poc_from (i + 1) best top bins

  -- `bins[i] if there else -1.0`
  abbrev pub bin_or_less : Bool → ℕ → List F → F
  bin_or_less there i bins =
      if there
      then elim (nth i bins) [ none ↦ minus fl (fl.lit (pos 1) 0) | some b ↦ b ]
      else minus fl (fl.lit (pos 1) 0)

  -- The side that a round takes is the upper one.
  abbrev pub goes_up : ℕ → List F → ValueArea F → Bool
  goes_up last bins a =
      fl.le (bin_or_less (ltb 0 a.low_index) (a.low_index - 1) bins)
        (bin_or_less (ltb a.high_index last) (a.high_index + 1) bins)

  -- The `while` loop, within `fuel` rounds, over bins up to `last`. An index that is out of range raises.
  unfoldable pub widen : ℕ → F → ℕ → List F → ValueArea F → Option (ValueArea F)
  widen zero target last bins a = some a
  widen (suc fuel) target last bins a =
      if lt fl a.covered target && (ltb 0 a.low_index || ltb a.high_index last)
      then (if goes_up last bins a
          then elim (nth (a.high_index + 1) bins) [
            | none ↦ none
            | some b ↦ widen fuel target last bins (record {
              low_index = a.low_index;
              high_index = a.high_index + 1;
              covered = fl.add a.covered b;
            })
          ]
          else elim (nth (a.low_index - 1) bins) [
            | none ↦ none
            | some b ↦ widen fuel target last bins (record {
              low_index = a.low_index - 1;
              high_index = a.high_index;
              covered = fl.add a.covered b;
            })
          ])
      else some a

  -- Thirty bins of 0.
  abbrev pub empty_bins : ℕ → List F
  empty_bins zero = []
  empty_bins (suc n) = fl.lit (pos 0) 1 ∷ empty_bins n

  -- The width of the value area, in percent of the close, and the distance from the point of control.
  unfoldable pub measured : F → F → F → ℕ → ValueArea F → ProfileRow F
  measured low width close poc_index a =
      let poc = fl.add low (fl.mul (fl.add (num fl poc_index) (fl.lit (pos 5) 1)) width) in
      record {
        value_area_width = some (
            fl.mul (fl.div (fl.mul (num fl (a.high_index - a.low_index + 1)) width) close)
              (num fl 100));
        poc_distance =
            if gt fl poc (num fl 0)
            then some (fl.mul (fl.div (fl.sub close poc) poc) (num fl 100))
            else none;
      }

  -- The area around the point of control of bins that are there.
  unfoldable pub area_of : ℕ → F → List F → Option (ValueArea F)
  unfolding widen
  area_of poc_index top bins =
      widen 30 (fl.mul (fl.lit (pos 70) 2) (sum_of fl bins)) 29 bins
        (record { low_index = poc_index; high_index = poc_index; covered = top })

  unfoldable pub profile_of : F → F → F → List F → List F → Option (ProfileRow F)
  unfolding fill poc_from area_of measured
  profile_of low range close closes ws =
      let width = fl.div range (num fl 30) in
      elim (fill low width closes ws (empty_bins 30)) [
        | none ↦ none
        | some [] ↦ none
        | some (b ∷ bins) ↦
            let poc_index = poc_from 1 0 b bins in
            elim (nth poc_index (b ∷ bins)) [
              | none ↦ none
              | some top ↦ elim (area_of poc_index top (b ∷ bins)) [
                | none ↦ none
                | some a ↦ some (measured low width close poc_index a)
              ]
            ]
      ]
