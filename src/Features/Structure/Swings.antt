-- ===== src/Features/Structure/Swings.antt =====
-- `_confirmed_swings` of backend/app/features/structure.py: the pivots, each with the bar from which on
-- it may be used.
use quant_stack.Prelude.{
  nth, ℕ, zero, suc, ◌+◌, ◌-◌, Bool, true, false, ◌&&◌, none, some, List, [], ◌∷◌, map, length,
  if◌then◌else◌,
}
use quant_stack.Prelude.Floats.{Floats}
use quant_stack.Features.Schema.{Candle}

-- `range(i, i + n)`
abbrev pub range_from : ℕ → ℕ → List ℕ
range_from i zero = []
range_from i (suc n) = i ∷ range_from (i + 1) n

-- A swing: `(confirm_index, level)`.
abbrev pub Swing : Type 0 → Type 0
Swing F = ℕ × F

-- `range(k, len(candles) - k)`
abbrev pub pivot_range : ℕ → ℕ → List ℕ
pivot_range k n = range_from k (n - k - k)

module _ {F : Type 0} (fl : Floats F) where
  -- The test on one neighbour, of which the bar `m` exists.
  abbrev pub holds_at : (F → Bool) → List F → ℕ → Bool
  holds_at test xs m = elim (nth m xs) [ none ↦ false | some x ↦ test x ]

  -- `all(test(xs[m]) for m in range(i, i + n))`
  unfoldable pub all_at : (F → Bool) → List F → ℕ → ℕ → Bool
  all_at test xs i zero = true
  all_at test xs i (suc n) = let rest = all_at test xs (i + 1) n in holds_at test xs i && rest

  -- The pivots at the bars `js` of a series, for the order `beats` of a level over its neighbour.
  unfoldable pub pivots : (F → F → Bool) → ℕ → List F → List ℕ → List (Swing F)
  unfolding all_at
  pivots beats k xs [] = []
  pivots beats k xs (j ∷ js) =
      let rest = pivots beats k xs js in
      elim (nth j xs) [
        | none ↦ rest
        | some level ↦
            if all_at (beats level) xs (j - k) (k + k + 1) then (j + k, level) ∷ rest else rest
      ]

  unfoldable pub swing_highs : ℕ → List (Candle F) → List (Swing F)
  unfolding pivots
  swing_highs k candles =
      pivots (λ level x. fl.le x level) k (map (λ c. c.high) candles)
        (pivot_range k (length candles))

  unfoldable pub swing_lows : ℕ → List (Candle F) → List (Swing F)
  unfolding pivots
  swing_lows k candles =
      pivots (λ level x. fl.le level x) k (map (λ c. c.low) candles)
        (pivot_range k (length candles))
