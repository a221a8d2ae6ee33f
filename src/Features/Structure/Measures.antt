-- ===== src/Features/Structure/Measures.antt =====
-- What the loop of `compute_structure_daily` measures at a bar: levels, gaps, order blocks, and the blend of
-- them.
use quant_stack.Prelude.{
  ℕ, ◌-◌, Bool, ◌&&◌, Option, none, some, List, [], ◌∷◌, ◌++◌, map, reverse, take, leb,
  if◌then◌else◌, last_slice,
}
use quant_stack.Prelude.Floats.{
  Floats, gt, lt, num, minus, abs_of, max_of, min_of, between, min_from,
}
use quant_stack.Prelude.Int.{pos}
use quant_stack.Features.Schema.{Candle}

-- 1.0, -1.0 and 0.0, where they are signals.
pub data Sign : Type 0 where
  up down flat : Sign

-- A fair value gap: `(top, bottom, direction)`.
pub record Gap (F : Type 0) : Type 0 where
  pub top : F
  pub bottom : F
  pub direction : Sign

abbrev pub head_of {ℓ} : {A : Type ℓ} → List A → Option A
head_of [] = none
head_of (x ∷ xs) = some x

module _ {F : Type 0} (fl : Floats F) where
  abbrev pub value_of : Sign → F
  value_of up = fl.lit (pos 10) 1
  value_of down = minus fl (fl.lit (pos 10) 1)
  value_of flat = fl.lit (pos 0) 1

  -- The `LIQUIDITY_LEVELS` last levels of each side, oldest first.
  abbrev pub levels_of : List F → List F → List F
  levels_of highs lows = reverse (take 5 highs) ++ reverse (take 5 lows)

  unfoldable pub liquidity_of : List F → F → Option F
  liquidity_of [] close = none
  liquidity_of (l ∷ ls) close =
      if gt fl close (num fl 0)
      then some (
          fl.mul
            (fl.div
              (min_from fl (abs_of fl (fl.sub l close)) (map (λ x. abs_of fl (fl.sub x close)) ls))
              close)
            (num fl 100))
      else none

  -- The gap that the bar makes with the one before the last.
  unfoldable pub new_gap : Candle F → List (Candle F) → List (Gap F)
  new_gap c (b ∷ a ∷ rest) =
      if gt fl c.low a.high
      then record { top = c.low; bottom = a.high; direction = up } ∷ []
      else if lt fl c.high a.low
      then record { top = a.low; bottom = c.high; direction = down } ∷ []
      else []
  new_gap c _ = []

  abbrev pub is_filled : Candle F → Gap F → Bool
  is_filled c g =
      let midpoint = fl.div (fl.add g.top g.bottom) (num fl 2) in
      fl.le c.low midpoint && fl.le midpoint c.high

  unfoldable pub still_open : Candle F → List (Gap F) → List (Gap F)
  still_open c [] = []
  still_open c (g ∷ gs) = if is_filled c g then still_open c gs else g ∷ still_open c gs

  -- The open gaps after the bar, oldest first, of the `FVG_LOOKBACK` last ones.
  unfoldable pub gaps_after : Candle F → List (Candle F) → List (Gap F) → List (Gap F)
  unfolding new_gap still_open
  gaps_after c previous gaps = still_open c (last_slice 100 (gaps ++ new_gap c previous))

  -- `true_ranges[i]`, of the bar and its predecessor.
  unfoldable pub true_range : Candle F → Candle F → F
  true_range c prev =
      max_of fl (max_of fl (fl.sub c.high c.low) (abs_of fl (fl.sub c.high prev.close)))
        (abs_of fl (fl.sub c.low prev.close))

  -- The true ranges up to the bar, newest first; that of the first bar is 0.
  unfoldable pub ranges_after : Candle F → List (Candle F) → List F → List F
  unfolding true_range
  ranges_after c [] ranges = fl.lit (pos 0) 1 ∷ ranges
  ranges_after c (prev ∷ rest) ranges = true_range c prev ∷ ranges

  -- `atr[i]`, from `ATR_WINDOW` on.
  unfoldable pub atr_of : ℕ → List F → Option F
  atr_of i ranges = if leb 14 i then some (fl.fmean (reverse (take 14 ranges))) else none

  abbrev pub middle : Candle F → F
  middle c = fl.div (fl.add c.high c.low) (num fl 2)

  -- The order block after the bar.
  unfoldable pub order_block_after : Candle F → List (Candle F) → Option F → Option F → Option F
  order_block_after c (prev ∷ rest) (some atr) block =
      let impulse = fl.sub c.close prev.close in
      if gt fl impulse atr && lt fl prev.close prev.open_price
      then some (middle prev)
      else if lt fl impulse (minus fl atr) && gt fl prev.close prev.open_price
      then some (middle prev)
      else block
  order_block_after c _ _ block = block

  unfoldable pub order_block_distance_of : Option F → F → Option F
  order_block_distance_of none close = none
  order_block_distance_of (some block) close =
      if gt fl close (num fl 0)
      then some (fl.mul (fl.div (fl.sub close block) block) (num fl 100))
      else none

  -- The last break, decayed over `BOS_DECAY_BARS`.
  unfoldable pub decayed : ℕ → Option (ℕ × Sign) → F
  decayed i none = fl.lit (pos 0) 1
  decayed i (some (bar, direction)) =
      if leb (i - bar) 10
      then fl.mul (value_of direction) (fl.sub (num fl 1) (fl.div (num fl (i - bar)) (num fl 10)))
      else fl.lit (pos 0) 1

  -- The difference of the runs, as a float.
  abbrev pub run_balance : ℕ → ℕ → F
  run_balance hh ll = fl.sub (num fl hh) (num fl ll)

  unfoldable pub bias_of : ℕ → Sign → Option (ℕ × Sign) → ℕ → ℕ → F
  unfolding decayed
  bias_of i trend last_bos hh ll = between fl (minus fl (fl.lit (pos 1) 0)) (fl.lit (pos 1) 0) (
      fl.add
        (fl.add (fl.mul (fl.lit (pos 5) 1) (value_of trend))
          (fl.mul (fl.lit (pos 3) 1) (decayed i last_bos)))
        (fl.mul (fl.lit (pos 2) 1) (fl.tanh (fl.div (run_balance hh ll) (num fl 3)))))

  -- Both probabilities are kept between 0.05 and 0.95.
  abbrev pub probability : F → F
  probability p = between fl (fl.lit (pos 5) 2) (fl.lit (pos 95) 2) p

  abbrev pub nearness : F → F
  nearness distance =
      fl.sub (num fl 1) (fl.div (min_of fl distance (fl.lit (pos 2) 0)) (fl.lit (pos 2) 0))

  unfoldable pub breakout_of : F → Option F → F → Option F
  breakout_of bias none close = none
  breakout_of bias (some last_high) close =
      if gt fl close (num fl 0)
      then some (
          probability (
            fl.add (fl.add (fl.lit (pos 5) 1) (fl.mul (fl.lit (pos 3) 1) bias)) (
              fl.mul (fl.lit (pos 2) 1) (
                nearness
                  (fl.mul (fl.div (abs_of fl (fl.sub last_high close)) close) (num fl 100))))))
      else none

  unfoldable pub sweep_of : Option F → Option F
  sweep_of none = none
  sweep_of (some distance) =
      some
        (probability (fl.add (fl.lit (pos 15) 2) (fl.mul (fl.lit (pos 7) 1) (nearness distance))))

  -- Without a trend there is no bias, and without a bias no breakout probability.
  abbrev pub bias_at : ℕ → Option Sign → Option (ℕ × Sign) → ℕ → ℕ → Option F
  bias_at i none last hh ll = none
  bias_at i (some trend) last hh ll = some (bias_of i trend last hh ll)

  abbrev pub breakout_at : Option F → Option F → F → Option F
  breakout_at none last_high close = none
  breakout_at (some bias) last_high close = breakout_of bias last_high close
