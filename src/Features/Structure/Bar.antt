-- ===== src/Features/Structure/Bar.antt =====
-- One round of the loop of `compute_structure_daily`: the swings, the trend, the breaks, and the rest.
use quant_stack.Prelude.{
  ℕ, ◌+◌, Bool, true, false, not, ◌&&◌, ◌||◌, Option, none, some, List, [], ◌∷◌, map, leb,
  if◌then◌else◌,
}
use quant_stack.Prelude.Floats.{Floats, gt, lt, eq, abs_of, max_of, sum_of}
use quant_stack.Prelude.Int.{pos}
use quant_stack.Features.Schema.{Candle}
use quant_stack.Features.Structure.Swings.{Swing}
use quant_stack.Features.Structure.Measures.{
  Sign, Gap, head_of, value_of, liquidity_of, levels_of, gaps_after, ranges_after, atr_of,
  order_block_after, order_block_distance_of, bias_of, breakout_of, sweep_of, bias_at, breakout_at,
  up, down, flat,
}

-- The values of a bar.
pub record Row (F : Type 0) : Type 0 where
  pub swing_high : Option F
  pub swing_low : Option F
  pub trend : Option Sign
  pub higher_highs : Option ℕ
  pub lower_lows : Option ℕ
  pub bos : Sign
  pub choch : Sign
  pub liquidity_distance : Option F
  pub fvg_net : F
  pub order_block_distance : Option F
  pub bias : Option F
  pub breakout_prob : Option F
  pub sweep_prob : Option F

-- The variables of the loop; `previous` and `true_ranges` are what it reads of the bars before.
pub record State (F : Type 0) : Type 0 where
  pub index : ℕ
  pub previous : List (Candle F)
  pub true_ranges : List F
  pub high_events : List (Swing F)
  pub low_events : List (Swing F)
  pub highs_seen : List F
  pub lows_seen : List F
  pub hh_run : ℕ
  pub ll_run : ℕ
  pub broken_high : Option F
  pub broken_low : Option F
  pub last_bos : Option (ℕ × Sign)
  pub open_gaps : List (Gap F)
  pub last_order_block : Option F

-- What the two `while` loops keep of one side: the events left, the levels, the run, the broken level.
pub record Side (F : Type 0) : Type 0 where
  pub events : List (Swing F)
  pub seen : List F
  pub streak : ℕ
  pub broken : Option F

module _ {F : Type 0} (fl : Floats F) where
  -- `math.isclose(a, b)`, with its relative tolerance of 1e-09.
  unfoldable pub is_close : F → F → Bool
  is_close a b =
      eq fl a b
      || fl.le (abs_of fl (fl.sub a b))
          (fl.mul (fl.lit (pos 1) 9) (max_of fl (abs_of fl a) (abs_of fl b)))

  -- A confirmed level, where `beats new old` continues the run.
  unfoldable pub see : (F → F → Bool) → F → Side F → Side F
  unfolding is_close
  see beats level s = elim s.seen [
    | [] ↦ record s { seen = level ∷ []; streak = 0; broken = none }
    | last ∷ older ↦ if is_close level last then s else record s {
      seen = level ∷ last ∷ older;
      streak = if beats level last then s.streak + 1 else 0;
      broken = none;
    }
  ]

  -- The `while` loop of one side at bar `i`.
  unfoldable pub confirm : (F → F → Bool) → ℕ → List (Swing F) → Side F → Side F
  unfolding see
  confirm beats i [] s = record s { events = [] }
  confirm beats i ((at, level) ∷ events) s =
      let rest = confirm beats i events (see beats level s) in
      if leb at i then rest else record s { events = (at, level) ∷ events }

  unfoldable pub trend_of : List F → List F → Option Sign
  trend_of (h ∷ h' ∷ hs) (l ∷ l' ∷ ls) =
      some
        (if gt fl h h' && gt fl l l' then up else if lt fl h h' && lt fl l l' then down else flat)
  trend_of _ _ = none

  -- `broken != last`
  abbrev pub unbroken : Option F → F → Bool
  unbroken none last = true
  unbroken (some b) last = not (eq fl b last)

  -- `last is not None and close > last and broken != last`
  unfoldable pub breaks_high : Option F → Option F → F → Bool
  breaks_high none broken close = false
  breaks_high (some last) broken close = gt fl close last && unbroken broken last

  unfoldable pub breaks_low : Option F → Option F → F → Bool
  breaks_low none broken close = false
  breaks_low (some last) broken close = lt fl close last && unbroken broken last

  unfoldable pub bos_of : Side F → Side F → F → Sign
  unfolding breaks_high breaks_low
  bos_of highs lows close =
      if breaks_high (head_of highs.seen) highs.broken close
      then up
      else if breaks_low (head_of lows.seen) lows.broken close
      then down
      else flat

  -- A break against the prevailing trend.
  abbrev pub choch_of : Sign → Option Sign → Sign
  choch_of up (some down) = up
  choch_of down (some up) = down
  choch_of _ _ = flat

  -- The run of a side, from its first level on.
  abbrev pub run_of : Side F → Option ℕ
  run_of s = elim s.seen [ [] ↦ none | l ∷ ls ↦ some s.streak ]

  abbrev pub high_side : State F → Side F
  high_side s = record {
    events = s.high_events;
    seen = s.highs_seen;
    streak = s.hh_run;
    broken = s.broken_high;
  }

  abbrev pub low_side : State F → Side F
  low_side s = record {
    events = s.low_events;
    seen = s.lows_seen;
    streak = s.ll_run;
    broken = s.broken_low;
  }

  -- The level that a break leaves as broken.
  abbrev pub broken_after : Sign → Sign → Side F → Option F
  broken_after up up side = head_of side.seen
  broken_after down down side = head_of side.seen
  broken_after _ _ side = side.broken

  -- The sides at a bar, after the two `while` loops.
  abbrev pub highs_at : State F → Side F
  highs_at s = confirm (λ new old. gt fl new old) s.index s.high_events (high_side s)

  abbrev pub lows_at : State F → Side F
  lows_at s = confirm (λ new old. lt fl new old) s.index s.low_events (low_side s)

  -- `last_bos_bar` and `last_bos_direction` after bar `i`.
  abbrev pub last_break : Sign → ℕ → Option (ℕ × Sign) → Option (ℕ × Sign)
  last_break flat i last = last
  last_break up i last = some (i, up)
  last_break down i last = some (i, down)

  -- The rest of the round, once the sides and the break are known.
  unfoldable pub settle : State F → Candle F → Side F → Side F → Sign → State F × Row F
  unfolding trend_of liquidity_of gaps_after ranges_after atr_of order_block_after
      order_block_distance_of bias_of breakout_of sweep_of
  settle s c highs lows bos =
      let trend = trend_of highs.seen lows.seen in
      let distance = liquidity_of fl (levels_of fl highs.seen lows.seen) c.close in
      let gaps = gaps_after fl c s.previous s.open_gaps in
      let ranges = ranges_after fl c s.previous s.true_ranges in
      let block = order_block_after fl c s.previous (atr_of fl s.index ranges) s.last_order_block in
      let last = last_break bos s.index s.last_bos in
      let bias = bias_at fl s.index trend last highs.streak lows.streak in
      (
        record {
          index = s.index + 1;
          previous = c ∷ s.previous;
          true_ranges = ranges;
          high_events = highs.events;
          low_events = lows.events;
          highs_seen = highs.seen;
          lows_seen = lows.seen;
          hh_run = highs.streak;
          ll_run = lows.streak;
          broken_high = broken_after up bos highs;
          broken_low = broken_after down bos lows;
          last_bos = last;
          open_gaps = gaps;
          last_order_block = block;
        },
        record {
          swing_high = head_of highs.seen;
          swing_low = head_of lows.seen;
          trend = trend;
          higher_highs = run_of highs;
          lower_lows = run_of lows;
          bos = bos;
          choch = choch_of bos trend;
          liquidity_distance = distance;
          fvg_net = sum_of fl (map (λ g. value_of fl g.direction) gaps);
          order_block_distance = order_block_distance_of fl block c.close;
          bias = bias;
          breakout_prob = breakout_at fl bias (head_of highs.seen) c.close;
          sweep_prob = sweep_of fl distance;
        },
      )

  -- The round of the bar `c`.
  unfoldable pub step : State F → Candle F → State F × Row F
  unfolding confirm bos_of settle
  step s c = settle s c (highs_at s) (lows_at s) (bos_of (highs_at s) (lows_at s) c.close)
