-- ===== src/Features/Structure.antt =====
-- backend/app/features/structure.py, the daily pass: price structure, bar by bar, before the rolling
-- normalization of its series. The lists that the loop appends to stand newest first.
pub mod Swings
pub mod Measures
pub mod Bar
pub mod Sessions
mod Tests
pub mod Safety
pub mod Bounds
pub mod Breaks
use quant_stack.Prelude.{ℕ, zero, suc, ◌+◌, ◌-◌, Option, none, List, [], ◌∷◌, length}
use quant_stack.Prelude.Floats.{Floats}
use quant_stack.Features.Schema.{Candle}
use Swings.{swing_highs, swing_lows}
use Bar.{Row, State, step}

module _ {F : Type 0} (fl : Floats F) where
  -- The variables before the loop.
  unfoldable pub start : ℕ → List (Candle F) → State F
  unfolding swing_highs swing_lows
  start k candles = record {
    index = 0;
    previous = [];
    true_ranges = [];
    high_events = swing_highs fl k candles;
    low_events = swing_lows fl k candles;
    highs_seen = [];
    lows_seen = [];
    hh_run = 0;
    ll_run = 0;
    broken_high = none;
    broken_low = none;
    last_bos = none;
    open_gaps = [];
    last_order_block = none;
  }

  -- The loop over the bars.
  unfoldable pub rows_from : State F → List (Candle F) → List (Row F)
  unfolding step
  rows_from s [] = []
  rows_from s (c ∷ cs) = let (s', row) = step fl s c in row ∷ rows_from s' cs

  -- `compute_structure_daily` with pivots of `k` bars on each side.
  unfoldable pub compute_structure_daily : ℕ → List (Candle F) → List (Row F)
  unfolding start rows_from
  compute_structure_daily k candles = rows_from (start k candles) candles
