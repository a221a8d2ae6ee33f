-- ===== src/Prediction/Labeling/Tests.antt =====
-- Labels at concrete inputs, with prices in whole numbers for the floats.
use quant_stack.Prelude.{
  All, nth, ℕ, zero, suc, ◌+◌, ◌*◌, ◌<◌, ◌≡◌, refl, true, false, some, List, [], ◌∷◌, ◌++◌, length,
}
use quant_stack.Prelude.Floats.Thousandths.{thousandths, thousandths-IsOrdered}
use quant_stack.Features.Schema.{Candle}
use quant_stack.Prediction.Labeling.{
  BarrierConfig, Label, Entry, profit_target, trailing_stop, partial_success, win, past, is_zero,
  profit_price, fixed_stop_price, label_forward, label_single_entry, breach_price, resolve, walk,
  examine, ratchet, touch_exit,
}
use quant_stack.Prediction.Labeling.Exits.{reaches_target, label-append, label-win}
use quant_stack.Prediction.Labeling.Trailing.{label-stop}
use quant_stack.Prediction.Labeling.History.{Query, IsLabelOf, label_history, label_history_lem}

-- A long trade at 100, with its target at 104 and its stop at 100.
abbrev config : BarrierConfig ℕ
config = record {
  profit_target_pct = 40;
  stop_pct = 0;
  max_holding_bars = 3;
  trail_activation_pct = 500;
  trail_pct = 400;
}

abbrev trade : Entry ℕ
trade = record {
  entry_price = 100000;
  entry_ts = 0;
  direction = "long";
  config = config;
  symbol = "INFY";
  timeframe = "D";
  event_barrier_dates = [];
  liquidity_barrier_dates = [];
}

abbrev bar : ℕ → ℕ → ℕ → ℕ → Candle ℕ
bar ts low close high = record {
  ts = ts;
  open_price = close;
  high = high;
  low = low;
  close = close;
  volume = 0;
}

abbrev rising : List (Candle ℕ)
rising = bar 86400 100500 101000 103000 ∷ bar 172800 103000 103500 105000 ∷ []

abbrev falling : List (Candle ℕ)
falling = bar 86400 100500 101000 103000 ∷ bar 172800 99000 101500 102000 ∷ []

abbrev won : Label ℕ
won = record {
  symbol = "INFY";
  timeframe = "D";
  direction = "long";
  entry_ts = 0;
  entry_price = 100000;
  exit_ts = 172800;
  exit_price = 104000;
  exit_reason = profit_target;
  exit_return_pct = 4000;
  label = win;
  label_quality = 10;
  bars_held = 2;
  barrier_config = config;
  gap = false;
  ambiguous = false;
}

wins : label_single_entry thousandths trade rising ≡ some won
unfolding label_single_entry label_forward walk examine ratchet touch_exit breach_price resolve
wins = refl

-- Stopped by the trail, above its entry.
abbrev trailed : Label ℕ
trailed = record won {
  exit_price = 101352;
  exit_reason = trailing_stop;
  exit_return_pct = 1300;
  label = partial_success;
}

trails : label_single_entry thousandths trade falling ≡ some trailed
unfolding label_single_entry label_forward walk examine ratchet touch_exit breach_price resolve
trails = refl

label-append_example : label_single_entry thousandths trade (rising ++ falling) ≡ some won
label-append_example = label-append thousandths trade rising falling won wins refl

label-win_example :
    (k : ℕ) × (c : Candle ℕ) × (2 ≡ suc k)
    × (k < 3)
    × (nth k rising ≡ some c)
    × (172800 ≡ c.ts)
    × (104000 ≡ profit_price thousandths trade)
    × (reaches_target thousandths trade c ≡ true)
label-win_example = label-win thousandths trade rising won wins refl

label-stop_example :
    (p : ℕ) × (101352 ≡ p) × (past thousandths true p (fixed_stop_price thousandths trade) ≡ true)
label-stop_example =
    label-stop thousandths thousandths-IsOrdered trade falling trailed trails refl refl

-- 24 candles, of which the last three can be entries.
abbrev series : ℕ → List (Candle ℕ)
series zero = []
series (suc n) = bar (n * 86400) 99000 100000 101000 ∷ series n

series-priced : (n : ℕ) → All (λ c. is_zero thousandths c.close ≡ false) (series n)
series-priced zero = tt
series-priced (suc n) = (refl, series-priced n)

abbrev query : Query
query = record {
  symbol = "INFY";
  timeframe = "D";
  direction = "long";
  lookback_bars = 2;
  max_holding_bars = 3;
  event_dates = [];
  liquidity_dates = [];
}

label_history_lem_example :
    (ls : List (Label ℕ)) × (label_history thousandths query (series 24) ≡ some ls)
    × (length ls ≡ 2)
    × ((j : ℕ) (l : Label ℕ)
        → nth j ls ≡ some l
        → IsLabelOf thousandths query (series 24) (21 + j) l)
label_history_lem_example = label_history_lem thousandths query (series 24) (series-priced 24)
