-- ===== src/Collectors/TickAggregator.antt =====
-- backend/app/collectors/tick_aggregator.py: candles built from live ticks. An instant is a number of
-- seconds since 1970 on India's clock, a price a number of its smallest unit.
mod Tests
pub mod Buckets
pub mod Bars
pub mod Volumes
pub mod Rollups
use quant_stack.Prelude.{
  ℕ, zero, suc, ◌+◌, ◌-◌, ◌*◌, ◌/◌, String, Bool, true, false, not, ◌&&◌, Option, none, some, List,
  [], ◌∷◌, ◌++◌, leb, ltb, ◌==◌, str_eq, if◌then◌else◌, filterb,
}
use Prim.Native.Nat.{min, max}
use quant_stack.Prelude.Dict.{Dict, lookup, insert}

-- The opening of the session, 09:15, of the day of an instant.
abbrev pub session_open : ℕ → ℕ
session_open ts = ts / 86400 * 86400 + (9 * 3600 + 15 * 60)

-- Before the opening the floor divisions of the code round away from it: `(n + w - 1) / w`.
abbrev pub ceil_div : ℕ → ℕ → ℕ
ceil_div n w = (n + w - 1) / w

unfoldable pub floor_to_session_bucket : ℕ → ℕ → ℕ
floor_to_session_bucket ts minutes =
    if leb (session_open ts) ts
    then session_open ts + (ts - session_open ts) / 60 / minutes * (minutes * 60)
    else session_open ts - ceil_div (ceil_div (session_open ts - ts) 60) minutes * (minutes * 60)

-- The in-progress bar of a symbol.
pub record Bar : Type 0 where
  pub bucket : ℕ
  pub open_price : ℕ
  pub high : ℕ
  pub low : ℕ
  pub close : ℕ
  pub baseline_volume : ℕ

-- `_bars` and `_last_cum_volume`.
pub record Aggregator : Type 0 where
  pub bars : Dict Bar
  pub last_cum_volume : Dict ℕ

unfoldable pub init : Aggregator
init = record { bars = []; last_cum_volume = [] }

-- A tick that has a symbol, a price and a time.
pub record Tick : Type 0 where
  pub symbol : String
  pub ltp : ℕ
  pub volume : Option ℕ
  pub ts : ℕ

-- `cumulative_volume or 0`
abbrev pub or_zero : Option ℕ → ℕ
or_zero none = 0
or_zero (some v) = v

abbrev pub baseline_of : Aggregator → Tick → ℕ
baseline_of a t = elim (lookup t.symbol a.last_cum_volume) [ none ↦ or_zero t.volume | some v ↦ v ]

-- The bar of a new bucket.
unfoldable pub open_bar : ℕ → Tick → Bar
unfolding floor_to_session_bucket
open_bar baseline t = record {
  bucket = floor_to_session_bucket t.ts 1;
  open_price = t.ltp;
  high = t.ltp;
  low = t.ltp;
  close = t.ltp;
  baseline_volume = baseline;
}

unfoldable pub extend_bar : Tick → Bar → Bar
extend_bar t bar = record bar { high = max bar.high t.ltp; low = min bar.low t.ltp; close = t.ltp }

-- The bar after a tick, of the bar before it, if any.
unfoldable pub next_bar : ℕ → Tick → Option Bar → Bar
unfolding open_bar extend_bar floor_to_session_bucket
next_bar baseline t none = open_bar baseline t
next_bar baseline t (some bar) =
    if bar.bucket == floor_to_session_bucket t.ts 1 then extend_bar t bar else open_bar baseline t

-- `_update_bar`: the aggregator, the bar and its volume.
unfoldable pub update_bar : Tick → Aggregator → Aggregator × Bar × ℕ
unfolding next_bar
update_bar t a =
    let bar = next_bar (baseline_of a t) t (lookup t.symbol a.bars) in
    (
      record {
        bars = insert t.symbol bar a.bars;
        last_cum_volume = elim t.volume [
          | none ↦ a.last_cum_volume
          | some v ↦ insert t.symbol v a.last_cum_volume
        ];
      },
      bar,
      or_zero t.volume - bar.baseline_volume,
    )

-- A row of the table of candles.
pub record Row : Type 0 where
  pub symbol : String
  pub timeframe : String
  pub ts : ℕ
  pub open_price : ℕ
  pub high : ℕ
  pub low : ℕ
  pub close : ℕ
  pub volume : ℕ

-- The first row of a window and the candle of the rows after it, if there are any.
abbrev pub combine : String → String → ℕ → Row → Option Row → Row
combine symbol interval bucket r none = record r {
  symbol = symbol;
  timeframe = interval;
  ts = bucket;
}
combine symbol interval bucket r (some f) = record {
  symbol = symbol;
  timeframe = interval;
  ts = bucket;
  open_price = r.open_price;
  high = max r.high f.high;
  low = min r.low f.low;
  close = f.close;
  volume = r.volume + f.volume;
}

-- The candle of the rows of a window, oldest first: `rows[0].open`, the extremes, `rows[-1].close`
-- and the sum of the volumes.
unfoldable pub fold_rows : String → String → ℕ → List Row → Option Row
fold_rows symbol interval bucket [] = none
fold_rows symbol interval bucket (r ∷ rows) =
    some (combine symbol interval bucket r (fold_rows symbol interval bucket rows))

-- The ticks of a batch, in turn.
unfoldable pub ingest : List Tick → Aggregator → Aggregator
unfolding update_bar
ingest [] a = a
ingest (t ∷ ts) a = ingest ts (update_bar t a).0
