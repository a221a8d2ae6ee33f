-- ===== src/Prediction/Labeling.antt =====
-- backend/app/prediction/labeling.py: triple-barrier labels. The floats are a type `F` with the
-- operations of Prelude.Floats; an instant is a number of seconds since 1970 in UTC.
mod Tests
pub mod Exits
pub mod Trailing
pub mod History
use quant_stack.Prelude.{
  ℕ, zero, suc, ◌+◌, ◌-◌, ◌*◌, ◌/◌, String, Bool, true, false, not, ◌&&◌, Option, none, some, List,
  [], ◌∷◌, map, leb, ltb, ◌==◌, str_eq, if◌then◌else◌, length, take, drop, anyb,
}
use quant_stack.Prelude.Floats.{Floats, max_of, min_of}
use quant_stack.Features.Schema.{Candle}
use quant_stack.Prelude.Int.{ℤ, pos, negsuc}

pub record BarrierConfig (F : Type 0) : Type 0 where
  pub profit_target_pct : F
  pub stop_pct : F
  pub max_holding_bars : ℕ
  pub trail_activation_pct : F
  pub trail_pct : F

pub data ExitReason : Type 0 where
  profit_target stop trailing_stop event_barrier liquidity_barrier : ExitReason
  max_holding_time insufficient_data : ExitReason

pub data Verdict : Type 0 where
  win loss timeout partial_success : Verdict

pub record Label (F : Type 0) : Type 0 where
  pub symbol : String
  pub timeframe : String
  pub direction : String
  pub entry_ts : ℕ
  pub entry_price : F
  pub exit_ts : ℕ
  pub exit_price : F
  pub exit_reason : ExitReason
  pub exit_return_pct : F
  pub label : Verdict
  -- In tenths.
  pub label_quality : ℕ
  pub bars_held : ℕ
  pub barrier_config : BarrierConfig F
  pub gap : Bool
  pub ambiguous : Bool

-- The arguments of `label_single_entry` but the candles. Dates are numbers of days.
pub record Entry (F : Type 0) : Type 0 where
  pub entry_price : F
  pub entry_ts : ℕ
  pub direction : String
  pub config : BarrierConfig F
  pub symbol : String
  pub timeframe : String
  pub event_barrier_dates : List ℕ
  pub liquidity_barrier_dates : List ℕ

-- What a bar resolves: the first arguments of `resolve`, `held` being `bar_index + 1`.
pub record Exit (F : Type 0) : Type 0 where
  pub price : F
  pub ts : ℕ
  pub held : ℕ
  pub reason : ExitReason
  pub gap : Bool
  pub ambiguous : Bool

-- `trailing_active`, `trailing_stop_price`, `favorable_extreme`.
pub record Trail (F : Type 0) : Type 0 where
  pub active : Bool
  pub stop_price : F
  pub favorable : F

abbrev pub is_long : String → Bool
is_long direction = str_eq direction "long"

-- `ts.astimezone(IST).date()`: India is five and a half hours ahead of UTC.
abbrev pub bar_date : ℕ → ℕ
bar_date ts = (ts + 19800) / 86400

abbrev pub on_date : ℕ → List ℕ → Bool
on_date day = anyb λ d. d == day

-- The quality of a label, in tenths.
abbrev pub quality_of : ExitReason → Bool → Bool → ℕ
quality_of insufficient_data gap ambiguous = 1
quality_of max_holding_time gap ambiguous =
    10 - (if gap then 3 else 0) - (if ambiguous then 4 else 0) - 2
quality_of _ gap ambiguous = 10 - (if gap then 3 else 0) - (if ambiguous then 4 else 0)

-- The label of an exit, of whether its return is positive.
abbrev pub verdict_of : ExitReason → Bool → Verdict
verdict_of profit_target gained = win
verdict_of stop gained = loss
verdict_of trailing_stop gained = if gained then partial_success else loss
verdict_of event_barrier gained = if gained then partial_success else loss
verdict_of liquidity_barrier gained = if gained then partial_success else loss
verdict_of _ gained = timeout

module _ {F : Type 0} (fl : Floats F) where
  -- `sign * x`
  abbrev pub signed : Bool → F → F
  signed long x = fl.mul (fl.lit (if long then pos 1 else negsuc 0) 0) x

  -- The float is 0, of either sign.
  abbrev pub is_zero : F → Bool
  is_zero x = fl.le x (fl.lit (pos 0) 0) && fl.le (fl.lit (pos 0) 0) x

  -- `_breach_price`, at a signed fraction of the entry price.
  unfoldable pub breach_price : F → F → Bool → Bool → F
  breach_price entry pct long profit =
      let move = if profit then pct else fl.sub (fl.lit (pos 0) 0) pct in
      fl.mul entry (fl.add (fl.lit (pos 1) 0) (signed long move))

  -- `x >= y` for a long trade, `x <= y` for a short one.
  abbrev pub past : Bool → F → F → Bool
  past long x y = if long then fl.le y x else fl.le x y

  -- The best and the worst price of a bar for the trade.
  abbrev pub best : Bool → Candle F → F
  best long c = if long then c.high else c.low

  abbrev pub worst : Bool → Candle F → F
  worst long c = if long then c.low else c.high

  -- `_resolve`
  unfoldable pub resolve : Entry F → Exit F → Label F
  resolve e x =
      let long = is_long e.direction in
      let gained = fl.round 4 (
        fl.mul (fl.div (signed long (fl.sub x.price e.entry_price)) e.entry_price)
          (fl.lit (pos 100) 0)) in
      record {
        symbol = e.symbol;
        timeframe = e.timeframe;
        direction = e.direction;
        entry_ts = e.entry_ts;
        entry_price = e.entry_price;
        exit_ts = x.ts;
        exit_price = fl.round 4 x.price;
        exit_reason = x.reason;
        exit_return_pct = gained;
        label = verdict_of x.reason (not (fl.le gained (fl.lit (pos 0) 0)));
        label_quality = quality_of x.reason x.gap x.ambiguous;
        bars_held = x.held;
        barrier_config = e.config;
        gap = x.gap;
        ambiguous = x.ambiguous;
      }

module _ {F : Type 0} (fl : Floats F) (e : Entry F) where
  abbrev pub profit_price : F
  profit_price = breach_price fl e.entry_price e.config.profit_target_pct (is_long e.direction) true

  abbrev pub fixed_stop_price : F
  fixed_stop_price = breach_price fl e.entry_price e.config.stop_pct (is_long e.direction) false

  abbrev pub current_stop : Trail F → F
  current_stop t = if t.active then t.stop_price else fixed_stop_price

  abbrev pub stop_reason : Trail F → ExitReason
  stop_reason t = if t.active then trailing_stop else stop

  -- Step 3 of a bar: the event and liquidity barriers.
  unfoldable pub forced_exit : ℕ → Candle F → Option (Exit F)
  forced_exit i c =
      let at_close : ExitReason → Exit F = λ reason. record {
        price = c.close;
        ts = c.ts;
        held = i + 1;
        reason = reason;
        gap = false;
        ambiguous = false;
      } in
      if on_date (bar_date c.ts) e.event_barrier_dates
      then some (at_close event_barrier)
      else if on_date (bar_date c.ts) e.liquidity_barrier_dates
      then some (at_close liquidity_barrier)
      else none

  -- An exit at bar `i`, of its price, its reason and its flags.
  abbrev pub exit_at : ℕ → Candle F → F → ExitReason → Bool → Bool → Option (Exit F)
  exit_at i c price reason gap ambiguous = some (record {
    price = price;
    ts = c.ts;
    held = i + 1;
    reason = reason;
    gap = gap;
    ambiguous = ambiguous;
  })

  -- Step 2: the touches within the bar.
  unfoldable pub touch_exit : ℕ → Trail F → Candle F → Option (Exit F)
  unfolding forced_exit
  touch_exit i t c =
      let long = is_long e.direction in
      let touch_profit = past fl long (best fl long c) profit_price in
      let touch_stop = past fl (not long) (worst fl long c) (current_stop t) in
      if touch_profit && touch_stop
      then exit_at i c (current_stop t) stop false true
      else if touch_profit
      then exit_at i c profit_price profit_target false false
      else if touch_stop
      then exit_at i c (current_stop t) (stop_reason t) false false
      else forced_exit i c

  -- Steps 1 to 3 of the bar `i`: its exit, if it has one.
  unfoldable pub examine : ℕ → Trail F → Candle F → Option (Exit F)
  unfolding touch_exit
  examine i t c =
      let long = is_long e.direction in
      let gap_profit = past fl long c.open_price profit_price in
      let gap_stop = past fl (not long) c.open_price (current_stop t) in
      if gap_profit && gap_stop
      then exit_at i c c.open_price stop true true
      else if gap_profit
      then exit_at i c profit_price profit_target true false
      else if gap_stop
      then exit_at i c (current_stop t) (stop_reason t) true false
      else touch_exit i t c

  -- Step 4: the bookkeeping of the trailing stop.
  unfoldable pub ratchet : Trail F → Candle F → Trail F
  ratchet t c =
      let long = is_long e.direction in
      let favorable = if long then max_of fl t.favorable c.high else min_of fl t.favorable c.low in
      let move = fl.div (signed fl long (fl.sub favorable e.entry_price)) e.entry_price in
      let activation = fl.mul e.config.trail_activation_pct e.config.profit_target_pct in
      let active = if t.active then true else fl.le activation move in
      let distance = fl.mul e.config.trail_pct e.config.profit_target_pct in
      let candidate = fl.mul favorable (fl.sub (fl.lit (pos 1) 0) (signed fl long distance)) in
      record {
        active = active;
        stop_price =
            if active
            then (if long
                then max_of fl t.stop_price candidate
                else min_of fl t.stop_price candidate)
            else t.stop_price;
        favorable = favorable;
      }

  -- The loop over the bars, from bar `i` on.
  unfoldable pub walk : ℕ → Trail F → List (Candle F) → Option (Exit F)
  unfolding examine ratchet
  walk i t [] = none
  walk i t (c ∷ cs) = elim (examine i t c) [
    | some x ↦ some x
    | none ↦ walk (i + 1) (ratchet t c) cs
  ]

  abbrev pub untouched : Trail F
  untouched = record { active = false; stop_price = fixed_stop_price; favorable = e.entry_price }

  -- `usable_bars[-1]`
  unfoldable pub last_of : List (Candle F) → Option (Candle F)
  last_of [] = none
  last_of (c ∷ []) = some c
  last_of (c ∷ (d ∷ cs)) = last_of (d ∷ cs)

  -- The last statements, where no bar has an exit. Without a usable bar the code raises.
  unfoldable pub expire : List (Candle F) → Option (Label F)
  unfolding last_of
  expire forward =
      let usable = take e.config.max_holding_bars forward in
      elim (last_of usable) [
        | none ↦ none
        | some c ↦ some (
            resolve fl e (record {
              price = c.close;
              ts = c.ts;
              held = length usable;
              reason =
                  if ltb (length forward) e.config.max_holding_bars
                  then insufficient_data
                  else max_holding_time;
              gap = false;
              ambiguous = false;
            }))
      ]

  -- The label of an entry price that is not 0; none stands for the IndexError of an empty holding window.
  unfoldable pub label_forward : List (Candle F) → Option (Label F)
  unfolding walk expire
  label_forward [] = some (
      resolve fl e (record {
        price = e.entry_price;
        ts = e.entry_ts;
        held = 0;
        reason = insufficient_data;
        gap = false;
        ambiguous = false;
      }))
  label_forward (c ∷ cs) = elim (walk 0 untouched (take e.config.max_holding_bars (c ∷ cs))) [
    | some x ↦ some (resolve fl e x)
    | none ↦ expire (c ∷ cs)
  ]

  -- `label_single_entry`: whatever bar ends the trade, `_resolve` divides by the entry price, so that one
  -- of 0 raises a ZeroDivisionError; none stands for it.
  unfoldable pub label_single_entry : List (Candle F) → Option (Label F)
  unfolding label_forward
  label_single_entry forward = if is_zero fl e.entry_price then none else label_forward forward

module _ {F : Type 0} (fl : Floats F) where
  -- `math.log(window[i].close / window[i - 1].close)` for the bars behind the first, where both closes
  -- are positive.
  unfoldable pub log_returns : List (Candle F) → List F
  log_returns [] = []
  log_returns (c ∷ []) = []
  log_returns (c ∷ (d ∷ cs)) =
      let rest = log_returns (d ∷ cs) in
      if not (fl.le c.close (fl.lit (pos 0) 0)) && not (fl.le d.close (fl.lit (pos 0) 0))
      then fl.log (fl.div d.close c.close) ∷ rest
      else rest

  -- `TRAILING_VOL_WINDOW` is 20 and `MIN_TRAILING_VOL` 0.002.
  unfoldable pub trailing_volatility : List (Candle F) → ℕ → F
  unfolding log_returns
  trailing_volatility candles end =
      let start = end + 1 - 20 in
      let returns = log_returns (take (end + 1 - start) (drop start candles)) in
      if ltb (length returns) 2
      then fl.lit (pos 2) 3
      else max_of fl (fl.pstdev returns) (fl.lit (pos 2) 3)

  -- `K_PROFIT` is 2.0, `K_STOP` 1.0; the trail is activated at 0.5 and gives back 0.4.
  unfoldable pub barrier_config_for : List (Candle F) → ℕ → ℕ → BarrierConfig F
  unfolding trailing_volatility
  barrier_config_for candles entry_index max_holding =
      let vol = trailing_volatility candles entry_index in
      record {
        profit_target_pct = fl.round 6 (fl.mul (fl.lit (pos 2) 0) vol);
        stop_pct = fl.round 6 (fl.mul (fl.lit (pos 1) 0) vol);
        max_holding_bars = max_holding;
        trail_activation_pct = fl.lit (pos 5) 1;
        trail_pct = fl.lit (pos 4) 1;
      }
