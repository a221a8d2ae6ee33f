-- ===== src/Features/Structure/Sessions.antt =====
-- The session pass of backend/app/features/structure.py: the features of one session's bars, and the
-- sessions of a series of candles. A session is a day in India, its number since 1970.
pub mod Profile
pub mod Area
pub mod Sorting
pub mod Grouping
pub mod Days
use quant_stack.Prelude.{
  ℕ, zero, suc, ◌+◌, ◌-◌, ◌*◌, ◌/◌, Bool, true, false, Option, none, some, List, [], ◌∷◌, ◌++◌, map,
  take, length, leb, ltb, ◌==◌, if◌then◌else◌,
}
use quant_stack.Prelude.Int.{pos}
use quant_stack.Prelude.Floats.{Floats, gt, num, minus, between, sum_of, max_from, min_from}
use quant_stack.Features.Schema.{Candle}
use Profile.{ProfileRow, profile_of}

-- `_session_features`
pub record SessionRow (F : Type 0) : Type 0 where
  pub vwap_band_width : Option F
  pub vwap_band_position : Option F
  pub opening_range : Option F
  pub opening_range_position : Option F
  pub initial_balance : Option F
  pub ib_extension : Option F
  pub value_area_width : Option F
  pub poc_distance : Option F
  pub auction_imbalance : Option F

module _ {F : Type 0} (fl : Floats F) where
  -- `max(b.high for b in bars)` and `min(b.low for b in bars)`, of at least one bar.
  abbrev pub high_of : Candle F → List (Candle F) → F
  high_of b bs = max_from fl b.high (map (λ x. x.high) bs)

  abbrev pub low_of : Candle F → List (Candle F) → F
  low_of b bs = min_from fl b.low (map (λ x. x.low) bs)

  -- `closes[-1]`
  abbrev pub last_close : Candle F → List (Candle F) → F
  last_close b [] = b.close
  last_close b (c ∷ cs) = last_close c cs

  abbrev pub when : Bool → F → Option F
  when test x = if test then some x else none

  -- The volumes, or 1.0 for each bar where there is no volume.
  abbrev pub weights_of : List (Candle F) → List F
  weights_of bars =
      let volumes = map (λ b. num fl b.volume) bars in
      if gt fl (sum_of fl volumes) (num fl 0) then volumes else map (λ b. fl.lit (pos 1) 0) bars

  -- `sum(f(t) * w for t, w in zip(typical, weights))`
  abbrev pub weighted_sum : (F → F) → List (Candle F) → List F → List F
  weighted_sum f (b ∷ bs) (w ∷ ws) =
      fl.mul (f (fl.div (fl.add (fl.add b.high b.low) b.close) (num fl 3))) w ∷ weighted_sum f bs ws
  weighted_sum f _ _ = []

  -- The mean of the typical prices by their weights, and the deviation from it.
  unfoldable pub vwap_of : List (Candle F) → List F → F
  vwap_of bars ws = fl.div (sum_of fl (weighted_sum (λ t. t) bars ws)) (sum_of fl ws)

  unfoldable pub sigma_of : List (Candle F) → List F → F → F
  sigma_of bars ws vwap = fl.sqrt (
      fl.div (sum_of fl (weighted_sum (λ t. fl.mul (fl.sub t vwap) (fl.sub t vwap)) bars ws))
        (sum_of fl ws))

  unfoldable pub band_position_of : F → F → F → Option F
  band_position_of close vwap sigma = when (gt fl sigma (num fl 0)) (
      between fl (minus fl (fl.lit (pos 4) 0)) (fl.lit (pos 4) 0)
        (fl.div (fl.sub close vwap) sigma))

  unfoldable pub range_position_of : F → F → F → Option F
  range_position_of close high low =
      let range = fl.sub high low in
      when (gt fl range (num fl 0)) (
        between fl (minus fl (fl.lit (pos 5) 0)) (fl.lit (pos 5) 0)
          (fl.div (fl.sub close (fl.div (fl.add high low) (num fl 2))) (fl.div range (num fl 2))))

  -- A part of a value, in percent of the value where this is above 0.
  abbrev pub percent_of : F → F → Option F
  percent_of x base = when (gt fl base (num fl 0)) (fl.mul (fl.div x base) (num fl 100))

  -- The features of the bars `b ∷ bs`, or nothing where a close lies so far below the session that its bin
  -- is out of range.
  unfoldable pub session_features : Candle F → List (Candle F) → Option (SessionRow F)
  unfolding vwap_of sigma_of band_position_of range_position_of profile_of
  session_features b bs =
      let bars = b ∷ bs in
      let high = high_of b bs in
      let low = low_of b bs in
      let range = fl.sub high low in
      let close = last_close b bs in
      let ws = weights_of bars in
      let vwap = vwap_of bars ws in
      let sigma = sigma_of bars ws vwap in
      let or_high = high_of b (take 2 bs) in
      let or_low = low_of b (take 2 bs) in
      let ib_range = fl.sub (high_of b (take 11 bs)) (low_of b (take 11 bs)) in
      let traded = gt fl range (num fl 0) in
      let row : ProfileRow F → SessionRow F = λ p. record {
        vwap_band_width = percent_of (fl.mul (num fl 4) sigma) vwap;
        vwap_band_position = band_position_of close vwap sigma;
        opening_range = percent_of (fl.sub or_high or_low) b.open_price;
        opening_range_position = range_position_of close or_high or_low;
        initial_balance = percent_of ib_range b.open_price;
        ib_extension = when (gt fl ib_range (num fl 0)) (fl.div range ib_range);
        value_area_width = p.value_area_width;
        poc_distance = p.poc_distance;
        auction_imbalance =
            when traded (
              fl.div (fl.sub close (fl.div (fl.add high low) (num fl 2)))
                (fl.div range (num fl 2)));
      } in
      if traded
      then elim (profile_of fl low range close (map (λ c. c.close) bars) ws) [
        | none ↦ none
        | some p ↦ some (row p)
      ]
      else some (row (record { value_area_width = none; poc_distance = none }))

-- `candle.ts.astimezone(IST).date()`: India is 5:30 hours ahead of UTC.
abbrev pub session_day : ℕ → ℕ
session_day ts = (ts + 19800) / 86400

-- `sessions.setdefault(key, []).append(candle)`
unfoldable pub add_to_session :
    {F : Type 0} → ℕ → Candle F → List (ℕ × List (Candle F)) → List (ℕ × List (Candle F))
add_to_session day c [] = (day, c ∷ []) ∷ []
add_to_session day c ((k, cs) ∷ sessions) =
    if k == day then (k, cs ++ c ∷ []) ∷ sessions else (k, cs) ∷ add_to_session day c sessions

unfoldable pub group_sessions :
    {F : Type 0} → List (ℕ × List (Candle F)) → List (Candle F) → List (ℕ × List (Candle F))
unfolding add_to_session
group_sessions sessions [] = sessions
group_sessions sessions (c ∷ cs) = group_sessions (add_to_session (session_day c.ts) c sessions) cs

-- `sorted(sessions)` with their candles, and `sorted(bars, key=lambda c: c.ts)`.
unfoldable pub insert_by : {A : Type 0} → (A → ℕ) → A → List A → List A
insert_by key a [] = a ∷ []
insert_by key a (b ∷ bs) = if leb (key a) (key b) then a ∷ b ∷ bs else b ∷ insert_by key a bs

unfoldable pub sort_by : {A : Type 0} → (A → ℕ) → List A → List A
unfolding insert_by
sort_by key [] = []
sort_by key (a ∷ as_) = insert_by key a (sort_by key as_)

-- A day's row before the rows of the later days; one that raises ends the pass.
abbrev pub with_row :
    {F : Type 0}
    → ℕ
    → Option (SessionRow F)
    → Option (List (ℕ × SessionRow F))
    → Option (List (ℕ × SessionRow F))
with_row day none rest = none
with_row day (some row) none = none
with_row day (some row) (some rows) = some ((day, row) ∷ rows)

module _ {F : Type 0} (fl : Floats F) where
  -- The rows of the sessions that are long enough.
  unfoldable pub rows_of : ℕ → List (ℕ × List (Candle F)) → Option (List (ℕ × SessionRow F))
  rows_of least [] = some []
  rows_of least ((day, []) ∷ sessions) = rows_of least sessions
  rows_of least ((day, b ∷ bs) ∷ sessions) =
      let rest = rows_of least sessions in
      if ltb (length (b ∷ bs)) least then rest else with_row day (session_features fl b bs) rest

  -- The bars of a session, in order of their instants.
  abbrev pub in_order_of_time : ℕ × List (Candle F) → ℕ × List (Candle F)
  in_order_of_time session = (session.0, sort_by (λ c. c.ts) session.1)

  -- `compute_structure_sessions`, before the normalization of its series.
  unfoldable pub compute_structure_sessions : ℕ → List (Candle F) → Option (List (ℕ × SessionRow F))
  unfolding group_sessions sort_by rows_of
  compute_structure_sessions least candles =
      rows_of least (map in_order_of_time (sort_by (λ s. s.0) (group_sessions [] candles)))
