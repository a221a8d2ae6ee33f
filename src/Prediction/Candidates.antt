-- ===== src/Prediction/Candidates.antt =====
-- backend/app/prediction/candidates.py: since when a signal stands, the direction that the evidence gives,
-- and how long a candidate is expected to last. Instants are numbers of seconds.
pub mod Streak
mod Tests
use quant_stack.Prelude.{
  ℕ, zero, suc, ◌+◌, ◌*◌, String, Bool, true, false, ◌&&◌, Option, none, some, List, [], ◌∷◌, map,
  ltb, str_eq, if◌then◌else◌,
}
use quant_stack.Prelude.Dict.{Dict, lookup}
use quant_stack.Prelude.Int.{pos}
use quant_stack.Prelude.Floats.{Floats, gt, lt, num, minus, min_of, min_from}

-- The fields of a stored candidate that `_streak_start` reads; a time that is missing or empty is none.
pub record StoredCandidate : Type 0 where
  pub direction : Option String
  pub as_of : Option ℕ

-- `record.get("direction") == direction`
abbrev pub has_direction : String → StoredCandidate → Bool
has_direction direction r = elim r.direction [ none ↦ false | some d ↦ str_eq d direction ]

-- `previous_ts is None or previous_ts - ts <= max_gap`
abbrev pub is_near : ℕ → Option ℕ → ℕ → Bool
is_near max_gap none ts = true
is_near max_gap (some previous) ts = if ltb (ts + max_gap) previous then false else true

-- The loop of `_streak_start`, over records from the newest on, where `start` is both of its variables.
unfoldable pub streak_from : String → ℕ → Option ℕ → List StoredCandidate → Option ℕ
streak_from direction max_gap start [] = start
streak_from direction max_gap start (r ∷ history) = elim r.as_of [
  | none ↦ start
  | some ts ↦
      let rest = streak_from direction max_gap (some ts) history in
      if has_direction direction r
      then (if is_near max_gap start ts then rest else start)
      else start
]

unfoldable pub streak_start : List StoredCandidate → String → ℕ → Option ℕ
unfolding streak_from
streak_start history direction max_gap = streak_from direction max_gap none history

pub data Side : Type 0 where
  long short neutral : Side

-- What a component answered: the metrics that have a value, and its confidence.
pub record IntelligenceResult (F : Type 0) : Type 0 where
  pub metrics : Dict F
  pub confidence : F

-- `_DIRECTION_SIGNALS`
abbrev pub direction_signals : List (String × String)
direction_signals =
    ("trend", "trend_direction")
    ∷ ("market_structure", "structural_bias")
    ∷ ("institutional_flow", "net_flow_level")
    ∷ ("relative_strength", "relative_trend")
    ∷ []

-- `component_results.get(component)`, then `result.metrics.get(metric)`, with the confidence.
abbrev pub signal_of : {F : Type 0} → Dict (IntelligenceResult F) → String → String → Option (F × F)
signal_of results component metric = elim (lookup component results) [
  | none ↦ none
  | some r ↦ elim (lookup metric r.metrics) [ none ↦ none | some v ↦ some (v, r.confidence) ]
]

module _ {F : Type 0} (fl : Floats F) where
  -- The loop: the weighted sum of the signals that are there, and the sum of their weights.
  unfoldable pub blend_from : Dict (IntelligenceResult F) → F → F → List (String × String) → F × F
  blend_from results weighted total [] = (weighted, total)
  blend_from results weighted total ((component, metric) ∷ signals) =
      elim (signal_of results component metric) [
        | none ↦ blend_from results weighted total signals
        | some s ↦ blend_from results (fl.add weighted (fl.mul s.0 s.1)) (fl.add total s.1) signals
      ]

  abbrev pub side_of : F → Side
  side_of level =
      if gt fl level (fl.lit (pos 5) 2)
      then long
      else if lt fl level (minus fl (fl.lit (pos 5) 2))
      then short
      else neutral

  unfoldable pub infer_direction : Dict (IntelligenceResult F) → Side
  unfolding blend_from
  infer_direction results =
      let (weighted, total) =
        blend_from results (fl.lit (pos 0) 1) (fl.lit (pos 0) 1) direction_signals in
      if fl.le total (num fl 0) then neutral else side_of (fl.div weighted total)

-- `TRIGGER_LIFETIME_MINUTES.get(condition, DEFAULT_LIFETIME_MINUTES)`
abbrev pub minutes_of : String → ℕ
minutes_of condition =
    if str_eq condition "significant_breakout_probability"
    then 4 * 60
    else if str_eq condition "liquidity_sweep_detected"
    then 2 * 60
    else if str_eq condition "structural_trend_change"
    then 24 * 60
    else if str_eq condition "regime_transition"
    then 24 * 60
    else if str_eq condition "institutional_accumulation"
    then 3 * 24 * 60
    else if str_eq condition "institutional_distribution"
    then 3 * 24 * 60
    else if str_eq condition "exceptional_relative_strength"
    then 2 * 24 * 60
    else if str_eq condition "high_volatility_expansion"
    then 3 * 60
    else 4 * 60

module _ {F : Type 0} (fl : Floats F) where
  -- The estimate of a trigger, where `hours_until` is the metric of the events component, if it is there.
  abbrev pub estimate_of : Option F → String → F
  estimate_of none condition = num fl (minutes_of condition)
  estimate_of (some hours) condition =
      if str_eq condition "event_driven_opportunity" && gt fl hours (num fl 0)
      then min_of fl (fl.mul hours (num fl 60)) (num fl (48 * 60))
      else num fl (minutes_of condition)

  -- `estimate_lifetime_minutes`, of the triggers' conditions.
  unfoldable pub estimate_lifetime_minutes : Option F → List String → F
  estimate_lifetime_minutes hours [] = num fl (4 * 60)
  estimate_lifetime_minutes hours (c ∷ cs) =
      min_from fl (estimate_of hours c) (map (estimate_of hours) cs)
