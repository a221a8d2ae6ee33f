-- ===== src/Prediction/Ensemble/Specs.antt =====
-- The features of backend/app/prediction/ensemble.py: `ENSEMBLE_FEATURE_SPECS` and its parts.
use quant_stack.Prelude.{String, List, [], ◌∷◌, map, if◌then◌else◌}
use text.Mathlib.Text.{◌==◌}

-- The symbol that a feature is read for: the traded one, or the global market.
pub data SymbolMode : Type 0 where
  instrument market : SymbolMode

-- `(name, symbol_mode, timeframe)`
pub record FeatureSpec : Type 0 where
  pub name : String
  pub symbol_mode : SymbolMode
  pub timeframe : String

abbrev spec : String → SymbolMode → String → FeatureSpec
spec name mode timeframe = record { name = name; symbol_mode = mode; timeframe = timeframe }

abbrev pub ensemble_feature_specs : List FeatureSpec
ensemble_feature_specs =
    spec "price_momentum_20" instrument "D"
    ∷ spec "price_acceleration_20" instrument "D"
    ∷ spec "price_dist_from_high_50" instrument "D"
    ∷ spec "price_dist_from_low_50" instrument "D"
    ∷ spec "volume_rvol_20" instrument "D"
    ∷ spec "volume_obv_z" instrument "D"
    ∷ spec "ms_trend_direction" instrument "D"
    ∷ spec "ms_structural_bias" instrument "D"
    ∷ spec "ms_breakout_probability" instrument "D"
    ∷ spec "ms_sweep_probability" instrument "D"
    ∷ spec "ms_change_of_character" instrument "D"
    ∷ spec "ms_break_of_structure" instrument "D"
    ∷ spec "volatility_regime_20" instrument "D"
    ∷ spec "volatility_expected_move_20" instrument "D"
    ∷ spec "liquidity_score" instrument "quote"
    ∷ spec "liquidity_spread_pct" instrument "quote"
    ∷ spec "liquidity_market_impact_pct" instrument "quote"
    ∷ spec "liquidity_order_book_imbalance" instrument "quote"
    ∷ spec "rs_nifty_strength_20" instrument "D"
    ∷ spec "rs_outperformance_20" instrument "D"
    ∷ spec "breadth_health_score" market "breadth"
    ∷ spec "breadth_participation_pct" market "breadth"
    ∷ spec "flow_participation_index" market "flow"
    ∷ spec "event_trading_freeze" market "events"
    ∷ spec "event_expected_volatility" market "events"
    ∷ spec "options_pcr" instrument "chain"
    ∷ spec "options_max_pain_distance_pct" instrument "chain"
    ∷ spec "options_iv_rank" instrument "chain"
    ∷ spec "options_gamma_exposure" instrument "chain"
    ∷ spec "options_dealer_positioning" instrument "chain"
    ∷ spec "intraday_move_from_open_pct" instrument "5m"
    ∷ spec "intraday_current_drawdown_pct" instrument "5m"
    ∷ spec "intraday_max_drawdown_pct" instrument "5m"
    ∷ spec "intraday_realized_vol_pct" instrument "5m"
    ∷ spec "intraday_expected_move_next_30m_pct" instrument "5m"
    ∷ spec "intraday_var95_next_30m_pct" instrument "5m"
    ∷ spec "intraday_expected_move_rest_of_session_pct" instrument "5m"
    ∷ spec "intraday_var95_rest_of_session_pct" instrument "5m"
    ∷ spec "intraday_time_elapsed_pct" instrument "5m"
    ∷ []

unfoldable pub feature_names : List String
feature_names = map (λ s. s.name) ensemble_feature_specs

-- The names of the features of timeframe "D".
abbrev pub core_of : List FeatureSpec → List String
core_of [] = []
core_of (s ∷ specs) = if s.timeframe == "D" then s.name ∷ core_of specs else core_of specs

unfoldable pub core_feature_names : List String
core_feature_names = core_of ensemble_feature_specs
