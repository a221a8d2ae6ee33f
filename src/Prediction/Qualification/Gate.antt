-- ===== src/Prediction/Qualification/Gate.antt =====
-- What a qualified trade has.
use quant_stack.Prelude.{◌≡◌, ◌↔◌, ◌≢◌, Bool, true, false, Option, none, some, arith}
use quant_stack.Prelude.Floats.{Floats, num}
use quant_stack.Prelude.Int.{pos}
use quant_stack.Prediction.Qualification.{
  Facts, check_liquidity, check_spread, check_event_risk, check_model_agreement,
  check_feature_quality, check_market_confidence, check_historical_analog_reliability,
  rejection_reasons, qualify_trade,
}

module _ {F : Type 0} (fl : Floats F) where
  -- The value is known, and within the bound.
  abbrev pub known : Option F → (F → Bool) → Bool
  known none within = false
  known (some v) within = within v

  -- All seven conditions of the gate.
  pub record Passes (x : Facts F) : Type 0 where
    pub liquid : fl.le (num fl 30) x.liquidity_score ≡ true
    pub tight : known x.spread_pct (λ s. fl.le s (fl.div (fl.lit (pos 1) 0) (num fl 2))) ≡ true
    pub unfrozen : x.trading_freeze_recommended ≢ some true
    pub calm : fl.le x.event_score (num fl 70) ≡ true
    pub agreed : x.agreement.proceed ≡ true
    pub sound : known x.feature_quality (λ q. fl.le (fl.lit (pos 5) 1) q) ≡ true
    pub confident : fl.le (num fl 35) x.market_confidence_score ≡ true
    pub precedented : known x.mean_similarity (λ s. fl.le (fl.lit (pos 5) 1) s) ≡ true

  -- A trade qualifies exactly when all seven conditions hold, a bound itself being enough. A spread, a
  -- feature quality or a similarity of the analogs that is not known fails its condition. A recommended
  -- freeze is enough to reject, but where the freeze metric is missing this condition holds.
  pub qualify_iff : (x : Facts F) → ((qualify_trade fl x).0 ≡ true) ↔ Passes x
  unfolding qualify_trade rejection_reasons check_liquidity check_spread check_event_risk
      check_model_agreement check_feature_quality check_market_confidence
      check_historical_analog_reliability
  qualify_iff x = ground arith
