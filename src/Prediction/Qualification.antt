-- ===== src/Prediction/Qualification.antt =====
-- backend/app/prediction/qualification.py: the gate that a trade passes or not. What the engines
-- answer for a symbol are the fields of `Facts`; a reason is its kind with what was observed. The scores
-- of the liquidity, the event and the confidence engine are the numbers that these give, also without
-- data; `none` is a metric that is missing.
pub mod Tests
pub mod Gate
pub mod Untrained
use quant_stack.Prelude.{
  ℕ, String, Bool, true, false, Option, none, some, List, [], ◌∷◌, if◌then◌else◌,
}
use quant_stack.Prelude.Floats.{Floats, gt, lt, num}
use quant_stack.Prelude.Int.{pos}
use quant_stack.Prediction.Agreement.{AgreementResult, AgreementLevel}

-- The fields of the six results that the checks read.
pub record Facts (F : Type 0) : Type 0 where
  pub liquidity_score : F
  pub spread_pct : Option F
  pub trading_freeze_recommended : Option Bool
  pub event_score : F
  pub agreement : AgreementResult F
  pub feature_quality : Option F
  pub market_confidence_score : F
  pub mean_similarity : Option F

pub data Rejection (F : Type 0) : Type 0 where
  liquidity_too_low : F → Rejection F
  spread_too_large : Option F → Rejection F
  event_risk_too_high : F → Bool → Rejection F
  model_disagreement_high : F → AgreementLevel → Rejection F
  feature_quality_poor : Option F → Rejection F
  market_confidence_poor : F → Rejection F
  historical_analog_reliability_poor : Option F → Rejection F

module _ {F : Type 0} (fl : Floats F) where
  -- `MIN_LIQUIDITY_SCORE`, 30.
  unfoldable pub check_liquidity : Facts F → Option (Rejection F)
  check_liquidity x =
      if lt fl x.liquidity_score (num fl 30)
      then some (liquidity_too_low x.liquidity_score)
      else none

  -- `MAX_SPREAD_PCT`, half of 1.0.
  unfoldable pub check_spread : Facts F → Option (Rejection F)
  check_spread x = elim x.spread_pct [
    | none ↦ some (spread_too_large none)
    | some s ↦
        if gt fl s (fl.div (fl.lit (pos 1) 0) (num fl 2))
        then some (spread_too_large (some s))
        else none
  ]

  -- `bool(metrics.get("trading_freeze_recommended"))`: a metric that is missing is no freeze.
  abbrev pub freeze_of : Option Bool → Bool
  freeze_of none = false
  freeze_of (some freeze) = freeze

  -- `MAX_EVENT_RISK_SCORE`, 70.
  unfoldable pub check_event_risk : Facts F → Option (Rejection F)
  check_event_risk x =
      if freeze_of x.trading_freeze_recommended
      then some (event_risk_too_high x.event_score true)
      else if gt fl x.event_score (num fl 70)
      then some (event_risk_too_high x.event_score false)
      else none

  unfoldable pub check_model_agreement : Facts F → Option (Rejection F)
  check_model_agreement x =
      if x.agreement.proceed
      then none
      else some (model_disagreement_high x.agreement.agreement_pct x.agreement.agreement_level)

  -- `MIN_FEATURE_QUALITY`, 0.5.
  unfoldable pub check_feature_quality : Facts F → Option (Rejection F)
  check_feature_quality x = elim x.feature_quality [
    | none ↦ some (feature_quality_poor none)
    | some q ↦ if lt fl q (fl.lit (pos 5) 1) then some (feature_quality_poor (some q)) else none
  ]

  -- `MIN_MARKET_CONFIDENCE_SCORE`, 35.
  unfoldable pub check_market_confidence : Facts F → Option (Rejection F)
  check_market_confidence x =
      if lt fl x.market_confidence_score (num fl 35)
      then some (market_confidence_poor x.market_confidence_score)
      else none

  -- `MIN_ANALOG_SIMILARITY`, 0.5.
  unfoldable pub check_historical_analog_reliability : Facts F → Option (Rejection F)
  check_historical_analog_reliability x = elim x.mean_similarity [
    | none ↦ some (historical_analog_reliability_poor none)
    | some s ↦
        if lt fl s (fl.lit (pos 5) 1)
        then some (historical_analog_reliability_poor (some s))
        else none
  ]

  -- `[reason for reason in ... if reason is not None]`
  abbrev pub reasons_of : List (Option (Rejection F)) → List (Rejection F)
  reasons_of [] = []
  reasons_of (none ∷ rs) = reasons_of rs
  reasons_of (some r ∷ rs) = r ∷ reasons_of rs

  unfoldable pub rejection_reasons : Facts F → List (Rejection F)
  unfolding check_liquidity check_spread check_event_risk check_model_agreement
      check_feature_quality check_market_confidence check_historical_analog_reliability
  rejection_reasons x = reasons_of (
      check_liquidity x
      ∷ check_spread x
      ∷ check_event_risk x
      ∷ check_model_agreement x
      ∷ check_feature_quality x
      ∷ check_market_confidence x
      ∷ check_historical_analog_reliability x
      ∷ [])

  abbrev pub is_nil {ℓ} : {A : Type ℓ} → List A → Bool
  is_nil [] = true
  is_nil (x ∷ xs) = false

  unfoldable pub qualify_trade : Facts F → Bool × List (Rejection F)
  unfolding rejection_reasons
  qualify_trade x = let reasons = rejection_reasons x in (is_nil reasons, reasons)

pub record QualificationResult (F : Type 0) : Type 0 where
  pub symbol : String
  pub direction : String
  pub as_of : ℕ
  pub qualified : Bool
  pub rejection_reasons : List (Rejection F)

-- `evaluate`, at the time `now`, of what the engines answer for the symbol and the direction.
unfoldable pub evaluate :
    {F : Type 0}
    → Floats F
    → (String → String → Facts F)
    → ℕ
    → String
    → String
    → QualificationResult F
unfolding qualify_trade
evaluate fl facts now symbol direction =
    let (qualified, reasons) = qualify_trade fl (facts symbol direction) in
    record {
      symbol = symbol;
      direction = direction;
      as_of = now;
      qualified = qualified;
      rejection_reasons = reasons;
    }
