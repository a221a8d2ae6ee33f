-- ===== src/Prediction/Qualification/Tests.antt =====
-- The gate at concrete inputs, with thousandths for the floats.
use quant_stack.Prelude.{ℕ, ◌≡◌, ◌↔◌, refl, ◌<◌, length, arith, true, false, none, some, [], ◌∷◌}
use quant_stack.Prediction.Ensemble.Engine.{Sources, predict, training_rows, find_training}
use quant_stack.Prediction.Ensemble.Tests.{factories, key, sources, snapshot}
use quant_stack.Prediction.Agreement.{evaluate_agreement}
use quant_stack.Prediction.Qualification.Untrained.{untrained_refused}
use quant_stack.Prelude.Floats.Thousandths.{thousandths}
use quant_stack.Prediction.Agreement.{AgreementResult, high}
use quant_stack.Prediction.Qualification.{
  Facts, spread_too_large, qualify_trade, rejection_reasons, check_liquidity, check_spread,
  check_event_risk, check_model_agreement, check_feature_quality, check_market_confidence,
  check_historical_analog_reliability,
}
use quant_stack.Prediction.Qualification.Gate.{Passes, qualify_iff}

abbrev agreed : AgreementResult ℕ
agreed = record {
  symbol = "INFY";
  snapshot_id = "s1";
  as_of = 10;
  prediction_variance = 0;
  agreement_pct = 1000;
  confidence_spread = 0;
  consensus_probability = 700;
  model_reliability = 600;
  agreement_level = high;
  proceed = true;
  per_model_reliability = [];
}

abbrev pub facts : Facts ℕ
facts = record {
  liquidity_score = 60000;
  spread_pct = some 500;
  trading_freeze_recommended = some false;
  event_score = 20000;
  agreement = agreed;
  feature_quality = some 900;
  market_confidence_score = 50000;
  mean_similarity = some 700;
}

-- Without a quote there is no trade.
no_quote :
    (qualify_trade thousandths (record facts { spread_pct = none })).1 ≡ spread_too_large none ∷ []
unfolding qualify_trade rejection_reasons check_liquidity check_spread check_event_risk
    check_model_agreement check_feature_quality check_market_confidence
    check_historical_analog_reliability
no_quote = refl

-- Without a word on a freeze the trade passes.
no_freeze_known :
    (qualify_trade thousandths (record facts { trading_freeze_recommended = none })).0 ≡ true
unfolding qualify_trade rejection_reasons check_liquidity check_spread check_event_risk
    check_model_agreement check_feature_quality check_market_confidence
    check_historical_analog_reliability
no_freeze_known = refl

qualify_iff_example : ((qualify_trade thousandths facts).0 ≡ true) ↔ Passes thousandths facts
qualify_iff_example = qualify_iff thousandths facts

abbrev no_labels : Sources ℕ
no_labels = record sources { label_history = [] }

few_rows : length (training_rows thousandths no_labels) < 40
unfolding training_rows
few_rows = omega arith

never_trained : find_training {F = ℕ} key [] ≡ none
unfolding find_training
never_trained = refl

untrained_refused_example :
    let p = (predict thousandths factories key no_labels snapshot []).1 in
    (qualify_trade thousandths (record facts { agreement = evaluate_agreement thousandths p })).0
    ≡ false
untrained_refused_example =
    untrained_refused thousandths factories key no_labels snapshot [] facts never_trained few_rows
