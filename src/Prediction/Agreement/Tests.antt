-- ===== src/Prediction/Agreement/Tests.antt =====
-- Ensembles at concrete inputs, with thousandths for the floats.
use quant_stack.Prelude.{ℕ, ◌≡◌, refl, false, [], ◌∷◌}
use quant_stack.Prelude.Floats.Thousandths.{thousandths}
use quant_stack.Prediction.Ensemble.{ModelPrediction, EnsemblePrediction, untrained}
use quant_stack.Prediction.Agreement.{
  model_direction, agreement_share, votes_for, agreement_level_for, evaluate_agreement,
}

abbrev model : ℕ → ModelPrediction ℕ
model p = record {
  name = "model";
  probability = p;
  holdout_accuracy = 600;
  weight = 500;
  explanation = [];
}

abbrev ensemble : EnsemblePrediction ℕ
ensemble = record {
  symbol = "INFY";
  snapshot_id = "s1";
  as_of = 10;
  probability = 620;
  confidence = 600;
  uncertainty = 760;
  disagreement_score = 300;
  model_version = untrained 50;
  training_samples = 50;
  model_predictions = model 700 ∷ model 400 ∷ [];
}

-- One of two models is bullish: not enough.
half_agree : (evaluate_agreement thousandths ensemble).proceed ≡ false
unfolding evaluate_agreement agreement_share votes_for model_direction agreement_level_for
half_agree = refl
