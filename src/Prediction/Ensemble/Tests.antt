-- ===== src/Prediction/Ensemble/Tests.antt =====
-- The ensemble at concrete inputs, with thousandths for the floats.
use quant_stack.Prelude.{
  ℕ, zero, suc, ◌+◌, ◌≡◌, refl, String, false, none, some, List, [], ◌∷◌, ◌++◌, map, arith,
}
use quant_stack.Prelude.Dict.{Dict}
use quant_stack.Prelude.Floats.Thousandths.{thousandths}
use quant_stack.Prediction.Labeling.{Label, Verdict, win, loss, profit_target}
use quant_stack.Prediction.Ensemble.{TrainingRow}
use quant_stack.Prediction.Ensemble.Specs.{core_feature_names}
use quant_stack.Prediction.Ensemble.Join.{as_of_value}
use quant_stack.Prediction.Ensemble.Join.Bisect.{last_before, as_of_value_lem}
use quant_stack.Prediction.Ensemble.Training.{Fitted, Factory, FeatureSnapshot, train_models}
use quant_stack.Prediction.Ensemble.Engine.{Key, Sources, predict}
use quant_stack.Prediction.Ensemble.Holdout.{fitted_of, holdout_unseen}
use quant_stack.Prediction.Ensemble.Kept.{predict_again}

abbrev series : List (ℕ × ℕ)
series = (10, 100) ∷ (20, 200) ∷ (20, 250) ∷ (30, 300) ∷ []

as_of_value_lem_example : as_of_value series 25 ≡ last_before 25 series
as_of_value_lem_example = as_of_value_lem 25 series (omega arith)

between_two : as_of_value series 25 ≡ some 250
unfolding as_of_value
between_two = refl

abbrev pub label_at : ℕ → Verdict → Label ℕ
label_at t v = record {
  symbol = "INFY";
  timeframe = "D";
  direction = "long";
  entry_ts = t;
  entry_price = 1000;
  exit_ts = t + 5;
  exit_price = 1100;
  exit_reason = profit_target;
  exit_return_pct = 100;
  label = v;
  label_quality = 10;
  bars_held = 5;
  barrier_config = record {
    profit_target_pct = 50;
    stop_pct = 30;
    max_holding_bars = 10;
    trail_activation_pct = 20;
    trail_pct = 10;
  };
  gap = false;
  ambiguous = false;
}

-- `n` labels, every second one a win.
abbrev pub labels_of : ℕ → List (Label ℕ)
labels_of zero = []
labels_of (suc zero) = label_at 10 loss ∷ []
labels_of (suc (suc n)) = label_at 10 win ∷ label_at 20 loss ∷ labels_of n

abbrev pub model : Fitted ℕ
model = record { predict = λ x. 1; predict_proba = λ x. 700; weights = none }

abbrev pub factories : List (Factory ℕ)
factories = record { name = "random_forest"; fit = λ xs ys. some model } ∷ []

abbrev pub sources : Sources ℕ
sources = record {
  label_history = labels_of 40;
  feature_series = map (λ (n : String). (n, (5, 500) ∷ [])) core_feature_names;
  now = 100;
}

abbrev pub key : Key
key = record { symbol = "INFY"; timeframe = "D"; direction = "long" }

abbrev pub snapshot : FeatureSnapshot ℕ
snapshot = record { symbol = "INFY"; snapshot_id = "s1"; as_of = 90; feature_values = [] }

predict_again_example :
    let before = predict thousandths factories key sources snapshot [] in
    predict thousandths [] key (record sources { label_history = [] }) snapshot before.0 ≡ before
predict_again_example =
    predict_again thousandths factories [] key sources (record sources { label_history = [] })
      snapshot []

abbrev observed : Dict (List (ℕ × ℕ))
observed = ("price_momentum_20", series) ∷ []

abbrev observed_later : Dict (List (ℕ × ℕ))
observed_later = ("price_momentum_20", series ++ ((40, 900) ∷ [])) ∷ []

abbrev row : ℕ → ℕ → TrainingRow ℕ
row t y = record { ts = t; features = ("price_momentum_20", 500) ∷ []; label = y }

abbrev front : List (TrainingRow ℕ)
front = row 1 1 ∷ row 2 0 ∷ row 3 1 ∷ row 4 0 ∷ []

holdout_unseen_example :
    map
      (fitted_of thousandths)
      (train_models thousandths factories (front ++ (row 5 1 ∷ [])) ("price_momentum_20" ∷ []) []).0
    ≡ map
        (fitted_of thousandths)
        (train_models thousandths factories
          (front ++ (row 9 0 ∷ []))
          ("price_momentum_20" ∷ [])
          []).0
holdout_unseen_example =
    holdout_unseen thousandths factories (front ++ (row 5 1 ∷ [])) (front ++ (row 9 0 ∷ []))
      ("price_momentum_20" ∷ []) [] refl refl
