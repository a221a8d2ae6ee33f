-- ===== src/Prediction/Ensemble/Engine.antt =====
-- The engine of backend/app/prediction/ensemble.py: `train`, `predict`, and the trainings that it keeps.
-- What the label engine, the feature store, the snapshot engine and the clock answer are arguments; the
-- hash of the rows and what is written to tables are left out.
use quant_stack.Prelude.{
  ℕ, ◌-◌, String, Bool, true, false, Option, none, some, List, [], ◌∷◌, map, drop, length, ltb, leb,
  filterb, ◌&&◌, if◌then◌else◌,
}
use quant_stack.Prelude.{str_eq}
use quant_stack.Prelude.Dict.{Dict}
use quant_stack.Prelude.Int.{pos}
use quant_stack.Prelude.Floats.{Floats, num, sum_of}
use quant_stack.Prediction.Labeling.{Label}
use quant_stack.Prediction.Ensemble.{
  TrainingRow, ModelPrediction, EnsemblePrediction, untrained, trained_at_version,
}
use quant_stack.Prediction.Ensemble.Specs.{feature_names, core_feature_names}
use quant_stack.Prediction.Ensemble.Blend.{
  disagreement_score, uncertainty_of, blend_predictions, explain_model,
}
use quant_stack.Prediction.Ensemble.Join.{assemble_dataset}
use quant_stack.Prediction.Ensemble.Training.{
  Factory, TrainedModel, EnsembleTraining, FeatureSnapshot, zip, row_of, feature_stats, standardize,
  train_models,
}

-- The key of a training.
pub record Key : Type 0 where
  pub symbol : String
  pub timeframe : String
  pub direction : String

abbrev pub same_key : Key → Key → Bool
same_key j k =
    str_eq j.symbol k.symbol && str_eq j.timeframe k.timeframe && str_eq j.direction k.direction

-- What a training reads: the labels of the key, the series of the features, the clock.
pub record Sources (F : Type 0) : Type 0 where
  pub label_history : List (Label F)
  pub feature_series : Dict (List (ℕ × F))
  pub now : ℕ

-- `_trained`
abbrev pub Trainings : Type 0 → Type 0
Trainings F = List (Key × EnsembleTraining F)

-- `_trained.get(key)`
unfoldable pub find_training : {F : Type 0} → Key → Trainings F → Option (EnsembleTraining F)
find_training k [] = none
find_training k ((j, t) ∷ ts) = if same_key j k then some t else find_training k ts

-- `_trained[key] = training`
unfoldable pub keep_training : {F : Type 0} → Key → EnsembleTraining F → Trainings F → Trainings F
keep_training k t [] = (k, t) ∷ []
keep_training k t ((j, u) ∷ ts) =
    if same_key j k then (k, t) ∷ ts else (j, u) ∷ keep_training k t ts

abbrev pub is_trained : {F : Type 0} → EnsembleTraining F → Bool
is_trained t = elim t.models [ [] ↦ false | m ∷ ms ↦ true ]

module _ {F : Type 0} (fl : Floats F) where
  -- The weighted average for one row.
  abbrev pub blended : List (TrainedModel F) → List F → F
  blended models x =
      let total = sum_of fl (map (λ m. m.weight) models) in
      if fl.le total (num fl 0)
      then fl.div (sum_of fl (map (λ m. m.model.predict_proba x) models)) (num fl (length models))
      else fl.div (sum_of fl (map (λ m. fl.mul (m.model.predict_proba x) m.weight) models)) total

  unfoldable pub blended_probabilities : List (TrainedModel F) → List (List F) → List F
  blended_probabilities [] xs = map (λ x. fl.lit (pos 5) 1) xs
  blended_probabilities (m ∷ ms) xs = map (blended (m ∷ ms)) xs

  -- The pairs of the rows that no model was fitted on.
  abbrev pub calibration_of :
      List (TrainedModel F) → List (TrainingRow F) → List String → Dict F → List (F × ℕ)
  calibration_of [] holdout names means = []
  calibration_of (m ∷ ms) holdout names means =
      zip (blended_probabilities (m ∷ ms) (map (λ r. row_of fl names means r.features) holdout))
        (map (λ r. r.label) holdout)

  -- The training of at least `MIN_TRAINING_SAMPLES` rows, with `_fit_and_calibrate`.
  unfoldable pub fit_and_calibrate :
      List (Factory F) → Key → ℕ → List (TrainingRow F) → EnsembleTraining F
  unfolding train_models feature_stats blended_probabilities
  fit_and_calibrate factories k now rows =
      let (means, stds) = feature_stats fl rows feature_names in
      let (models, split) = train_models fl factories rows feature_names means in
      record {
        symbol = k.symbol;
        timeframe = k.timeframe;
        direction = k.direction;
        trained_at = now;
        n_samples = length rows;
        n_holdout = length rows - split;
        feature_names = feature_names;
        feature_means = means;
        feature_stds = stds;
        model_version = trained_at_version now (length rows);
        models = models;
        calibration_pairs = calibration_of models (drop split rows) feature_names means;
      }

  -- The training of too few rows.
  abbrev pub insufficient : Key → ℕ → List (TrainingRow F) → EnsembleTraining F
  insufficient k now rows = record {
    symbol = k.symbol;
    timeframe = k.timeframe;
    direction = k.direction;
    trained_at = now;
    n_samples = length rows;
    n_holdout = 0;
    feature_names = feature_names;
    feature_means = [];
    feature_stds = [];
    model_version = untrained (length rows);
    models = [];
    calibration_pairs = [];
  }

  -- The rows of the labels of quality 0.2 or more, with a coverage of 0.6.
  unfoldable pub training_rows : Sources F → List (TrainingRow F)
  unfolding assemble_dataset
  training_rows s =
      assemble_dataset fl (filterb (λ l. leb 2 l.label_quality) s.label_history) s.feature_series
        feature_names (fl.lit (pos 6) 1) core_feature_names

  -- What `train` makes of its sources.
  unfoldable pub training_of : List (Factory F) → Key → Sources F → EnsembleTraining F
  unfolding training_rows fit_and_calibrate
  training_of factories k s =
      let rows = training_rows s in
      if ltb (length rows) 40
      then insufficient k s.now rows
      else fit_and_calibrate factories k s.now rows

  unfoldable pub train :
      List (Factory F) → Key → Sources F → Trainings F → Trainings F × EnsembleTraining F
  unfolding training_of keep_training
  train factories k s kept =
      let training = training_of factories k s in (keep_training k training kept, training)

  -- The prediction of one model.
  abbrev pub prediction_of :
      EnsembleTraining F → List F → List F → TrainedModel F → ModelPrediction F
  prediction_of t x_raw x_std m = record {
    name = m.name;
    probability = fl.round 4 (m.model.predict_proba x_raw);
    weight = m.weight;
    holdout_accuracy = m.holdout_accuracy;
    explanation = explain_model fl m.model.weights t.feature_names x_std;
  }

  -- The prediction of what is not trained.
  abbrev pub neutral : EnsembleTraining F → FeatureSnapshot F → EnsemblePrediction F
  neutral t s = record {
    symbol = s.symbol;
    snapshot_id = s.snapshot_id;
    as_of = s.as_of;
    probability = fl.lit (pos 5) 1;
    confidence = fl.lit (pos 0) 1;
    uncertainty = fl.lit (pos 1) 0;
    disagreement_score = fl.lit (pos 0) 1;
    model_version = t.model_version;
    training_samples = t.n_samples;
    model_predictions = [];
  }

  -- The prediction of models that are there.
  unfoldable pub blend_of : EnsembleTraining F → FeatureSnapshot F → EnsemblePrediction F
  unfolding blend_predictions uncertainty_of disagreement_score explain_model standardize
  blend_of t s =
      let x_raw = row_of fl t.feature_names t.feature_means s.feature_values in
      let x_std = standardize fl s.feature_values t.feature_names t.feature_means t.feature_stds in
      let predictions = map (prediction_of t x_raw x_std) t.models in
      let (probability, confidence) = blend_predictions fl predictions in
      record {
        symbol = s.symbol;
        snapshot_id = s.snapshot_id;
        as_of = s.as_of;
        probability = fl.round 4 probability;
        confidence = fl.round 4 confidence;
        uncertainty = uncertainty_of fl probability;
        disagreement_score = disagreement_score fl (map (λ p. p.probability) predictions);
        model_version = t.model_version;
        training_samples = t.n_samples;
        model_predictions = predictions;
      }

  unfoldable pub predict_from_training :
      EnsembleTraining F → FeatureSnapshot F → EnsemblePrediction F
  unfolding blend_of
  predict_from_training t s = if is_trained t then blend_of t s else neutral t s

  -- `predict`: the training that is kept, or else a new one, on a fresh snapshot.
  unfoldable pub predict :
      List (Factory F)
      → Key
      → Sources F
      → FeatureSnapshot F
      → Trainings F
      → Trainings F × EnsemblePrediction F
  unfolding find_training train predict_from_training
  predict factories k s snapshot kept = elim (find_training k kept) [
    | some t ↦ (kept, predict_from_training t snapshot)
    | none ↦ let (kept', t) = train factories k s kept in (kept', predict_from_training t snapshot)
  ]
