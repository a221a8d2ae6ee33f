-- ===== src/Prediction/Ensemble.antt =====
-- backend/app/prediction/ensemble.py: the records of the ensemble, which its parts share. A model that a
-- library has fitted is a parameter: what it predicts for a row, and its coefficients or importances.

pub mod Blend
pub mod Join
pub mod Training
pub mod Specs
pub mod Engine
pub mod Fits
pub mod Holdout
pub mod Kept
pub mod Tests
use quant_stack.Prelude.{ℕ, Bool, String, Option, List, ◌≡◌}
use quant_stack.Prelude.Dict.{Dict}

pub record FeatureContribution (F : Type 0) : Type 0 where
  pub feature : String
  pub contribution : F

pub record ModelPrediction (F : Type 0) : Type 0 where
  pub name : String
  pub probability : F
  pub weight : F
  pub holdout_accuracy : F
  pub explanation : List (FeatureContribution F)

-- The version's text by its parts: the number of samples, and when it was trained.
pub data ModelVersion : Type 0 where
  untrained : ℕ → ModelVersion
  trained_at_version : ℕ → ℕ → ModelVersion

pub record EnsemblePrediction (F : Type 0) : Type 0 where
  pub symbol : String
  pub snapshot_id : String
  pub as_of : ℕ
  pub probability : F
  pub confidence : F
  pub uncertainty : F
  pub disagreement_score : F
  pub model_version : ModelVersion
  pub training_samples : ℕ
  pub model_predictions : List (ModelPrediction F)

-- A row of the training set; the label is 1 or 0.
pub record TrainingRow (F : Type 0) : Type 0 where
  pub ts : ℕ
  pub features : Dict F
  pub label : ℕ
