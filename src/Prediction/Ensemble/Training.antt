-- ===== src/Prediction/Ensemble/Training.antt =====
-- Training of backend/app/prediction/ensemble.py: the statistics of the features, the fit of the models
-- on the first rows, their weights by the last ones, and a prediction from what was trained.
use quant_stack.Prelude.{
  ℕ, suc, ◌+◌, ◌-◌, ◌*◌, ◌/◌, String, Bool, true, Option, none, some, List, [], ◌∷◌, map, take,
  drop, length, ◌==◌, ◌&&◌, if◌then◌else◌,
}
use Prim.Native.Nat.{min, max}
use quant_stack.Prelude.Dict.{Dict, lookup, insert}
use quant_stack.Prelude.Int.{pos}
use quant_stack.Prelude.Floats.{Floats, num, gt, max_of, sum_of}
use quant_stack.Prediction.Ensemble.{TrainingRow, ModelVersion}

-- What a library's fitted model says of a row, and its coefficients or importances.
pub record Fitted (F : Type 0) : Type 0 where
  pub predict : List F → ℕ
  pub predict_proba : List F → F
  pub weights : Option (List F)

-- An entry of `_model_factories`. A fit that raises gives nothing.
pub record Factory (F : Type 0) : Type 0 where
  pub name : String
  pub fit : List (List F) → List ℕ → Option (Fitted F)

-- The kind is in the model's weights: coefficients of a linear one, importances of a tree.
pub record TrainedModel (F : Type 0) : Type 0 where
  pub name : String
  pub model : Fitted F
  pub weight : F
  pub holdout_accuracy : F

pub record EnsembleTraining (F : Type 0) : Type 0 where
  pub symbol : String
  pub timeframe : String
  pub direction : String
  pub trained_at : ℕ
  pub n_samples : ℕ
  pub n_holdout : ℕ
  pub feature_names : List String
  pub feature_means : Dict F
  pub feature_stds : Dict F
  pub model_version : ModelVersion
  pub models : List (TrainedModel F)
  pub calibration_pairs : List (F × ℕ)

-- The fields of a snapshot that a prediction reads.
pub record FeatureSnapshot (F : Type 0) : Type 0 where
  pub symbol : String
  pub snapshot_id : String
  pub as_of : ℕ
  pub feature_values : Dict F

-- `len(set(ys)) < 2`
abbrev pub all_equal : ℕ → List ℕ → Bool
all_equal y [] = true
all_equal y (z ∷ zs) = (z == y) && all_equal y zs

abbrev pub is_one_class : List ℕ → Bool
is_one_class [] = true
is_one_class (y ∷ ys) = all_equal y ys

-- `max(1, min(n - 1, round(n * 0.8)))`: four fifths of n lie never half way between two numbers.
abbrev pub split_of : ℕ → ℕ
split_of n = max 1 (min (n - 1) ((8 * n + 5) / 10))

-- `zip(xs, ys)` of lists of one length.
abbrev pub zip : {A B : Type 0} → List A → List B → List (A × B)
zip (x ∷ xs) (y ∷ ys) = (x, y) ∷ zip xs ys
zip _ _ = []

module _ {F : Type 0} (fl : Floats F) where
  -- `d.get(name, 0.0)`
  abbrev pub get_or_zero : Dict F → String → F
  get_or_zero d name = elim (lookup name d) [ none ↦ fl.lit (pos 0) 1 | some v ↦ v ]

  -- `features.get(name, means[name])`, where the means have every name.
  abbrev pub imputed : Dict F → Dict F → String → F
  imputed means features name = elim (lookup name features) [
    | none ↦ get_or_zero means name
    | some v ↦ v
  ]

  abbrev pub row_of : List String → Dict F → Dict F → List F
  row_of names means features = map (imputed means features) names

  -- `[row.features[name] for row in rows if name in row.features]`
  unfoldable pub known_values : String → List (TrainingRow F) → List F
  known_values name [] = []
  known_values name (r ∷ rows) = elim (lookup name r.features) [
    | none ↦ known_values name rows
    | some v ↦ v ∷ known_values name rows
  ]

  -- The mean and the standard deviation of the values that are known; 0 where none is.
  unfoldable pub stats_of : List F → F × F
  stats_of [] = (fl.lit (pos 0) 1, fl.lit (pos 0) 1)
  stats_of (x ∷ xs) =
      let n = num fl (length (x ∷ xs)) in
      let mean = fl.div (sum_of fl (x ∷ xs)) n in
      let squares = map (λ v. fl.mul (fl.sub v mean) (fl.sub v mean)) (x ∷ xs) in
      (mean, fl.sqrt (fl.div (sum_of fl squares) n))

  unfoldable pub feature_stats : List (TrainingRow F) → List String → Dict F × Dict F
  unfolding known_values stats_of
  feature_stats rows [] = ([], [])
  feature_stats rows (name ∷ names) =
      let (mean, std) = stats_of (known_values name rows) in
      let (means, stds) = feature_stats rows names in (insert name mean means, insert name std stds)

  unfoldable pub standardize : Dict F → List String → Dict F → Dict F → List F
  standardize values [] means stds = []
  standardize values (name ∷ names) means stds =
      let rest = standardize values names means stds in
      let value = imputed means values name in
      let std = get_or_zero stds name in
      (if gt fl std (num fl 0)
        then fl.div (fl.sub value (get_or_zero means name)) std
        else fl.lit (pos 0) 1)
      ∷ rest

  -- How many of the rows are predicted right.
  unfoldable pub hits : Fitted F → List (List F × ℕ) → ℕ
  hits m [] = 0
  hits m ((x, y) ∷ xs) = if m.predict x == y then suc (hits m xs) else hits m xs

  -- `(estimator.predict(X_holdout) == y_holdout).mean()`, or 0.5 of no rows.
  unfoldable pub accuracy_of : Fitted F → List (List F × ℕ) → F
  unfolding hits
  accuracy_of m [] = fl.lit (pos 5) 1
  accuracy_of m (x ∷ xs) = fl.div (num fl (hits m (x ∷ xs))) (num fl (length (x ∷ xs)))

  -- The skill above chance, and a little.
  abbrev pub weight_of : F → F
  weight_of accuracy =
      fl.add (max_of fl (fl.sub accuracy (fl.lit (pos 5) 1)) (fl.lit (pos 0) 1)) (fl.lit (pos 1) 6)

  -- The loop over the factories.
  unfoldable pub fit_all :
      List (List F) → List ℕ → List (List F × ℕ) → List (Factory F) → List (TrainedModel F)
  unfolding accuracy_of
  fit_all xs ys holdout [] = []
  fit_all xs ys holdout (f ∷ fs) = elim (f.fit xs ys) [
    | none ↦ fit_all xs ys holdout fs
    | some m ↦
        let accuracy = accuracy_of m holdout in
        record {
          name = f.name;
          model = m;
          weight = weight_of accuracy;
          holdout_accuracy = fl.round 4 accuracy;
        }
        ∷ fit_all xs ys holdout fs
  ]

  -- The models, with the number of rows that they are fitted on.
  unfoldable pub train_models :
      List (Factory F) → List (TrainingRow F) → List String → Dict F → List (TrainedModel F) × ℕ
  unfolding fit_all
  train_models factories rows names means =
      let xs = map (λ r. row_of names means r.features) rows in
      let ys = map (λ r. r.label) rows in
      let split = split_of (length rows) in
      (
        if is_one_class (take split ys)
            then []
            else fit_all (take split xs) (take split ys) (zip (drop split xs) (drop split ys))
                factories,
        split,
      )
