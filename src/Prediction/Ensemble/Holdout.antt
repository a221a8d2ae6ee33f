-- ===== src/Prediction/Ensemble/Holdout.antt =====
-- The rows that the models are fitted on, and those that they are weighed and calibrated by.
use quant_stack.Prelude.{
  ℕ, ◌+◌, ◌≤◌, ◌<◌, ◌≡◌, refl, sym, ap, ◌∙◌, String, true, false, List, [], ◌∷◌, map, take, drop,
  length, ltb, All, if◌then◌else◌, arith, Option-cases, inl, inr,
}
use quant_stack.Prelude.Dict.{Dict}
use quant_stack.Prelude.Floats.{Floats}
use quant_stack.Prediction.Ensemble.{TrainingRow}
use quant_stack.Prediction.Ensemble.Fits.{take-map, pairs_of, front, back, IsFitOf}
use quant_stack.Prediction.Ensemble.Specs.{feature_names}
use quant_stack.Prediction.Ensemble.Training.{
  Fitted, Factory, TrainedModel, EnsembleTraining, zip, is_one_class, split_of, row_of, fit_all,
  train_models,
}
use quant_stack.Prediction.Ensemble.Engine.{
  Key, Sources, blended, training_rows, training_of, insufficient,
}

module _ {F : Type 0} (fl : Floats F) where
  -- A model with its name, as it is fitted.
  abbrev pub fitted_of : TrainedModel F → String × Fitted F
  fitted_of m = (m.name, m.model)

  fit_all-fitted :
      (xs : List (List F)) (ys : List ℕ) (h h' : List (List F × ℕ)) (fs : List (Factory F))
      → map fitted_of (fit_all fl xs ys h fs) ≡ map fitted_of (fit_all fl xs ys h' fs)
  unfolding fit_all
  fit_all-fitted xs ys h h' [] = refl
  fit_all-fitted xs ys h h' (f ∷ fs) =
      let rest = fit_all-fitted xs ys h h' fs in
      elim (Option-cases (f.fit xs ys)) [
        | inl e ↦ ground (arith, e, rest)
        | inr (m, e) ↦ ground (arith, e, rest)
      ]

  fits-unseen :
      (fs : List (Factory F)) (xs : List (List F)) (ys : List ℕ) (h h' : List (List F × ℕ))
      → map fitted_of (if is_one_class ys then [] else fit_all fl xs ys h fs)
        ≡ map fitted_of (if is_one_class ys then [] else fit_all fl xs ys h' fs)
  fits-unseen fs xs ys h h' = let e = fit_all-fitted xs ys h h' fs in ground (arith, e)

  same_front :
      {A : Type 0} (f : TrainingRow F → A) (rows others : List (TrainingRow F))
      → length rows ≡ length others
      → take (split_of (length rows)) rows ≡ take (split_of (length rows)) others
      → take (split_of (length rows)) (map f rows) ≡ take (split_of (length others)) (map f others)
  same_front f rows others h e =
      take-map (split_of (length rows)) f rows
      ∙ ap (map f) e
      ∙ sym (take-map (split_of (length rows)) f others)
      ∙ ap (λ n. take (split_of n) (map f others)) h

  -- With the means given, the models as they are fitted depend on the rows before the split alone: two
  -- training sets of one length that agree there give the same models under the same names.
  pub holdout_unseen :
      (factories : List (Factory F)) (rows others : List (TrainingRow F)) (names : List String)
      (means : Dict F)
      → length rows ≡ length others
      → take (split_of (length rows)) rows ≡ take (split_of (length rows)) others
      → map fitted_of (train_models fl factories rows names means).0
        ≡ map fitted_of (train_models fl factories others names means).0
  unfolding train_models
  holdout_unseen factories rows others names means h e =
      let vector = λ (r : TrainingRow F). row_of fl names means r.features in
      let label_of = λ (r : TrainingRow F). r.label in
      let p = same_front vector rows others h e in
      let q = same_front label_of rows others h e in
      let n = split_of (length rows) in
      let n' = split_of (length others) in
      let held = zip (drop n (map vector rows)) (drop n (map label_of rows)) in
      let held' = zip (drop n' (map vector others)) (drop n' (map label_of others)) in
      ap
        (λ xs. map fitted_of (
          if is_one_class (take n (map label_of rows))
          then []
          else fit_all fl xs (take n (map label_of rows)) held factories))
        p
      ∙ ap
          (λ ys. map fitted_of (
            if is_one_class ys
            then []
            else fit_all fl (take n' (map vector others)) ys held factories))
          q
      ∙ fits-unseen factories (take n' (map vector others)) (take n' (map label_of others)) held
          held'

  -- The row as the models of the training read it.
  abbrev pub vector_of : EnsembleTraining F → TrainingRow F → List F
  vector_of t r = row_of fl t.feature_names t.feature_means r.features

  -- What holds of a training that has a model.
  pub record IsHeldOut (factories : List (Factory F)) (rows : List (TrainingRow F))
      (t : EnsembleTraining F) : Type 0 where
    pub enough : 40 ≤ length rows
    pub counted : t.n_samples ≡ length rows
    pub both_classes :
        is_one_class (take (split_of (length rows)) (map (λ r. r.label) rows)) ≡ false
    pub fitted :
        All
          (IsFitOf fl factories
            (map (vector_of t) (front rows))
            (map (λ r. r.label) (front rows))
            (pairs_of (vector_of t) (back rows)))
          t.models
    pub parted : t.n_holdout + split_of (length rows) ≡ length rows
    pub held_out : 0 < t.n_holdout
    pub paired :
        t.calibration_pairs ≡ pairs_of (λ r. blended fl t.models (vector_of t r)) (back rows)

  pub training_of-few :
      (factories : List (Factory F)) (k : Key) (s : Sources F)
      → ltb (length (training_rows fl s)) 40 ≡ true
      → training_of fl factories k s ≡ insufficient fl k s.now (training_rows fl s)
  unfolding training_of
  training_of-few factories k s p = rw p refl
