-- ===== src/Prediction/Ensemble/Fits.antt =====
-- What the models of a training are fitted to, and the pairs that calibrate it.
use mathlib.Core.List.{append_assoc}
use quant_stack.Prelude.{
  ℕ, zero, suc, ◌≡◌, ◌≢◌, refl, subst, ap, ◌∙◌, String, some, List, [], ◌∷◌, ◌++◌, map, take, drop,
  length, All, Bool-cases, Option-cases, inl, inr,
}
use quant_stack.Prelude.Dict.{Dict}
use quant_stack.Prelude.Floats.{Floats}
use quant_stack.Prediction.Ensemble.{TrainingRow}
use quant_stack.Prediction.Ensemble.Training.{
  Factory, TrainedModel, zip, is_one_class, split_of, row_of, fit_all, accuracy_of, train_models,
}
use quant_stack.Prediction.Ensemble.Engine.{blended, blended_probabilities, calibration_of}

pub take-map {ℓ κ} :
    {A : Type ℓ} {B : Type κ} (n : ℕ) (f : A → B) (xs : List A)
    → take n (map f xs) ≡ map f (take n xs)
take-map zero f xs = refl
take-map (suc n) f [] = refl
take-map (suc n) f (x ∷ xs) = ap (λ r. f x ∷ r) (take-map n f xs)

drop-map {ℓ κ} :
    {A : Type ℓ} {B : Type κ} (n : ℕ) (f : A → B) (xs : List A)
    → drop n (map f xs) ≡ map f (drop n xs)
drop-map zero f xs = refl
drop-map (suc n) f [] = refl
drop-map (suc n) f (x ∷ xs) = drop-map n f xs

-- The element stands in the list.
abbrev pub Among {ℓ} : {A : Type ℓ} → A → List A → Type ℓ
Among a xs = (before : List _) × (after : List _) × (xs ≡ before ++ a ∷ after)

module _ {F : Type 0} where
  -- Each row with its label.
  abbrev pub pairs_of : {A : Type 0} → (TrainingRow F → A) → List (TrainingRow F) → List (A × ℕ)
  pairs_of f [] = []
  pairs_of f (r ∷ rows) = (f r, r.label) ∷ pairs_of f rows

  zip-pairs :
      {A : Type 0} (f : TrainingRow F → A) (rows : List (TrainingRow F))
      → zip (map f rows) (map (λ r. r.label) rows) ≡ pairs_of f rows
  zip-pairs f [] = refl
  zip-pairs f (r ∷ rows) = ap (λ ps. (f r, r.label) ∷ ps) (zip-pairs f rows)

  -- The rows before the split, and those behind it.
  abbrev pub front : List (TrainingRow F) → List (TrainingRow F)
  front rows = take (split_of (length rows)) rows

  abbrev pub back : List (TrainingRow F) → List (TrainingRow F)
  back rows = drop (split_of (length rows)) rows

module _ {F : Type 0} (fl : Floats F) where
  -- The model is what the factory of its name, one of `factories`, fits to the rows `xs` with their
  -- labels `ys`, and its accuracy is the one on the pairs `holdout`.
  abbrev pub IsFitOf :
      List (Factory F) → List (List F) → List ℕ → List (List F × ℕ) → TrainedModel F → Type 0
  IsFitOf factories xs ys holdout m =
      (f : Factory F) × Among f factories
      × (f.name ≡ m.name)
      × (f.fit xs ys ≡ some m.model)
      × (m.holdout_accuracy ≡ fl.round 4 (accuracy_of fl m.model holdout))

  map-twice :
      {A B C : Type 0} (f : A → B) (g : B → C) (xs : List A)
      → map g (map f xs) ≡ map (λ x. g (f x)) xs
  map-twice f g [] = refl
  map-twice f g (x ∷ xs) = ap (λ ys. g (f x) ∷ ys) (map-twice f g xs)

  pub calibration-pairs :
      (models : List (TrainedModel F)) (rows : List (TrainingRow F)) (names : List String)
      (means : Dict F)
      → models ≢ []
      → calibration_of fl models rows names means
        ≡ pairs_of (λ r. blended fl models (row_of fl names means r.features)) rows
  unfolding blended_probabilities
  calibration-pairs [] rows names means h = absurd (h refl)
  calibration-pairs (m ∷ ms) rows names means h =
      let vector = λ (r : TrainingRow F). row_of fl names means r.features in
      ap (λ ps. zip ps (map (λ (r : TrainingRow F). r.label) rows))
        (map-twice vector (blended fl (m ∷ ms)) rows)
      ∙ zip-pairs (λ r. blended fl (m ∷ ms) (vector r)) rows

  Among-later : {A : Type 0} (a b : A) (xs : List A) → Among a xs → Among a (b ∷ xs)
  Among-later a b xs h = (b ∷ h.0, h.1, ap (λ l. b ∷ l) h.2)

  -- The models come from the factories behind `gone` as well.
  fit_all-fits :
      (xs : List (List F)) (ys : List ℕ) (holdout : List (List F × ℕ)) (gone fs : List (Factory F))
      → All (IsFitOf (gone ++ fs) xs ys holdout) (fit_all fl xs ys holdout fs)
  unfolding fit_all
  fit_all-fits xs ys holdout gone [] = tt
  fit_all-fits xs ys holdout gone (f ∷ fs) =
      let rest : All (IsFitOf (gone ++ f ∷ fs) xs ys holdout) (fit_all fl xs ys holdout fs) =
        subst (λ l. All (IsFitOf l xs ys holdout) (fit_all fl xs ys holdout fs))
          (append_assoc gone (f ∷ []) fs) (fit_all-fits xs ys holdout (gone ++ f ∷ []) fs) in
      elim (Option-cases (f.fit xs ys)) [
        | inl e ↦ rw e rest
        | inr (m, e) ↦ rw e ((f, (gone, fs, refl), refl, e, refl), rest)
      ]

  pub train_models-fits :
      (factories : List (Factory F)) (rows : List (TrainingRow F)) (names : List String)
      (means : Dict F)
      → let vector : TrainingRow F → List F = λ r. row_of fl names means r.features in
        All
          (IsFitOf factories
            (map vector (front rows))
            (map (λ r. r.label) (front rows))
            (pairs_of vector (back rows)))
          (train_models fl factories rows names means).0
  unfolding train_models
  train_models-fits factories rows names means =
      let vector = λ (r : TrainingRow F). row_of fl names means r.features in
      let label_of = λ (r : TrainingRow F). r.label in
      let n = split_of (length rows) in
      let xs = take-map n vector rows in
      let ys = take-map n label_of rows in
      let held : zip (drop n (map vector rows)) (drop n (map label_of rows))
          ≡ pairs_of vector (drop n rows) =
        ap (λ l. zip l (drop n (map label_of rows))) (drop-map n vector rows)
        ∙ ap (zip (map vector (drop n rows))) (drop-map n label_of rows)
        ∙ zip-pairs vector (drop n rows) in
      elim (Bool-cases (is_one_class (take n (map label_of rows)))) [
        | inl p ↦ rw p tt
        | inr p ↦ rw p (
            subst
              (λ l.
                All
                  (IsFitOf factories l (map label_of (take n rows)) (pairs_of vector (drop n rows)))
                  (fit_all fl (take n (map vector rows)) (take n (map label_of rows))
                    (zip (drop n (map vector rows)) (drop n (map label_of rows))) factories))
              xs
              (subst
                (λ l.
                  All
                    (IsFitOf factories (take n (map vector rows)) l (pairs_of vector (drop n rows)))
                    (fit_all fl (take n (map vector rows)) (take n (map label_of rows))
                      (zip (drop n (map vector rows)) (drop n (map label_of rows))) factories))
                ys
                (subst
                  (λ l.
                    All
                      (IsFitOf factories (take n (map vector rows)) (take n (map label_of rows)) l)
                      (fit_all fl (take n (map vector rows)) (take n (map label_of rows))
                        (zip (drop n (map vector rows)) (drop n (map label_of rows))) factories))
                  held
                  (fit_all-fits (take n (map vector rows)) (take n (map label_of rows))
                    (zip (drop n (map vector rows)) (drop n (map label_of rows))) [] factories))))
      ]
