-- ===== src/Prediction/Ensemble/Kept.antt =====
-- The trainings that the engine keeps.
use quant_stack.Prelude.{
  ◌≡◌, true, some, List, [], ◌∷◌, arith, eq_refl, Bool-cases, Option-cases, inl, inr,
}
use quant_stack.Prelude.Floats.{Floats}
use quant_stack.Prediction.Ensemble.Training.{Factory, EnsembleTraining, FeatureSnapshot}
use quant_stack.Prediction.Ensemble.Engine.{
  Key, Sources, Trainings, same_key, find_training, keep_training, training_of, train, predict,
}

same_key_refl : (k : Key) → same_key k k ≡ true
same_key_refl k = simp eq_refl

find-keep :
    {F : Type 0} (k : Key) (t : EnsembleTraining F) (ts : Trainings F)
    → find_training k (keep_training k t ts) ≡ some t
unfolding find_training keep_training
find-keep k t [] = let e = same_key_refl k in ground (arith, e)
find-keep k t ((j, u) ∷ ts) =
    let e = same_key_refl k in
    let rest = find-keep k t ts in
    elim (Bool-cases (same_key j k)) [
      | inl p ↦ ground (arith, e, p)
      | inr p ↦ ground (arith, e, p, rest)
    ]

module _ {F : Type 0} (fl : Floats F) where
  -- A prediction of a key that is asked for again, from the same snapshot, is the same prediction, whatever the
  -- labels, the series, the clock and the libraries give by then, and it changes no training.
  pub predict_again :
      (factories later : List (Factory F)) (k : Key) (s s' : Sources F)
      (snapshot : FeatureSnapshot F) (kept : Trainings F)
      → let (kept', p) = predict fl factories k s snapshot kept in
        predict fl later k s' snapshot kept' ≡ (kept', p)
  unfolding predict train
  predict_again factories later k s s' snapshot kept = elim (Option-cases (find_training k kept)) [
    | inr (t, e) ↦ ground (arith, e)
    | inl e ↦
        let again = find-keep k (training_of fl factories k s) kept in ground (arith, e, again)
  ]
