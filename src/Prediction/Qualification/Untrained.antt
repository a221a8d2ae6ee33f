-- ===== src/Prediction/Qualification/Untrained.antt =====
-- From the ensemble through the agreement to the gate: what happens where there is too little to learn from.
use quant_stack.Prelude.{◌≡◌, ◌<◌, ap, false, none, List, [], length, Bool-cases, inl, inr, arith}
use quant_stack.Prelude.Floats.{Floats}
use quant_stack.Prediction.Ensemble.{EnsemblePrediction}
use quant_stack.Prediction.Ensemble.Training.{Factory, FeatureSnapshot}
use quant_stack.Prediction.Ensemble.Engine.{
  Key, Sources, Trainings, find_training, training_rows, train, predict, predict_from_training,
  neutral, insufficient,
}
use quant_stack.Prediction.Ensemble.Holdout.{training_of-few}
use quant_stack.Prediction.Agreement.{evaluate_agreement}
use quant_stack.Prediction.Qualification.{Facts, qualify_trade}
use quant_stack.Prediction.Qualification.Gate.{qualify_iff}

module _ {F : Type 0} (fl : Floats F) where
  predict-few :
      (factories : List (Factory F)) (k : Key) (s : Sources F) (snapshot : FeatureSnapshot F)
      (kept : Trainings F)
      → find_training k kept ≡ none
      → length (training_rows fl s) < 40
      → (predict fl factories k s snapshot kept).1
        ≡ neutral fl (insufficient fl k s.now (training_rows fl s)) snapshot
  unfolding predict train predict_from_training
  predict-few factories k s snapshot kept n h =
      let e = training_of-few fl factories k s (ground (arith, h)) in ground (arith, n, e)

  no_models :
      (p : EnsemblePrediction F)
      → p.model_predictions ≡ []
      → (evaluate_agreement fl p).proceed ≡ false
  unfolding evaluate_agreement
  no_models p h = ground (arith, h)

  disagreement_refused :
      (x : Facts F) → x.agreement.proceed ≡ false → (qualify_trade fl x).0 ≡ false
  disagreement_refused x h = elim (Bool-cases (qualify_trade fl x).0) [
    | inl p ↦ let agreed = ((qualify_iff fl x).0 p).agreed in absurd (ground (arith, h, agreed))
    | inr p ↦ p
  ]

  -- A key that has no training yet and fewer than 40 rows to learn from is never qualified: its prediction has no
  -- models, so that they do not agree, and the gate refuses whatever else it knows of the trade.
  pub untrained_refused :
      (factories : List (Factory F)) (k : Key) (s : Sources F) (snapshot : FeatureSnapshot F)
      (kept : Trainings F) (x : Facts F)
      → find_training k kept ≡ none
      → length (training_rows fl s) < 40
      → let p = (predict fl factories k s snapshot kept).1 in
        (qualify_trade fl (record x { agreement = evaluate_agreement fl p })).0 ≡ false
  untrained_refused factories k s snapshot kept x n h =
      let p = (predict fl factories k s snapshot kept).1 in
      let e = ap (λ q. q.model_predictions) (predict-few factories k s snapshot kept n h) in
      disagreement_refused (record x { agreement = evaluate_agreement fl p }) (no_models p e)
