-- ===== src/Prediction/Ensemble/Blend.antt =====
-- The blend of backend/app/prediction/ensemble.py: disagreement, uncertainty, the weighted average of the
-- models, and the explanation of one model.
use quant_stack.Prelude.{
  String, Option, none, some, List, [], ◌∷◌, map, take, length, ltb, if◌then◌else◌,
}
use quant_stack.Prelude.Int.{pos}
use quant_stack.Prelude.Floats.{Floats, num, min_of, abs_of, sum_of}
use quant_stack.Prediction.Ensemble.{FeatureContribution, ModelPrediction}

module _ {F : Type 0} (fl : Floats F) where
  unfoldable pub disagreement_score : List F → F
  disagreement_score ps =
      if ltb (length ps) 2
      then fl.lit (pos 0) 1
      else fl.round 4 (min_of fl (fl.mul (fl.pstdev ps) (fl.lit (pos 2) 0)) (fl.lit (pos 1) 0))

  unfoldable pub uncertainty_of : F → F
  uncertainty_of p = fl.round 4 (
      fl.sub (fl.lit (pos 1) 0)
        (fl.mul (fl.lit (pos 2) 0) (abs_of fl (fl.sub p (fl.lit (pos 5) 1)))))

  -- `sum(m.weight for m in ms)`
  abbrev pub total_weight : List (ModelPrediction F) → F
  total_weight ms = sum_of fl (map (λ m. m.weight) ms)

  -- The average of a value of the models, by their weights where these are not all zero.
  abbrev pub average_of : (ModelPrediction F → F) → List (ModelPrediction F) → F
  average_of value ms =
      if fl.le (total_weight ms) (num fl 0)
      then fl.div (sum_of fl (map value ms)) (num fl (length ms))
      else fl.div (sum_of fl (map (λ m. fl.mul (value m) m.weight) ms)) (total_weight ms)

  -- The probability and the confidence.
  unfoldable pub blend_predictions : List (ModelPrediction F) → F × F
  blend_predictions [] = (fl.lit (pos 5) 1, fl.lit (pos 0) 1)
  blend_predictions (m ∷ ms) =
      (average_of (λ x. x.probability) (m ∷ ms), average_of (λ x. x.holdout_accuracy) (m ∷ ms))

  -- The products of a model's weights with the standardized values.
  unfoldable pub contributions : List String → List F → List F → List (FeatureContribution F)
  contributions (name ∷ names) (w ∷ ws) (v ∷ vs) =
      record { feature = name; contribution = fl.round 6 (fl.mul w v) } ∷ contributions names ws vs
  contributions _ _ _ = []

  -- `sort(key=abs, reverse=True)`, which keeps the order of equal keys.
  unfoldable pub insert_contribution :
      FeatureContribution F → List (FeatureContribution F) → List (FeatureContribution F)
  insert_contribution c [] = c ∷ []
  insert_contribution c (d ∷ ds) =
      if fl.le (abs_of fl d.contribution) (abs_of fl c.contribution)
      then c ∷ d ∷ ds
      else d ∷ insert_contribution c ds

  unfoldable pub sort_contributions : List (FeatureContribution F) → List (FeatureContribution F)
  unfolding insert_contribution
  sort_contributions [] = []
  sort_contributions (c ∷ cs) = insert_contribution c (sort_contributions cs)

  -- The `TOP_K_EXPLANATION_FEATURES`, 5, of a model that has weights: one to each feature.
  unfoldable pub explain_model :
      Option (List F) → List String → List F → List (FeatureContribution F)
  unfolding contributions sort_contributions
  explain_model none names x_std = []
  explain_model (some weights) names x_std =
      take 5 (sort_contributions (contributions names weights x_std))
