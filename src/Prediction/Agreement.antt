-- ===== src/Prediction/Agreement.antt =====
-- backend/app/prediction/agreement.py: how far the models of an ensemble agree. The prediction of the
-- ensemble is an argument; an instant is a number.
mod Tests
pub mod Votes
use quant_stack.Prelude.{
  ℕ, zero, suc, ◌+◌, String, Bool, true, false, List, [], ◌∷◌, map, length, ltb, if◌then◌else◌,
}
use quant_stack.Prelude.Floats.{Floats, gt, lt, num, max_from, min_from}
use quant_stack.Prelude.Int.{pos}
use quant_stack.Prediction.Ensemble.{ModelPrediction, EnsemblePrediction}

pub data Direction : Type 0 where
  bullish bearish neutral : Direction

abbrev pub same_direction : Direction → Direction → Bool
same_direction bullish bullish = true
same_direction bearish bearish = true
same_direction neutral neutral = true
same_direction _ _ = false

pub data AgreementLevel : Type 0 where
  high medium low : AgreementLevel

abbrev pub is_high : AgreementLevel → Bool
is_high high = true
is_high _ = false

pub record ModelReliability (F : Type 0) : Type 0 where
  pub name : String
  pub direction : Direction
  pub holdout_accuracy : F
  pub weight : F

pub record AgreementResult (F : Type 0) : Type 0 where
  pub symbol : String
  pub snapshot_id : String
  pub as_of : ℕ
  pub prediction_variance : F
  pub agreement_pct : F
  pub confidence_spread : F
  pub consensus_probability : F
  pub model_reliability : F
  pub agreement_level : AgreementLevel
  pub proceed : Bool
  pub per_model_reliability : List (ModelReliability F)

module _ {F : Type 0} (fl : Floats F) where
  -- With `AGREEMENT_EPSILON`, 0.05.
  unfoldable pub model_direction : F → Direction
  model_direction p =
      let half = fl.lit (pos 5) 1 in
      let epsilon = fl.lit (pos 5) 2 in
      if gt fl p (fl.add half epsilon)
      then bullish
      else if lt fl p (fl.sub half epsilon)
      then bearish
      else neutral

  unfoldable pub agreement_level_for : F → AgreementLevel
  agreement_level_for pct =
      if fl.le (fl.lit (pos 8) 1) pct
      then high
      else if fl.le (fl.lit (pos 5) 1) pct
      then medium
      else low

  -- `sum(1 for d in directions if d == consensus)`
  unfoldable pub votes_for : Direction → List (ModelPrediction F) → ℕ
  unfolding model_direction
  votes_for consensus [] = 0
  votes_for consensus (m ∷ ms) =
      if same_direction (model_direction m.probability) consensus
      then suc (votes_for consensus ms)
      else votes_for consensus ms

  -- `round(max(xs) - min(xs), 4)`, of more than one value.
  unfoldable pub spread_of : List F → F
  spread_of [] = num fl 0
  spread_of (x ∷ []) = num fl 0
  spread_of (x ∷ (y ∷ xs)) = fl.round 4 (fl.sub (max_from fl x (y ∷ xs)) (min_from fl x (y ∷ xs)))

  unfoldable pub variance_of : List F → F
  variance_of ps = if ltb 1 (length ps) then fl.round 6 (fl.pvariance ps) else num fl 0

  unfoldable pub reliability_of : ModelPrediction F → ModelReliability F
  unfolding model_direction
  reliability_of m = record {
    name = m.name;
    direction = model_direction m.probability;
    holdout_accuracy = m.holdout_accuracy;
    weight = m.weight;
  }

  -- The share of the models that go with the ensemble.
  unfoldable pub agreement_share : F → List (ModelPrediction F) → F
  unfolding votes_for model_direction
  agreement_share consensus ms =
      fl.round 4 (fl.div (num fl (votes_for (model_direction consensus) ms)) (num fl (length ms)))

  unfoldable pub evaluate_agreement : EnsemblePrediction F → AgreementResult F
  unfolding agreement_share agreement_level_for spread_of variance_of reliability_of
  evaluate_agreement p = elim p.model_predictions [
    | [] ↦ record {
      symbol = p.symbol;
      snapshot_id = p.snapshot_id;
      as_of = p.as_of;
      prediction_variance = num fl 0;
      agreement_pct = num fl 0;
      confidence_spread = num fl 0;
      consensus_probability = p.probability;
      model_reliability = p.confidence;
      agreement_level = low;
      proceed = false;
      per_model_reliability = [];
    }
    | m ∷ ms ↦
        let pct = agreement_share p.probability (m ∷ ms) in
        let level = agreement_level_for pct in
        record {
          symbol = p.symbol;
          snapshot_id = p.snapshot_id;
          as_of = p.as_of;
          prediction_variance = variance_of (map (λ x. x.probability) (m ∷ ms));
          agreement_pct = pct;
          confidence_spread = spread_of (map (λ x. x.holdout_accuracy) (m ∷ ms));
          consensus_probability = p.probability;
          model_reliability = p.confidence;
          agreement_level = level;
          proceed = is_high level;
          per_model_reliability = map reliability_of (m ∷ ms);
        }
  ]
