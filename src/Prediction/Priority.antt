-- ===== src/Prediction/Priority.antt =====
-- backend/app/prediction/priority.py: the ranking of the qualified candidates. What the engines answer
-- for a candidate is the record `Upstream`; the loop of `rank` asks them in turn.
mod Tests
pub mod Sorting
pub mod Ranking
pub mod Pipeline
use quant_stack.Prelude.{
  ℕ, zero, suc, ◌+◌, ◌*◌, String, Bool, true, false, Option, none, some, List, [], ◌∷◌, ◌++◌,
  length, take, if◌then◌else◌,
}
use quant_stack.Prelude.Floats.{Floats, num, lt, between, max_of, sum_of}
use quant_stack.Prelude.Int.{pos}
use quant_stack.Prediction.Qualification.{QualificationResult}

-- The keys of `PRIORITY_WEIGHTS`, each of weight 1.0.
pub data FactorName : Type 0 where
  conviction opportunity_quality risk liquidity sector_leadership : FactorName
  historical_reliability expected_reward expected_opportunity_lifetime : FactorName

pub record PriorityFactor (F : Type 0) : Type 0 where
  pub name : FactorName
  pub score : F

-- The fields of `TradeCandidate` that the ranking reads. `reason` is a list of code points.
pub record TradeCandidate (F : Type 0) : Type 0 where
  pub instrument : String
  pub direction : String
  pub reason : List ℕ
  pub priority_score : F
  pub estimated_lifetime_minutes : F
  pub as_of : ℕ

-- What is asked for one candidate, besides its qualification.
pub record Answers (F : Type 0) : Type 0 where
  pub conviction_score : F
  pub conviction_grade : String
  pub liquidity_score : F
  pub leadership_ranking : Option F
  pub mean_similarity : Option F
  pub average_return : Option F
  pub risk_var_pct : Option F

pub record Upstream (F : Type 0) : Type 0 where
  pub qualification : String → String → QualificationResult F
  pub answers : TradeCandidate F → Answers F

pub record RankedSignal (F : Type 0) : Type 0 where
  pub rank : ℕ
  pub symbol : String
  pub direction : String
  pub priority_score : F
  pub data_completeness : F
  pub conviction_score : F
  pub conviction_grade : String
  pub as_of : ℕ
  pub factors : List (PriorityFactor F)
  pub reason : List ℕ

module _ {F : Type 0} (fl : Floats F) where
  unfoldable pub opportunity_quality_score : F → F
  opportunity_quality_score p =
      fl.round 4
        (fl.mul (num fl 100) (fl.tanh (fl.div (max_of fl p (fl.lit (pos 0) 1)) (fl.lit (pos 2) 0))))

  unfoldable pub risk_quality_score : F → F
  risk_quality_score var = fl.round 4 (
      between fl (num fl 0) (num fl 100)
        (fl.sub (num fl 100) (fl.mul (num fl 100) (fl.div var (fl.lit (pos 5) 0)))))

  unfoldable pub reward_score : F → F
  reward_score average = fl.round 4 (
      between fl (num fl 0) (num fl 100)
        (fl.add (num fl 50) (fl.mul (num fl 50) (fl.tanh (fl.div average (fl.lit (pos 5) 2))))))

  unfoldable pub lifetime_score : F → F
  lifetime_score minutes =
      fl.round 4 (
        between fl (num fl 0) (num fl 100)
          (fl.div (fl.mul (num fl 100) minutes) (num fl (24 * 60))))

  -- A factor that is there if its value is known.
  abbrev pub optional : FactorName → (F → F) → Option F → List (PriorityFactor F)
  optional name score none = []
  optional name score (some v) = record { name = name; score = score v } ∷ []

  unfoldable pub build_priority_factors : TradeCandidate F → Answers F → List (PriorityFactor F)
  unfolding opportunity_quality_score lifetime_score risk_quality_score reward_score
  build_priority_factors c a =
      (record { name = conviction; score = a.conviction_score }
        ∷ record { name = opportunity_quality; score = opportunity_quality_score c.priority_score }
        ∷ record { name = liquidity; score = a.liquidity_score }
        ∷ record {
          name = expected_opportunity_lifetime;
          score = lifetime_score c.estimated_lifetime_minutes;
        }
        ∷ [])
      ++ optional risk risk_quality_score a.risk_var_pct
      ++ optional sector_leadership (λ v. v) a.leadership_ranking
      ++ optional historical_reliability (λ v. fl.mul v (num fl 100)) a.mean_similarity
      ++ optional expected_reward reward_score a.average_return

  abbrev pub weight : F
  weight = fl.lit (pos 1) 0

  abbrev pub weights_of : List (PriorityFactor F) → List F
  weights_of [] = []
  weights_of (f ∷ fs) = weight ∷ weights_of fs

  abbrev pub weighted : List (PriorityFactor F) → List F
  weighted [] = []
  weighted (f ∷ fs) = fl.mul weight f.score ∷ weighted fs

  -- The score and the completeness, `len(factors) / len(weights)`.
  unfoldable pub compute_priority : List (PriorityFactor F) → F × F
  compute_priority fs =
      let total = sum_of fl (weights_of fs) in
      if fl.le total (num fl 0) then (fl.lit (pos 0) 1, fl.lit (pos 0) 1) else (
        fl.round 4 (fl.div (sum_of fl (weighted fs)) total),
        fl.round 4 (fl.div (num fl (length fs)) (num fl 8)),
      )

  -- The signal of a qualified candidate, before it is ranked.
  unfoldable pub score_candidate : Answers F → TradeCandidate F → RankedSignal F
  unfolding build_priority_factors compute_priority
  score_candidate a c =
      let factors = build_priority_factors c a in
      let (score, completeness) = compute_priority factors in
      record {
        rank = 0;
        symbol = c.instrument;
        direction = c.direction;
        priority_score = score;
        data_completeness = completeness;
        conviction_score = a.conviction_score;
        conviction_grade = a.conviction_grade;
        as_of = c.as_of;
        factors = factors;
        reason = c.reason;
      }

  -- The loop of `rank`.
  unfoldable pub score_all : Upstream F → List (TradeCandidate F) → List (RankedSignal F)
  unfolding score_candidate
  score_all u [] = []
  score_all u (c ∷ cs) =
      if (u.qualification c.instrument c.direction).qualified
      then score_candidate (u.answers c) c ∷ score_all u cs
      else score_all u cs

  -- `scored.sort(key=priority_score, reverse=True)`, which keeps the order of equal scores: a signal
  -- goes before those behind it in the batch that score no more.
  unfoldable pub insert_signal : RankedSignal F → List (RankedSignal F) → List (RankedSignal F)
  insert_signal s [] = s ∷ []
  insert_signal s (t ∷ ts) =
      if fl.le t.priority_score s.priority_score then s ∷ t ∷ ts else t ∷ insert_signal s ts

  unfoldable pub sort_signals : List (RankedSignal F) → List (RankedSignal F)
  unfolding insert_signal
  sort_signals [] = []
  sort_signals (s ∷ ss) = insert_signal s (sort_signals ss)

  -- `enumerate(top, start=i)`
  unfoldable pub number_from : ℕ → List (RankedSignal F) → List (RankedSignal F)
  number_from i [] = []
  number_from i (s ∷ ss) = record s { rank = i } ∷ number_from (i + 1) ss

  unfoldable pub rank : ℕ → Upstream F → List (TradeCandidate F) → List (RankedSignal F)
  unfolding score_all sort_signals number_from
  rank top_n u candidates = number_from 1 (take top_n (sort_signals (score_all u candidates)))
