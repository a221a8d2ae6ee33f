-- ===== src/Prediction/Priority/Tests.antt =====
-- The ranking at concrete inputs, with thousandths for the floats.
use mathlib.Core.List.{Perm}
use Prim.Native.Nat.{min}
use quant_stack.Prelude.{ℕ, ◌≡◌, String, none, some, List, [], ◌∷◌, ◌++◌, map, length, All}
use quant_stack.Prelude.Floats.Thousandths.{thousandths, thousandths-IsOrdered}
use quant_stack.Prediction.Qualification.{Facts}
use quant_stack.Prediction.Qualification.Tests.{facts}
use quant_stack.Prediction.Qualification.Gate.{Passes}
use quant_stack.Prediction.Priority.{TradeCandidate, Answers, RankedSignal, rank, score_all}
use quant_stack.Prediction.Priority.Sorting.{Leads, Descending}
use quant_stack.Prediction.Priority.Ranking.{Numbered, unranked, rank_lem}
use quant_stack.Prediction.Priority.Pipeline.{upstream, rank_and_filter, kept-Passes}
use quant_stack.Prediction.Duplicate

abbrev candidate : String → ℕ → TradeCandidate ℕ
candidate symbol score = record {
  instrument = symbol;
  direction = "long";
  reason = [];
  priority_score = score;
  estimated_lifetime_minutes = 240000;
  as_of = 10;
}

abbrev batch : List (TradeCandidate ℕ)
batch = candidate "INFY" 100 ∷ candidate "TCS" 900 ∷ candidate "SBIN" 500 ∷ []

abbrev asked : TradeCandidate ℕ → Answers ℕ
asked c = record {
  conviction_score = c.priority_score;
  conviction_grade = "B";
  liquidity_score = 60000;
  leadership_ranking = none;
  mean_similarity = some 700;
  average_return = none;
  risk_var_pct = none;
}

abbrev all_pass : String → String → Facts ℕ
all_pass symbol direction = facts

abbrev nothing_sent : Duplicate.Answers
nothing_sent = record { recent = λ s. []; correlation = λ a b. none; stock_sectors = [] }

rank_lem_example :
    let all = score_all thousandths (upstream thousandths all_pass asked 10) batch in
    let top = rank thousandths 2 (upstream thousandths all_pass asked 10) batch in
    Descending thousandths top
    × Numbered 1 top
    × (length top ≡ min 2 (length all))
    × (rest : List (RankedSignal ℕ)) × Perm (map unranked top ++ rest) all
    × All (λ s. Leads thousandths s rest) top
rank_lem_example =
    rank_lem thousandths thousandths-IsOrdered 2 (upstream thousandths all_pass asked 10) batch

kept-Passes_example :
    All
      (λ s. Passes thousandths facts)
      (rank_and_filter thousandths 2
        (upstream thousandths all_pass asked 10)
        nothing_sent
        batch).kept
kept-Passes_example = kept-Passes thousandths 2 10 all_pass asked nothing_sent batch
