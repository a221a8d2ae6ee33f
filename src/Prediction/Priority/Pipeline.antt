-- ===== src/Prediction/Priority/Pipeline.antt =====
-- `rank_and_filter` of backend/app/prediction/duplicate.py: the ranking, then the duplicate filter. The
-- gate of the ranking is the one of Qualification, over what the engines answer.
use quant_stack.Prelude.{
  ℕ, sym, subst, String, List, [], ◌∷◌, ◌++◌, map, All, All-map, All-append, Bool-cases, inl, inr,
}
use quant_stack.Prelude.Floats.{Floats}
use quant_stack.Prediction.Qualification.{Facts, evaluate}
use quant_stack.Prediction.Qualification.Gate.{Passes, qualify_iff}
use quant_stack.Prediction.Priority.{RankedSignal, TradeCandidate, Answers, Upstream, rank}
use quant_stack.Prediction.Priority.Ranking.{rank-IsQualified}
use quant_stack.Prediction.Duplicate
use quant_stack.Prediction.Duplicate.{Batch, filter_signals}
use quant_stack.Prediction.Duplicate.Greedy.{select, is_admissible, filter_signals-select}

module _ (answers : Duplicate.Answers) where
  select-All :
      (P : Duplicate.RankedSignal → Type 0) (kept ss : List Duplicate.RankedSignal)
      → All P kept
      → All P ss
      → All P (select answers kept ss)
  unfolding select
  select-All P kept [] k h = k
  select-All P kept (s ∷ ss) k h = elim (Bool-cases (is_admissible answers kept s)) [
    | inl e ↦ rw e (select-All P (kept ++ s ∷ []) ss (All-append P kept (s ∷ []) k (h.0, tt)) h.1)
    | inr e ↦ rw e (select-All P kept ss k h.1)
  ]

module _ {F : Type 0} (fl : Floats F) where
  -- The fields of a ranked signal that the filter reads.
  unfoldable pub as_signal : RankedSignal F → Duplicate.RankedSignal
  as_signal s = record {
    symbol = s.symbol;
    direction = s.direction;
    reason = s.reason;
    as_of = s.as_of;
  }

  -- The engines behind the ranking, at the time `now`.
  abbrev pub upstream :
      (String → String → Facts F) → (TradeCandidate F → Answers F) → ℕ → Upstream F
  upstream facts asked now = record { qualification = evaluate fl facts now; answers = asked }

  unfoldable pub rank_and_filter :
      ℕ → Upstream F → Duplicate.Answers → List (TradeCandidate F) → Batch
  unfolding as_signal
  rank_and_filter top_n u history candidates =
      filter_signals history (map as_signal (rank fl top_n u candidates))

  signals-All :
      (P : Duplicate.RankedSignal → Type 0) (ss : List (RankedSignal F))
      → All (λ s. P (as_signal s)) ss
      → All P (map as_signal ss)
  signals-All P [] h = tt
  signals-All P (s ∷ ss) h = (h.0, signals-All P ss h.1)

  -- Whatever the candidates and the history, every signal that is left after ranking and filtering has
  -- passed all seven conditions of the gate, for its own symbol and direction.
  pub kept-Passes :
      (n now : ℕ) (facts : String → String → Facts F) (asked : TradeCandidate F → Answers F)
      (history : Duplicate.Answers) (cs : List (TradeCandidate F))
      → All
          (λ s. Passes fl (facts s.symbol s.direction))
          (rank_and_filter n (upstream facts asked now) history cs).kept
  unfolding rank_and_filter as_signal evaluate
  kept-Passes n now facts asked history cs =
      let u = upstream facts asked now in
      let P : Duplicate.RankedSignal → Type 0 = λ s. Passes fl (facts s.symbol s.direction) in
      let signals = map as_signal (rank fl n u cs) in
      subst (All P) (sym (filter_signals-select history signals)) (
        select-All history P [] signals tt (
          signals-All P (rank fl n u cs) (
            All-map (rank fl n u cs) (λ s q. (qualify_iff fl (facts s.symbol s.direction)).0 q)
              (rank-IsQualified fl n u cs))))
