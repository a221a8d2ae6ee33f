-- ===== src/Prediction/Priority/Ranking.antt =====
-- What the ranking promises.
use mathlib.Core.List.{Permᴰ, Perm}
use quant_stack.Prelude.{
  ℕ, ◌+◌, ◌≡◌, refl, sym, ap, ◌∙◌, true, List, [], ◌∷◌, ◌++◌, arith, length, length-take,
  length-perm_step, take, drop, take-drop, Bool-cases, inl, inr, All, All-take, map, subst,
}
use Prim.Native.Nat.{min}
use quant_stack.Prelude.Floats.{Floats, IsOrdered}
use quant_stack.Prediction.Priority.{
  RankedSignal, TradeCandidate, Upstream, score_candidate, score_all, sort_signals, number_from,
  rank,
}
use quant_stack.Prediction.Priority.Sorting.{
  Leads, Descending, sort-perm, sort-All, sort-Descending, take-Descending,
}

module _ {F : Type 0} where
  -- The signal before it has its rank.
  abbrev pub unranked : RankedSignal F → RankedSignal F
  unranked s = record s { rank = 0 }

  -- The ranks are i, i + 1 and so on.
  abbrev pub Numbered : ℕ → List (RankedSignal F) → Type 0
  Numbered i [] = Unit
  Numbered i (s ∷ ss) = (s.rank ≡ i) × Numbered (i + 1) ss

  numbered : (fl : Floats F) (i : ℕ) (ss : List (RankedSignal F)) → Numbered i (number_from fl i ss)
  unfolding number_from
  numbered fl i [] = tt
  numbered fl i (s ∷ ss) = (refl, numbered fl (i + 1) ss)

module _ {F : Type 0} (fl : Floats F) where
  length-number_from :
      (i : ℕ) (ss : List (RankedSignal F)) → length (number_from fl i ss) ≡ length ss
  unfolding number_from
  length-number_from i [] = refl
  length-number_from i (s ∷ ss) = omega (arith, length-number_from (i + 1) ss)

  number_from-unranked :
      (i : ℕ) (ss : List (RankedSignal F))
      → All (λ s. s.rank ≡ 0) ss
      → map unranked (number_from fl i ss) ≡ ss
  unfolding number_from
  number_from-unranked i [] h = refl
  number_from-unranked i (s ∷ ss) h = ground (arith, h.0, number_from-unranked (i + 1) ss h.1)

  -- A property that does not read the rank.
  number_from-All :
      (P : RankedSignal F → Type 0) (i : ℕ) (ss : List (RankedSignal F))
      → ((s : RankedSignal F) (k : ℕ) → P s → P (record s { rank = k }))
      → All P ss
      → All P (number_from fl i ss)
  unfolding number_from
  number_from-All P i [] f h = tt
  number_from-All P i (s ∷ ss) f h = (f s i h.0, number_from-All P (i + 1) ss f h.1)

  number_from-Leads :
      (i : ℕ) (s : RankedSignal F) (ss : List (RankedSignal F))
      → Leads fl s ss
      → Leads fl s (number_from fl i ss)
  number_from-Leads i s ss h =
      number_from-All (λ t. fl.le t.priority_score s.priority_score ≡ true) i ss (λ t k p. p) h

  number_from-Descending :
      (i : ℕ) (ss : List (RankedSignal F)) → Descending fl ss → Descending fl (number_from fl i ss)
  unfolding number_from
  number_from-Descending i [] d = tt
  number_from-Descending i (s ∷ ss) d =
      (number_from-Leads (i + 1) s ss d.0, number_from-Descending (i + 1) ss d.1)

  -- What `score_all` says of each signal.
  abbrev pub IsQualified : Upstream F → RankedSignal F → Type 0
  IsQualified u s = (u.qualification s.symbol s.direction).qualified ≡ true

  score_all-IsQualified :
      (u : Upstream F) (cs : List (TradeCandidate F)) → All (IsQualified u) (score_all fl u cs)
  unfolding score_all score_candidate
  score_all-IsQualified u [] = tt
  score_all-IsQualified u (c ∷ cs) =
      elim (Bool-cases (u.qualification c.instrument c.direction).qualified) [
        | inl e ↦ rw e (e, score_all-IsQualified u cs)
        | inr e ↦ rw e (score_all-IsQualified u cs)
      ]

  score_all-unranked :
      (u : Upstream F) (cs : List (TradeCandidate F)) → All (λ s. s.rank ≡ 0) (score_all fl u cs)
  unfolding score_all score_candidate
  score_all-unranked u [] = tt
  score_all-unranked u (c ∷ cs) =
      elim (Bool-cases (u.qualification c.instrument c.direction).qualified) [
        | inl e ↦ rw e (refl, score_all-unranked u cs)
        | inr e ↦ rw e (score_all-unranked u cs)
      ]

  -- Every ranked signal comes from a qualified candidate: an unqualified one is not ranked low, it is
  -- not there.
  pub rank-IsQualified :
      (n : ℕ) (u : Upstream F) (cs : List (TradeCandidate F)) → All (IsQualified u) (rank fl n u cs)
  unfolding rank
  rank-IsQualified n u cs =
      number_from-All (IsQualified u) 1 (take n (sort_signals fl (score_all fl u cs))) (λ s k p. p)
        (All-take (IsQualified u) n (sort_signals fl (score_all fl u cs))
          (sort-All fl (IsQualified u) (score_all fl u cs) (score_all-IsQualified u cs)))

  -- If `<=` is a total order, then the ranking is the best part of the qualified signals: its scores
  -- descend, its ranks are 1, 2 and so on, it has as many signals as there are, up to `top_n`, and with
  -- a rest that it leaves out, no signal of which scores more than one of its own, it is a permutation
  -- of them.
  pub rank_lem :
      (o : IsOrdered fl) (n : ℕ) (u : Upstream F) (cs : List (TradeCandidate F))
      → let top = rank fl n u cs in
        Descending fl top
        × Numbered 1 top
        × (length top ≡ min n (length (score_all fl u cs)))
        × (rest : List (RankedSignal F)) × Perm (map unranked top ++ rest) (score_all fl u cs)
        × All (λ s. Leads fl s rest) top
  unfolding rank
  rank_lem o n u cs =
      let sorted = sort_signals fl (score_all fl u cs) in
      let best = take-Descending fl n sorted (sort-Descending fl o (score_all fl u cs)) in
      let perm = sort-perm fl (score_all fl u cs) in
      let zeros =
        All-take (λ s. s.rank ≡ 0) n sorted
          (sort-All fl (λ s. s.rank ≡ 0) (score_all fl u cs) (score_all-unranked u cs)) in
      let parts : map unranked (number_from fl 1 (take n sorted)) ++ drop n sorted ≡ sorted =
        ap (λ xs. xs ++ drop n sorted) (number_from-unranked 1 (take n sorted) zeros)
        ∙ take-drop n sorted in
      (
        number_from-Descending 1 (take n sorted) best.0,
        numbered fl 1 (take n sorted),
        length-number_from 1 (take n sorted)
            ∙ length-take n sorted
            ∙ ap (min n) (length-perm_step perm),
        drop n sorted,
        ∣ subst (λ xs. Permᴰ xs (score_all fl u cs)) (sym parts) perm ∣₁,
        number_from-All (λ s. Leads fl s (drop n sorted)) 1 (take n sorted) (λ s k p. p) best.1,
      )
