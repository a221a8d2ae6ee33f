-- ===== src/Prediction/Ensemble/Join.antt =====
-- The point-in-time join of backend/app/prediction/ensemble.py: each label with the features as they
-- were known at its entry. `bisect_right` is the search of Python's library.
pub mod Bisect
pub mod PointInTime
use quant_stack.Prelude.{
  ℕ, zero, suc, ◌+◌, ◌-◌, ◌/◌, String, Bool, true, false, Option, none, some, List, [], ◌∷◌, map,
  length, ltb, nth, if◌then◌else◌,
}
use quant_stack.Prelude.Dict.{Dict, lookup, insert}
use quant_stack.Prelude.Floats.{Floats, lt, num}
use quant_stack.Prediction.Labeling.{Label, Verdict, win, partial_success, loss, timeout}
use quant_stack.Prediction.Ensemble.{TrainingRow}

-- The test `x < a[mid]`; `mid` is a place of the list.
abbrev pub above : ℕ → List ℕ → ℕ → Bool
above x a mid = elim (nth mid a) [ none ↦ true | some t ↦ ltb x t ]

-- The `while` loop of bisect_right: `low` where it ends, within `fuel` rounds.
unfoldable pub bisect_loop : ℕ → ℕ → List ℕ → ℕ → ℕ → ℕ
bisect_loop zero x a low high = low
bisect_loop (suc fuel) x a low high =
    let mid = (low + high) / 2 in
    let below_it = bisect_loop fuel x a low mid in
    let behind_it = bisect_loop fuel x a (mid + 1) high in
    if ltb low high then (if above x a mid then below_it else behind_it) else low

-- `bisect.bisect_right(a, x)`
unfoldable pub bisect_right : List ℕ → ℕ → ℕ
unfolding bisect_loop
bisect_right a x = bisect_loop (length a) x a 0 (length a)

-- `series[idx][1] if idx >= 0 else None`, for idx = place - 1.
abbrev pub observation_before : {F : Type 0} → List (ℕ × F) → ℕ → Option F
observation_before series zero = none
observation_before series (suc i) = elim (nth i series) [ none ↦ none | some o ↦ some o.1 ]

-- `[ts for ts, _ in series]`
abbrev pub timestamps : {F : Type 0} → List (ℕ × F) → List ℕ
timestamps series = map (λ o. o.0) series

unfoldable pub as_of_value : {F : Type 0} → List (ℕ × F) → ℕ → Option F
unfolding bisect_right
as_of_value [] at = none
as_of_value (o ∷ series) at =
    observation_before (o ∷ series) (bisect_right (timestamps (o ∷ series)) at)

-- `feature_series.get(name, ())`
abbrev pub series_of : {F : Type 0} → Dict (List (ℕ × F)) → String → List (ℕ × F)
series_of feature_series name = elim (lookup name feature_series) [ none ↦ [] | some s ↦ s ]

-- `values` after the names, which are taken in turn.
unfoldable pub values_from : {F : Type 0} → Dict (List (ℕ × F)) → ℕ → Dict F → List String → Dict F
unfolding as_of_value
values_from feature_series at values [] = values
values_from feature_series at values (name ∷ names) =
    elim (as_of_value (series_of feature_series name) at) [
      | none ↦ values_from feature_series at values names
      | some v ↦ values_from feature_series at (insert name v values) names
    ]

-- `sum(1 for name in names if name in values)`
unfoldable pub present : {F : Type 0} → Dict F → List String → ℕ
present values [] = 0
present values (name ∷ names) = elim (lookup name values) [
  | none ↦ present values names
  | some v ↦ suc (present values names)
]

abbrev pub target_of : Verdict → ℕ
target_of win = 1
target_of partial_success = 1
target_of loss = 0
target_of timeout = 0

module _ {F : Type 0} (fl : Floats F) where
  -- `core_present / len(core_feature_names) < min_coverage`; there are core features.
  unfoldable pub is_thin : List String → F → Dict F → Bool
  unfolding present
  is_thin core min_coverage values =
      lt fl (fl.div (num fl (present values core)) (num fl (length core))) min_coverage

  unfoldable pub assemble_dataset :
      List (Label F) → Dict (List (ℕ × F)) → List String → F → List String → List (TrainingRow F)
  unfolding values_from is_thin
  assemble_dataset [] feature_series names min_coverage core = []
  assemble_dataset (l ∷ labels) feature_series names min_coverage core =
      let rest = assemble_dataset labels feature_series names min_coverage core in
      let values = values_from feature_series l.entry_ts [] names in
      if is_thin core min_coverage values
      then rest
      else record { ts = l.entry_ts; features = values; label = target_of l.label } ∷ rest
