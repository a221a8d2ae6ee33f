-- ===== src/Features/Structure/Tests.antt =====
-- The structure pass at concrete bars, with thousandths for the floats.
use quant_stack.Prelude.{
  zero, suc, Option, none, some, arith, ℕ, ◌≡◌, ◌≤◌, ◌<◌, true, refl, List, [], ◌∷◌, ◌++◌, All, map,
  take, length,
}
use quant_stack.Prelude.Floats.Thousandths.{thousandths, thousandths-IsOrdered}
use quant_stack.Features.Schema.{Candle}
use quant_stack.Features.Structure.Measures.{up, flat}
use quant_stack.Features.Structure.Bar.{State}
use quant_stack.Features.Structure.{start, rows_from, compute_structure_daily}
use quant_stack.Features.Structure.Bounds.{IsBounded, structure-IsBounded}
use quant_stack.Features.Structure.Breaks.{upward_breaks, upward_breaks_once}
use quant_stack.Prelude.Floats.{sum_of}
use quant_stack.Features.Structure.Sessions.{session_features, compute_structure_sessions}
use quant_stack.Features.Structure.Sessions.Profile.{ValueArea, area_of}
use quant_stack.Features.Structure.Sessions.Area.{IsFilled, IsValueArea, area_of_lem}
use quant_stack.Features.Structure.Sessions.Days.{IsRowOf, count_on_day, has_row, sessions_lem}
use quant_stack.Features.Structure.Safety.{no_lookahead}

abbrev bar : ℕ → ℕ → ℕ → Candle ℕ
bar high low close = record {
  ts = 0;
  open_price = low;
  high = high;
  low = low;
  close = close;
  volume = 0;
}

-- A swing high of 12 at the third bar, a swing low of 8 at the fourth, and a close of 15 at the last.
abbrev bars : List (Candle ℕ)
bars =
    bar 10000 9000 9500
    ∷ bar 11000 9500 10500
    ∷ bar 12000 10000 11000
    ∷ bar 11500 8000 9000
    ∷ bar 11800 9000 11700
    ∷ bar 15000 11000 14900
    ∷ []

abbrev after : State ℕ
after = record (start thousandths 1 []) { index = 6; high_events = []; highs_seen = 12000 ∷ [] }

structure_runs :
    map (λ r. r.bos) (compute_structure_daily thousandths 1 bars)
    ≡ flat ∷ flat ∷ flat ∷ flat ∷ flat ∷ up ∷ []
unfolding compute_structure_daily
structure_runs = refl

structure-IsBounded_example :
    All (IsBounded thousandths) (compute_structure_daily thousandths 1 bars)
structure-IsBounded_example = structure-IsBounded thousandths thousandths-IsOrdered refl refl 1 bars

upward_breaks_once_example :
    upward_breaks thousandths
      (rows_from thousandths after (bar 15000 11000 14900 ∷ bar 16000 11000 15000 ∷ []))
    ≤ 1
upward_breaks_once_example =
    upward_breaks_once thousandths thousandths-IsOrdered after
      (bar 15000 11000 14900 ∷ bar 16000 11000 15000 ∷ []) tt

no_lookahead_example :
    take (length bars) (compute_structure_daily thousandths 1 (bars ++ bars))
    ≡ compute_structure_daily thousandths 1 bars
no_lookahead_example = no_lookahead thousandths 1 bars bars

abbrev thirty : ℕ → List ℕ
thirty zero = []
thirty (suc n) = 1000 ∷ thirty n

thirty-IsFilled : (n : ℕ) → All (IsFilled thousandths) (thirty n)
thirty-IsFilled zero = tt
thirty-IsFilled (suc n) = (refl, thirty-IsFilled n)

area_of_lem_example :
    (a : ValueArea ℕ) × (area_of thousandths 12 1000 (thirty 30) ≡ some a)
    × IsValueArea thousandths 12 29 (thousandths.mul 700 (sum_of thousandths (thirty 30))) a
area_of_lem_example =
    area_of_lem thousandths thousandths-IsOrdered 12 1000 (thirty 30) (thirty-IsFilled 30) refl
      (omega arith)

abbrev at_instant : ℕ → Candle ℕ → Candle ℕ
at_instant t c = record c { ts = t }

abbrev rows_or_none : {A : Type 0} → Option (List A) → List A
rows_or_none none = []
rows_or_none (some rows) = rows

-- Two days of two bars each.
abbrev two_days : List (Candle ℕ)
two_days =
    at_instant 0 (bar 10000 9000 9500)
    ∷ at_instant 90000 (bar 11000 9500 10500)
    ∷ at_instant 300 (bar 10500 9200 9900)
    ∷ at_instant 90300 (bar 11500 9800 11000)
    ∷ []

sessions_run :
    compute_structure_sessions thousandths 2 two_days
    ≡ some (rows_or_none (compute_structure_sessions thousandths 2 two_days))
unfolding compute_structure_sessions session_features
sessions_run = refl

sessions_lem_example :
    let rows = rows_or_none (compute_structure_sessions thousandths 2 two_days) in
    All (IsRowOf thousandths 2 two_days) rows
    × ((day : ℕ)
        → 0 < count_on_day thousandths day two_days
        → 2 ≤ count_on_day thousandths day two_days
        → has_row thousandths day rows ≡ true)
sessions_lem_example = sessions_lem thousandths 2 two_days _ sessions_run
