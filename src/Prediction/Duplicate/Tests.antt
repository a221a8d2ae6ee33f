-- ===== src/Prediction/Duplicate/Tests.antt =====
-- The pass on a small batch.
use quant_stack.Prelude.{String, ◌≡◌, refl, none, List, [], ◌∷◌}
use quant_stack.Prelude.Dict.{lookup, insert}
use quant_stack.Prediction.Duplicate.{
  RankedSignal, Answers, filter_signals, is_breakout_signal, breakout_keyword, filter_from,
  consider, reasons_for, repeat_reason, is_repeated_opportunity, correlation_reason,
  correlated_with_any, breakout_reason, sector_reason, sector_of, count_of, keep, suppress,
}
use quant_stack.Prediction.Duplicate.Greedy.{select, filter_signals-select}

abbrev answers : Answers
answers = record {
  recent = λ s. [];
  correlation = λ a b. none;
  stock_sectors = ("TCS", "IT") ∷ ("INFY", "IT") ∷ [];
}

abbrev signal : String → RankedSignal
signal symbol = record { symbol = symbol; direction = "long"; reason = breakout_keyword; as_of = 5 }

abbrev plain : String → RankedSignal
plain symbol = record { symbol = symbol; direction = "long"; reason = []; as_of = 5 }

abbrev batch : List RankedSignal
batch = signal "TCS" ∷ plain "INFY" ∷ signal "SBIN" ∷ plain "ITC" ∷ []

keeps_two : (filter_signals answers batch).kept ≡ signal "TCS" ∷ plain "ITC" ∷ []
unfolding filter_signals filter_from consider reasons_for repeat_reason is_repeated_opportunity
    correlation_reason correlated_with_any breakout_reason is_breakout_signal sector_reason
    sector_of lookup count_of keep insert suppress
keeps_two = refl

filter_signals-select_example : (filter_signals answers batch).kept ≡ select answers [] batch
filter_signals-select_example = filter_signals-select answers batch
