-- ===== src/Prediction/Duplicate.antt =====
-- backend/app/prediction/duplicate.py: the greedy pass over a ranked batch of signals. Instants are
-- numbers of microseconds; texts that are searched are lists of code points. What the database and
-- the feature store answer is the record `Answers`: the history that the priority engine keeps, and
-- the correlation of two symbols, in units of 10 ^ -16.
mod Tests
pub mod Diversity
pub mod Greedy
use quant_stack.Prelude.{
  ℕ, zero, suc, ◌+◌, ◌-◌, ◌*◌, ◌^◌, String, Bool, true, false, not, ◌&&◌, Option, none, some, List,
  [], ◌∷◌, ◌++◌, map, ltb, leb, ◌==◌, str_eq, if◌then◌else◌, is_none,
}
use quant_stack.Prelude.Int.{ℤ, pos, negsuc}
use quant_stack.Prelude.Dict.{Dict, lookup, insert}

abbrev pub repeat_cooldown : ℕ
repeat_cooldown = 60 * 60 * 1000000

abbrev pub correlation_threshold : ℕ
correlation_threshold = 8 * 10 ^ 15

abbrev pub max_signals_per_sector : ℕ
max_signals_per_sector = 1

-- The fields of `RankedSignal` that the pass reads.
pub record RankedSignal : Type 0 where
  pub symbol : String
  pub direction : String
  pub reason : List ℕ
  pub as_of : ℕ

pub record HistoryRow : Type 0 where
  pub direction : Option String
  pub as_of : ℕ

pub record Answers : Type 0 where
  pub recent : String → List HistoryRow
  pub correlation : String → String → Option ℤ
  pub stock_sectors : Dict String

pub data Reason : Type 0 where
  repeated_opportunity : String → String → Reason
  correlated_stocks : String → String → ℤ → Reason
  repeated_breakouts : Reason
  sector_duplication : String → Reason

pub record SuppressedSignal : Type 0 where
  pub symbol : String
  pub direction : String
  pub reasons : List Reason

-- `str.lower` on the code points that can become a letter of "breakout": the ASCII capitals, and the
-- Kelvin sign, which becomes a "k".
unfoldable pub lower : ℕ → ℕ
lower c = if leb b'A' c && leb c b'Z' then c + 32 else if c == 8490 then b'k' else c

unfoldable pub starts_with : List ℕ → List ℕ → Bool
starts_with [] text = true
starts_with (p ∷ ps) [] = false
starts_with (p ∷ ps) (c ∷ cs) = (p == c) && starts_with ps cs

-- `word in text`
unfoldable pub occurs : List ℕ → List ℕ → Bool
unfolding starts_with
occurs word [] = starts_with word []
occurs word (c ∷ cs) = if starts_with word (c ∷ cs) then true else occurs word cs

abbrev pub breakout_keyword : List ℕ
breakout_keyword = b'b' ∷ b'r' ∷ b'e' ∷ b'a' ∷ b'k' ∷ b'o' ∷ b'u' ∷ b't' ∷ []

unfoldable pub is_breakout_signal : List ℕ → Bool
unfolding lower occurs
is_breakout_signal reason = occurs breakout_keyword (map lower reason)

-- `abs(correlation) >= CORRELATION_THRESHOLD`
unfoldable pub is_strong : Option ℤ → Bool
is_strong none = false
is_strong (some (pos n)) = leb correlation_threshold n
is_strong (some (negsuc n)) = leb correlation_threshold (suc n)

-- One row of the loop of `_is_repeated_opportunity`: `cutoff <= row_as_of < signal.as_of`.
unfoldable pub within_cooldown : RankedSignal → HistoryRow → Bool
within_cooldown s row = elim row.direction [
  | none ↦ false
  | some d ↦
      if str_eq d s.direction
      then leb s.as_of (row.as_of + repeat_cooldown) && ltb row.as_of s.as_of
      else false
]

unfoldable pub any_within : RankedSignal → List HistoryRow → Bool
unfolding within_cooldown
any_within s [] = false
any_within s (row ∷ rows) = if within_cooldown s row then true else any_within s rows

module _ (answers : Answers) where
  unfoldable pub is_repeated_opportunity : RankedSignal → Bool
  unfolding any_within
  is_repeated_opportunity s = any_within s (answers.recent s.symbol)

  -- `_correlated_with_any`: the first of the kept signals that moves with the symbol.
  unfoldable pub correlated_with_any : RankedSignal → List RankedSignal → Option (String × ℤ)
  unfolding is_strong
  correlated_with_any s [] = none
  correlated_with_any s (other ∷ kept) =
      let c = answers.correlation s.symbol other.symbol in
      let rest = correlated_with_any s kept in
      if is_strong c then elim c [ none ↦ none | some r ↦ some (other.symbol, r) ] else rest

  unfoldable pub sector_of : RankedSignal → Option String
  sector_of s = lookup s.symbol answers.stock_sectors

-- The variables of the loop of `filter_signals`.
pub record Batch : Type 0 where
  pub kept : List RankedSignal
  pub suppressed : List SuppressedSignal
  pub sector_counts : Dict ℕ
  pub breakout_kept : Bool

abbrev pub empty : Batch
empty = record { kept = []; suppressed = []; sector_counts = []; breakout_kept = false }

-- `sector_counts.get(sector, 0)`
unfoldable pub count_of : String → Dict ℕ → ℕ
count_of sector counts = elim (lookup sector counts) [ none ↦ 0 | some n ↦ n ]

-- The four tests, each with its reason if it finds a duplicate.
module _ (answers : Answers) (b : Batch) (s : RankedSignal) where
  unfoldable pub repeat_reason : List Reason
  repeat_reason =
      if is_repeated_opportunity answers s
      then repeated_opportunity s.symbol s.direction ∷ []
      else []

  unfoldable pub correlation_reason : List Reason
  correlation_reason = elim (correlated_with_any answers s b.kept) [
    | none ↦ []
    | some (other, r) ↦ correlated_stocks s.symbol other r ∷ []
  ]

  unfoldable pub breakout_reason : List Reason
  breakout_reason =
      if is_breakout_signal s.reason && b.breakout_kept then repeated_breakouts ∷ [] else []

  unfoldable pub sector_reason : List Reason
  sector_reason = elim (sector_of answers s) [
    | none ↦ []
    | some sector ↦
        if leb max_signals_per_sector (count_of sector b.sector_counts)
        then sector_duplication sector ∷ []
        else []
  ]

  unfoldable pub reasons_for : List Reason
  reasons_for = repeat_reason ++ correlation_reason ++ breakout_reason ++ sector_reason

  unfoldable pub keep : Batch
  keep = record {
    kept = b.kept ++ s ∷ [];
    suppressed = b.suppressed;
    sector_counts = elim (sector_of answers s) [
      | none ↦ b.sector_counts
      | some sector ↦ insert sector (count_of sector b.sector_counts + 1) b.sector_counts
    ];
    breakout_kept = if is_breakout_signal s.reason then true else b.breakout_kept;
  }

  unfoldable pub suppress : List Reason → Batch
  suppress reasons = record b {
    suppressed =
        b.suppressed
        ++ record { symbol = s.symbol; direction = s.direction; reasons = reasons } ∷ [];
  }

  -- One round of the loop.
  unfoldable pub consider : Batch
  consider = elim reasons_for [ [] ↦ keep | r ∷ rs ↦ suppress (r ∷ rs) ]

unfoldable pub filter_from : Answers → Batch → List RankedSignal → Batch
filter_from answers b [] = b
filter_from answers b (s ∷ ss) = filter_from answers (consider answers b s) ss

-- `filter_signals`, without the persistence of its result.
unfoldable pub filter_signals : Answers → List RankedSignal → Batch
filter_signals answers = filter_from answers empty
