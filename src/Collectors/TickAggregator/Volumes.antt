-- ===== src/Collectors/TickAggregator/Volumes.antt =====
-- The volumes of the bars of a symbol over its ticks.
use quant_stack.Prelude.{
  ℕ, ◌+◌, ◌-◌, ◌≤◌, ◌≡◌, refl, String, some, List, [], ◌∷◌, arith, ◌==◌, if◌then◌else◌,
}
use quant_stack.Prelude.Dict.{lookup, lookup-insert_self}
use quant_stack.Collectors.TickAggregator.{
  Bar, Aggregator, Tick, or_zero, open_bar, extend_bar, next_bar, update_bar,
}

-- The volumes that the bars of the ticks have in the end, added up, where `bucket` is the bucket of
-- the current bar and `volume` what it has so far: a bar counts when the next one opens.
unfoldable pub traded : List Tick → Aggregator → ℕ → ℕ → ℕ
unfolding update_bar
traded [] a bucket volume = volume
traded (t ∷ ts) a bucket volume =
    let (a', bar, v) = update_bar t a in
    let rest = traded ts a' bar.bucket v in if bar.bucket == bucket then rest else volume + rest

-- Ticks of one symbol, whose cumulative volume rises from `c`.
abbrev pub Rising : String → ℕ → List Tick → Type 0
Rising symbol c [] = Unit
Rising symbol c (t ∷ ts) =
    (t.symbol ≡ symbol)
    × (t.volume ≡ some (or_zero t.volume))
    × (c ≤ or_zero t.volume)
    × Rising symbol (or_zero t.volume) ts

-- The last cumulative volume.
abbrev pub last_volume : ℕ → List Tick → ℕ
last_volume c [] = c
last_volume c (t ∷ ts) = last_volume (or_zero t.volume) ts

last_volume_ge :
    (symbol : String) (c : ℕ) (ts : List Tick) → Rising symbol c ts → c ≤ last_volume c ts
last_volume_ge symbol c [] r = omega arith
last_volume_ge symbol c (t ∷ ts) r =
    omega (arith, r.2, last_volume_ge symbol (or_zero t.volume) ts r.3)

-- The current bar of the symbol has measured up to `c`.
pub record Measured (symbol : String) (c : ℕ) (bar : Bar) (a : Aggregator) : Type 0 where
  pub current : lookup symbol a.bars ≡ some bar
  pub seen : lookup symbol a.last_cum_volume ≡ some c
  pub past_baseline : bar.baseline_volume ≤ c

step_lem :
    (symbol : String) (c : ℕ) (bar : Bar) (a : Aggregator) (t : Tick)
    → Measured symbol c bar a
    → t.symbol ≡ symbol
    → t.volume ≡ some (or_zero t.volume)
    → c ≤ or_zero t.volume
    → let (a', bar', v) = update_bar t a in
      Measured symbol (or_zero t.volume) bar' a'
      × (bar'.baseline_volume ≡ (if bar'.bucket == bar.bucket then bar.baseline_volume else c))
      × (v ≡ or_zero t.volume - bar'.baseline_volume)
unfolding update_bar next_bar open_bar extend_bar
step_lem symbol c bar a t m s v h =
    let bars = lookup-insert_self symbol (update_bar t a).1 a.bars in
    let seen = lookup-insert_self symbol (or_zero t.volume) a.last_cum_volume in
    ground (arith, s, v, m.current, m.seen, bars, seen)

-- No traded volume is lost or counted twice where one bar ends and the next begins: while all
-- ticks of a symbol have a cumulative volume and it does not fall, the volumes of its bars add up
-- to its rise since the baseline of the first of them, whatever buckets the ticks fall into.
pub traded_lem :
    (symbol : String) (c : ℕ) (bar : Bar) (a : Aggregator) (ts : List Tick)
    → Measured symbol c bar a
    → Rising symbol c ts
    → traded ts a bar.bucket (c - bar.baseline_volume) ≡ last_volume c ts - bar.baseline_volume
unfolding traded
traded_lem symbol c bar a [] m r = refl
traded_lem symbol c bar a (t ∷ ts) m r =
    let s = step_lem symbol c bar a t m r.0 r.1 r.2 in
    let ih =
      traded_lem symbol (or_zero t.volume) (update_bar t a).1 (update_bar t a).0 ts s.0 r.3 in
    let le = last_volume_ge symbol (or_zero t.volume) ts r.3 in
    let sv = s.2 in
    let v : traded ts (update_bar t a).0 (update_bar t a).1.bucket (update_bar t a).2
        ≡ last_volume (or_zero t.volume) ts - (update_bar t a).1.baseline_volume =
      rw sv ih in
    ground (arith, v, s.1, m.past_baseline, r.2, le)
