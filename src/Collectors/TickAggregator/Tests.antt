-- ===== src/Collectors/TickAggregator/Tests.antt =====
-- The aggregator at concrete inputs.
use quant_stack.Prelude.{ℕ, ◌+◌, ◌-◌, ◌≡◌, refl, String, none, some, List, [], ◌∷◌, arith, eq_iff}
use quant_stack.Prelude.Dict.{lookup}
use quant_stack.Collectors.TickAggregator.{
  Bar, Aggregator, Tick, Row, init, update_bar, ingest, floor_to_session_bucket,
}
use quant_stack.Collectors.TickAggregator.Bars.{ingest_lem}
use quant_stack.Collectors.TickAggregator.Volumes.{Measured, traded, traded_lem}

-- 10:47:30 on the first day lies in the hour from 10:15.
hour_of_morning : floor_to_session_bucket 38850 60 ≡ 36900
unfolding floor_to_session_bucket
hour_of_morning = refl

abbrev tick : ℕ → ℕ → ℕ → Tick
tick ts ltp volume = record { symbol = "INFY"; ltp = ltp; volume = some volume; ts = ts }

abbrev first : Tick
first = tick 33300 1500 100

abbrev others : List Tick
others =
    tick 33315 1520 130
    ∷ record { symbol = "TCS"; ltp = 9; volume = none; ts = 99999 }
    ∷ tick 33345 1490 170
    ∷ []

-- The minute before: the symbol had traded 60, and another one 500.
abbrev minute_before : List Tick
minute_before =
    tick 33250 1480 40
    ∷ record { symbol = "TCS"; ltp = 9; volume = some 500; ts = 33299 }
    ∷ tick 33290 1490 60
    ∷ []

ingest_lem_example :
    let a = ingest (first ∷ others) (ingest minute_before init) in
    (lookup "INFY" a.bars
      ≡ some (record {
        bucket = 33300;
        open_price = 1500;
        high = 1520;
        low = 1490;
        close = 1490;
        baseline_volume = 60;
      }))
    × ((update_bar (tick 33350 1495 190) a).2 ≡ 130)
unfolding floor_to_session_bucket
ingest_lem_example =
    ingest_lem minute_before first others (tick 33350 1495 190)
      ((λ s. refl), ((λ s. refl), ((λ s. refl), tt)))
      (λ s. refl, (λ s. absurd (ground (arith, (eq_iff "TCS" "INFY").1 s)), (λ s. refl, tt))) refl
      refl

abbrev opened : Bar
opened = record {
  bucket = 33300;
  open_price = 1500;
  high = 1500;
  low = 1500;
  close = 1500;
  baseline_volume = 100;
}

abbrev running : Aggregator
running = record { bars = ("INFY", opened) ∷ []; last_cum_volume = ("INFY", 120) ∷ [] }

running-Measured : Measured "INFY" 120 opened running
unfolding lookup
running-Measured = record { current = refl; seen = refl; past_baseline = omega arith }

traded_lem_example :
    traded
      (tick 33320 1501 130 ∷ tick 33400 1502 150 ∷ tick 33500 1503 190 ∷ [])
      running
      33300
      (120 - 100)
    ≡ 190 - 100
traded_lem_example =
    traded_lem "INFY" 120 opened running
      (tick 33320 1501 130 ∷ tick 33400 1502 150 ∷ tick 33500 1503 190 ∷ []) running-Measured
      (refl, refl, omega arith, (refl, refl, omega arith, (refl, refl, omega arith, tt)))

abbrev row : String → ℕ → ℕ → ℕ → Row
row timeframe ts price volume = record {
  symbol = "INFY";
  timeframe = timeframe;
  ts = ts;
  open_price = price;
  high = price + 5;
  low = price - 5;
  close = price + 1;
  volume = volume;
}
