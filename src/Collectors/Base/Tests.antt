-- ===== src/Collectors/Base/Tests.antt =====
-- Collectors at concrete inputs.
use quant_stack.Prelude.{
  ℕ, ◌+◌, ◌≡◌, ◌≤◌, ◌<◌, refl, List, [], ◌∷◌, arith, true, false, none, some, ltb, if◌then◌else◌,
}
use quant_stack.Prelude.Int.{pos}
use quant_stack.Core.CircuitBreaker.{closed, open_, allow_request, record_failure}
use quant_stack.Collectors.Registry.{idle}
use quant_stack.Collectors.Base.{
  Raised, returned, raised, Run, Health, Collector, opened, collect_with_retry, hold, run_once,
  fail, is_nse_market_open,
}
use quant_stack.Collectors.Base.Steps.{Step, serve, take_step, call, arrive, start}
use quant_stack.Collectors.Base.Retry.{is_raised, collect_with_retry_lem}
use quant_stack.Collectors.Base.Accounting.{Recorded, lifecycle, hold_lem}
use quant_stack.Collectors.Base.Strikes.{IsInStep, forced, serve-IsInStep, serve_strikes}

abbrev unreachable : Raised
unreachable = record { kind = "CollectionError"; text = "timeout" }

abbrev fresh : Health
fresh = record {
  status = idle;
  last_run = none;
  last_success = none;
  run_count = 0;
  failure_count = 0;
  consecutive_failures = 0;
  retry_count = 0;
  avg_latency_ms = 0;
  last_error = none;
  records_emitted = 0;
  in_flight = false;
  queue_length = 0;
  skipped_market_closed = 0;
  skipped_market_open = 0;
  circuit_skipped = 0;
  last_run_collected = 0;
  last_run_dropped = pos 0;
}

abbrev vix : Collector
vix = record {
  requires_auth = false;
  market_hours_only = true;
  after_hours_only = false;
  initialized = false;
  health = fresh;
  breaker = record {
    name = "collector.vix";
    failure_threshold = 3;
    recovery_timeout = 60;
    half_open_max_calls = 1;
    state = closed;
    consecutive_failures = 0;
    opened_at = none;
    total_opens = 0;
    last_error = none;
    half_open_calls = 0;
  };
  alerts = [];
  failures = [];
}

-- A run at time `t` whose calls of `collect` raise up to the `k`-th.
abbrev run_at : ℕ → ℕ → Run ℕ
run_at t k = record {
  market_open = true;
  now = t;
  latency_ms = 20;
  retry_attempts = 1;
  average = λ prev latency n. latency;
  initialize = returned tt;
  authenticate = returned tt;
  collect = λ n. if ltb k n then returned (4 ∷ 5 ∷ []) else raised unreachable;
  validate = λ rs. returned rs;
  normalize = λ rs. returned rs;
  calculate_confidence = λ rs. returned rs;
  stamp_latency = λ latency r. r;
  process = λ rs. returned rs;
}

-- A run at time `t` whose source is down.
abbrev down_at : ℕ → Run ℕ
down_at t = record (run_at t 0) { collect = λ n. raised unreachable }

abbrev outage : List (Run ℕ)
outage = down_at 5 ∷ down_at 6 ∷ down_at 7 ∷ []

opens_after_three : (serve (forced outage) vix).breaker.state ≡ open_
unfolding serve take_step run_once allow_request fail record_failure
opens_after_three = refl

closes_at_night : is_nse_market_open 2 false 9 14 ≡ false
unfolding is_nse_market_open
closes_at_night = refl

hold_lem_example :
    let r = run_at 5 1 in
    let (c', out) = hold r vix in
    (c'.health.run_count ≡ 0 + 1)
    × (c'.health.in_flight ≡ false)
    × (c'.health.queue_length ≡ 0)
    × Recorded r vix (lifecycle r vix) (hold r vix)
hold_lem_example = hold_lem (run_at 5 1) vix

collect_with_retry_lem_example :
    let (outcome, k) = collect_with_retry (run_at 5 1) in
    (outcome ≡ (run_at 5 1).collect (1 + k))
    × (k ≤ 1)
    × ((i : ℕ) → i < k → is_raised ((run_at 5 1).collect (1 + i)) ≡ true)
    × (is_raised outcome ≡ true → k ≡ 1)
collect_with_retry_lem_example = collect_with_retry_lem (run_at 5 1)

vix-IsInStep : IsInStep vix
vix-IsInStep = ground arith

-- Two calls wait while the source goes down; the second runs behind a breaker that is open by then.
abbrev queued : List (Step ℕ)
queued =
    call false (run_at 5 1)
    ∷ arrive false (down_at 5)
    ∷ arrive true (run_at 8 1)
    ∷ start (down_at 6)
    ∷ call true (down_at 7)
    ∷ call true (down_at 7)
    ∷ start (run_at 8 1)
    ∷ []

serve-IsInStep_example : IsInStep (serve queued vix)
serve-IsInStep_example = serve-IsInStep queued vix vix-IsInStep

serve_strikes_example :
    let c' = serve (forced outage) vix in (c'.breaker.state ≡ open_) × (c'.alerts ≡ opened ∷ [])
serve_strikes_example =
    serve_strikes outage vix (λ n. refl, (λ n. refl, (λ n. refl, tt))) refl (omega arith) refl

-- Opened at time 7.
abbrev broken : Collector
broken = record vix {
  health = record fresh { consecutive_failures = 3; failure_count = 3; run_count = 3 };
  breaker = record vix.breaker {
    state = open_;
    consecutive_failures = 3;
    opened_at = some 7;
    total_opens = 1;
  };
  alerts = opened ∷ [];
}
