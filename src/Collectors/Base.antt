-- ===== src/Collectors/Base.antt =====
-- backend/app/collectors/base.py: one run of a collector. What its hooks, its pipeline and the clock
-- do in a run is a `Run`; `R` are the records. A call passes the gates and the breaker, joins the queue
-- of the collector's lock, and holds the lock until its run ends. Latencies are numbers, and the running mean is the run's `average`.
mod Tests
pub mod Steps
pub mod Retry
pub mod Accounting
pub mod Strikes
use quant_stack.Prelude.{
  ℕ, zero, suc, ◌+◌, ◌-◌, ◌*◌, String, Bool, true, false, not, ◌&&◌, Option, none, some, List, [],
  ◌∷◌, map, leb, ◌==◌, if◌then◌else◌, length,
}
use quant_stack.Prelude.Int.{ℤ, sub_ℕ}
use quant_stack.Core.CircuitBreaker.{CircuitBreaker, allow_request, record_success, record_failure}
use quant_stack.Collectors.Registry.{Status, idle, ok, degraded, failed, circuit_open}

-- An exception: `type(exc).__name__` and `str(exc)`.
pub record Raised : Type 0 where
  pub kind : String
  pub text : String

pub data Outcome {ℓ} (A : Type ℓ) : Type ℓ where
  returned : A → Outcome A
  raised : Raised → Outcome A

infixl 5 ◌>>=◌
abbrev pub ◌>>=◌ {ℓ κ} : {A : Type ℓ} {B : Type κ} → Outcome A → (A → Outcome B) → Outcome B
returned a >>= f = f a
raised e >>= f = raised e

-- `is_nse_market_open`, of a weekday (Monday is 0), a holiday and a time of day in IST.
unfoldable pub is_nse_market_open : ℕ → Bool → ℕ → ℕ → Bool
is_nse_market_open weekday holiday hour minute =
    if leb 5 weekday
    then false
    else if holiday
    then false
    else leb (9 * 60 + 15) (hour * 60 + minute) && leb (hour * 60 + minute) (15 * 60 + 35)

-- `CollectorHealthStatus`. The counters that the code keeps in `extras` are fields.
pub record Health : Type 0 where
  pub status : Status
  pub last_run : Option ℕ
  pub last_success : Option ℕ
  pub run_count : ℕ
  pub failure_count : ℕ
  pub consecutive_failures : ℕ
  pub retry_count : ℕ
  pub avg_latency_ms : ℕ
  pub last_error : Option Raised
  pub records_emitted : ℕ
  pub in_flight : Bool
  pub queue_length : ℕ
  pub skipped_market_closed : ℕ
  pub skipped_market_open : ℕ
  pub circuit_skipped : ℕ
  pub last_run_collected : ℕ
  pub last_run_dropped : ℤ

pub data AlertKind : Type 0 where
  recovered opened : AlertKind

pub record Collector : Type 0 where
  pub requires_auth : Bool
  pub market_hours_only : Bool
  pub after_hours_only : Bool
  pub initialized : Bool
  pub health : Health
  pub breaker : CircuitBreaker
  -- The alerts that `_fire_alert` fired, newest first.
  pub alerts : List AlertKind
  -- The exceptions of which `pipeline.record_failure` was told, newest first.
  pub failures : List Raised

pub record Run (R : Type 0) : Type 0 where
  pub market_open : Bool
  pub now : ℕ
  pub latency_ms : ℕ
  pub retry_attempts : ℕ
  pub average : ℕ → ℕ → ℕ → ℕ
  pub initialize : Outcome (Unit {0})
  pub authenticate : Outcome (Unit {0})
  -- The outcome of the n-th call of `collect`, from 1.
  pub collect : ℕ → Outcome (List R)
  pub validate : List R → Outcome (List R)
  pub normalize : List R → Outcome (List R)
  pub calculate_confidence : List R → Outcome (List R)
  pub stamp_latency : ℕ → R → R
  pub process : List R → Outcome (List R)

module _ {R : Type 0} (r : Run R) where
  -- The loop of `_collect_with_retry` from attempt `n` on, with `left` retries behind it: its outcome
  -- and how many retries it made.
  unfoldable pub retry_loop : ℕ → ℕ → Outcome (List R) × ℕ
  retry_loop n zero = (r.collect n, 0)
  retry_loop n (suc left) =
      let rest = retry_loop (n + 1) left in
      elim (r.collect n) [ returned rs ↦ (returned rs, 0) | raised e ↦ (rest.0, rest.1 + 1) ]

  unfoldable pub collect_with_retry : Outcome (List R) × ℕ
  unfolding retry_loop
  collect_with_retry = retry_loop 1 r.retry_attempts

  -- `initialize` and `authenticate`: the flag `_initialized` and whether they raised.
  unfoldable pub prepare : Collector → Bool × Outcome (Unit {0})
  prepare c =
      let login = if c.requires_auth then r.authenticate else returned tt in
      if c.initialized
      then (true, login)
      else elim r.initialize [ returned _ ↦ (true, login) | raised e ↦ (false, raised e) ]

  -- The stages behind `validate`.
  unfoldable pub finish_stages : List R → Outcome (List R)
  finish_stages rs = do
    normal ← r.normalize rs
    sure ← r.calculate_confidence normal
    r.process (map (r.stamp_latency r.latency_ms) sure)

  unfoldable pub update_latency : Health → ℕ
  update_latency h = r.average h.avg_latency_ms r.latency_ms h.run_count

  -- The end of `_execute` without an exception.
  unfoldable pub succeed : List R → Collector → Collector
  unfolding update_latency
  succeed rs c =
      let (b, recovers) = record_success c.breaker in
      record c {
        health = record c.health {
          status = ok;
          last_success = some r.now;
          consecutive_failures = 0;
          records_emitted = c.health.records_emitted + length rs;
          last_error = none;
          avg_latency_ms = update_latency c.health;
        };
        breaker = b;
        alerts = if recovers then recovered ∷ c.alerts else c.alerts;
      }

  -- The `except` branch of `_execute`.
  unfoldable pub fail : Raised → Collector → Collector
  unfolding update_latency
  fail e c =
      let (b, opens) = record_failure r.now (some e.text) c.breaker in
      record c {
        health = record c.health {
          status = if leb 3 (c.health.consecutive_failures + 1) then failed else degraded;
          failure_count = c.health.failure_count + 1;
          consecutive_failures = c.health.consecutive_failures + 1;
          last_error = some e;
          avg_latency_ms = update_latency c.health;
        };
        breaker = b;
        alerts = if opens then opened ∷ c.alerts else c.alerts;
        failures = e ∷ c.failures;
      }

  -- From the validated records on.
  unfoldable pub conclude : List R → Collector → Collector × List R
  conclude rs c = elim (finish_stages rs) [
    | returned out ↦ (succeed out c, out)
    | raised e ↦ (fail e c, [])
  ]

  -- From the collected records on.
  unfoldable pub check : List R → Collector → Collector × List R
  unfolding conclude
  check collected c = elim (r.validate collected) [
    | raised e ↦ (fail e c, [])
    | returned valid ↦ conclude valid (record c {
      health = record c.health {
        last_run_collected = length collected;
        last_run_dropped = sub_ℕ (length collected) (length valid);
      };
    })
  ]

  -- From the collecting on.
  unfoldable pub gather : Collector → Collector × List R
  unfolding check collect_with_retry
  gather c =
      let (outcome, retries) = collect_with_retry in
      let c' : Collector = record c {
        health = record c.health { retry_count = c.health.retry_count + retries };
      } in
      elim outcome [ returned rs ↦ check rs c' | raised e ↦ (fail e c', []) ]

  unfoldable pub execute : Collector → Collector × List R
  unfolding gather prepare
  execute c =
      let (ready, outcome) = prepare c in
      let c' : Collector = record c {
        initialized = ready;
        health = record c.health { last_run = some r.now; run_count = c.health.run_count + 1 };
      } in
      elim outcome [ returned _ ↦ gather c' | raised e ↦ (fail e c', []) ]

  -- A call that waits for the lock.
  abbrev pub join : Collector → Collector
  join c = record c { health = record c.health { queue_length = c.health.queue_length + 1 } }

  -- A waiting call gets the lock, executes, and lets it go.
  unfoldable pub hold_lock : Collector → Collector × List R
  unfolding execute
  hold_lock c =
      let held : Health = record c.health {
        queue_length = c.health.queue_length - 1;
        in_flight = true;
      } in
      let (c', rs) = execute (record c { health = held }) in
      (record c' { health = record c'.health { in_flight = false } }, rs)

  -- Behind the gates, where no other call comes between.
  unfoldable pub hold : Collector → Collector × List R
  unfolding hold_lock
  hold c = hold_lock (join c)

  -- `if not self.circuit_breaker.allow_request()`, and the queue; whether the call waits for the lock.
  unfoldable pub pass_breaker : Collector → Collector × Bool
  pass_breaker c =
      let (b, allowed) = allow_request r.now c.breaker in
      if allowed then (join (record c { breaker = b }), true) else (
        record c {
          breaker = b;
          health = record c.health {
            status = circuit_open;
            circuit_skipped = c.health.circuit_skipped + 1;
          };
        },
        false,
      )

  -- What `run_once` does before it awaits the lock.
  unfoldable pub enter : Bool → Collector → Collector × Bool
  unfolding pass_breaker
  enter force c =
      if c.market_hours_only && (not force && not r.market_open)
      then (
        record c {
          health = record c.health { skipped_market_closed = c.health.skipped_market_closed + 1 };
        },
        false,
      )
      else if c.after_hours_only && (not force && r.market_open)
      then (
        record c {
          health = record c.health { skipped_market_open = c.health.skipped_market_open + 1 };
        },
        false,
      )
      else pass_breaker c

  -- A call that finds the lock free.
  unfoldable pub run_once : Bool → Collector → Collector × List R
  unfolding enter hold_lock
  run_once force c = let (c', waits) = enter force c in if waits then hold_lock c' else (c', [])
