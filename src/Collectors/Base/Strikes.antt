-- ===== src/Collectors/Base/Strikes.antt =====
-- The gates of `run_once`, and the breaker of a collector over a history of runs.
use quant_stack.Prelude.{
  ap, ltb, if◌then◌else◌, All, ℕ, ◌+◌, ◌≤◌, ◌<◌, ◌≡◌, refl, List, [], ◌∷◌, arith, Bool, true, false,
  some, length, inl, inr, Bool-cases, ◌==◌, ==_iff, suc,
}
use quant_stack.Core.CircuitBreaker.{
  closed, open_, is_closed, record_success, record_failure, allow_request,
}
use quant_stack.Collectors.Registry.{circuit_open}
use quant_stack.Collectors.Base.{
  opened, Run, Health, Collector, hold, execute, gather, check, conclude, succeed, fail,
  pass_breaker, run_once, enter, hold_lock,
}
use quant_stack.Collectors.Base.Steps.{Step, call, arrive, start, take_step, serve}
use quant_stack.Collectors.Base.Retry.{Down, collect_with_retry-Down}

-- The calls of `run_once` that a collector has counted.
abbrev pub counted : Health → ℕ
counted h = h.run_count + h.skipped_market_closed + h.skipped_market_open + h.circuit_skipped

-- The breaker agrees with the health record: a closed one has counted the failures in a row, and any
-- other stands behind as many failures in a row as its threshold.
pub record IsInStep (c : Collector) : Type 0 where
  pub agrees :
      c.breaker.state ≡ closed → c.breaker.consecutive_failures ≡ c.health.consecutive_failures
  pub below : c.breaker.state ≡ closed → c.health.consecutive_failures < c.breaker.failure_threshold
  pub struck :
      is_closed c.breaker.state ≡ false
      → c.breaker.failure_threshold ≤ c.health.consecutive_failures
  pub positive : 0 < c.breaker.failure_threshold
  pub idle : c.health.in_flight ≡ false

-- The collector after a skip by its breaker.
abbrev shut : Collector → Collector
shut c = record c {
  health = record c.health {
    status = circuit_open;
    circuit_skipped = c.health.circuit_skipped + 1;
  };
}

module _ {R : Type 0} where
  enter-counted :
      (r : Run R) (force : Bool) (c : Collector)
      → let c' = (enter r force c).0 in
        (counted c'.health + c'.health.queue_length ≡ counted c.health + c.health.queue_length + 1)
        × ((enter r force c).1 ≡ true → 0 < c'.health.queue_length)
  unfolding enter pass_breaker
  enter-counted r force c = ground arith

  hold_lock-counted :
      (r : Run R) (c : Collector)
      → 0 < c.health.queue_length
      → let c' = (hold_lock r c).0 in
        counted c'.health + c'.health.queue_length ≡ counted c.health + c.health.queue_length
  unfolding hold_lock execute gather check conclude succeed fail
  hold_lock-counted r c h = ground arith

  -- The steps in which a call comes in.
  abbrev pub arrivals : List (Step R) → ℕ
  arrivals [] = 0
  arrivals (call force r ∷ ss) = suc (arrivals ss)
  arrivals (arrive force r ∷ ss) = suc (arrivals ss)
  arrivals (start r ∷ ss) = arrivals ss

  run_once-counted :
      (r : Run R) (force : Bool) (c : Collector)
      → let c' = (run_once r force c).0 in
        counted c'.health + c'.health.queue_length ≡ counted c.health + c.health.queue_length + 1
  unfolding run_once
  run_once-counted r force c =
      let e = enter-counted r force c in
      elim (Bool-cases (enter r force c).1) [
        | inl w ↦ ground (arith, w, e, hold_lock-counted r (enter r force c).0 (e.1 w))
        | inr w ↦ ground (arith, w, e)
      ]

  start-counted :
      (r : Run R) (c : Collector)
      → let c' = take_step (start r) c in
        counted c'.health + c'.health.queue_length ≡ counted c.health + c.health.queue_length
  unfolding take_step
  start-counted r c = elim (Bool-cases (c.health.queue_length == 0)) [
    | inl e ↦ rw e refl
    | inr e ↦
        let h : 0 < c.health.queue_length = ground (arith, e, ==_iff c.health.queue_length 0) in
        rw e (hold_lock-counted r c h)
  ]

  -- Each call of `run_once` is counted once, as waiting, as a run, or as a skip for one of the three
  -- reasons: calls that come in raise these numbers together by their number, and no run is lost or
  -- counted twice while calls wait.
  pub serve-counted :
      (ss : List (Step R)) (c : Collector)
      → counted (serve ss c).health + (serve ss c).health.queue_length
        ≡ counted c.health + c.health.queue_length + arrivals ss
  unfolding serve take_step
  serve-counted [] c = omega arith
  serve-counted (call force r ∷ ss) c =
      omega (arith, run_once-counted r force c, serve-counted ss (run_once r force c).0)
  serve-counted (arrive force r ∷ ss) c =
      omega (arith, (enter-counted r force c).0, serve-counted ss (enter r force c).0)
  serve-counted (start r ∷ ss) c =
      omega (arith, start-counted r c, serve-counted ss (take_step (start r) c))

  enter-IsInStep :
      (r : Run R) (force : Bool) (c : Collector) → IsInStep c → IsInStep (enter r force c).0
  unfolding enter pass_breaker allow_request
  enter-IsInStep r force c h = ground arith

  -- A run behind any queue is one behind the queue without it, joined.
  hold_lock-IsInStep : (r : Run R) (c : Collector) → IsInStep c → IsInStep (hold_lock r c).0
  unfolding hold_lock execute gather check conclude succeed fail record_success record_failure
  hold_lock-IsInStep r c h = ground arith

  run_once-IsInStep :
      (r : Run R) (force : Bool) (c : Collector) → IsInStep c → IsInStep (run_once r force c).0
  unfolding run_once
  run_once-IsInStep r force c h =
      let e = enter-IsInStep r force c h in
      elim (Bool-cases (enter r force c).1) [
        | inl w ↦ ground (arith, w, hold_lock-IsInStep r (enter r force c).0 e)
        | inr w ↦ ground (arith, w, e)
      ]

  take_step-IsInStep : (s : Step R) (c : Collector) → IsInStep c → IsInStep (take_step s c)
  unfolding take_step
  take_step-IsInStep (call force r) c h = run_once-IsInStep r force c h
  take_step-IsInStep (arrive force r) c h = enter-IsInStep r force c h
  take_step-IsInStep (start r) c h = elim (Bool-cases (c.health.queue_length == 0)) [
    | inl e ↦ rw e h
    | inr e ↦ rw e (hold_lock-IsInStep r c h)
  ]

  -- Any number of calls, forced or not, in and out of market hours, keep a breaker that is in step
  -- with the health record in step, also where calls pass the breaker and then wait for the lock while
  -- others run: while the failures in a row are below the threshold it is closed, and from there on it
  -- is not.
  pub serve-IsInStep : (ss : List (Step R)) (c : Collector) → IsInStep c → IsInStep (serve ss c)
  unfolding serve
  serve-IsInStep [] c h = h
  serve-IsInStep (s ∷ ss) c h = serve-IsInStep ss (take_step s c) (take_step-IsInStep s c h)

  blocked :
      (r : Run R) (c : Collector) (t : ℕ)
      → c.breaker.state ≡ open_
      → c.breaker.opened_at ≡ some t
      → r.now < t + c.breaker.recovery_timeout
      → run_once r true c ≡ (shut c, [])
  unfolding run_once enter pass_breaker hold_lock allow_request
  blocked r c t o d h = ground arith

  -- Forced calls.
  abbrev pub forced : List (Run R) → List (Step R)
  forced [] = []
  forced (r ∷ rs) = call true r ∷ forced rs

  -- While the timeout of an open breaker has not elapsed, forced calls of `run_once` run nothing:
  -- each is counted as a skip by the breaker, and the runs, the failures, the breaker and the
  -- alerts stay as they are.
  pub serve_blocked :
      (rs : List (Run R)) (c : Collector) (t : ℕ)
      → c.breaker.state ≡ open_
      → c.breaker.opened_at ≡ some t
      → All (λ r. r.now < t + c.breaker.recovery_timeout) rs
      → let c' = serve (forced rs) c in
        (c'.health.circuit_skipped ≡ c.health.circuit_skipped + length rs)
        × (c'.health.run_count ≡ c.health.run_count)
        × (c'.health.failure_count ≡ c.health.failure_count)
        × (c'.breaker ≡ c.breaker)
        × (c'.alerts ≡ c.alerts)
  unfolding serve take_step
  serve_blocked [] c t o d h = (omega arith, refl, refl, refl, refl)
  serve_blocked (r ∷ rs) c t o d h =
      let e = blocked r c t o d h.0 in
      let ih = serve_blocked rs (shut c) t o d h.1 in
      let s : serve (forced rs) (run_once r true c).0 ≡ serve (forced rs) (shut c) =
        ap (λ p. serve (forced rs) p.0) e in
      ground (arith, s, ih)

  -- One forced run of a source that is down, behind a closed breaker.
  strike :
      (r : Run R) (c : Collector)
      → Down r
      → c.breaker.state ≡ closed
      → let c' = (run_once r true c).0 in
        (c'.breaker.failure_threshold ≡ c.breaker.failure_threshold)
        × (c'.breaker.consecutive_failures ≡ c.breaker.consecutive_failures + 1)
        × (c'.breaker.state ≡ (
            if ltb (c.breaker.consecutive_failures + 1) c.breaker.failure_threshold
            then closed
            else open_))
        × (c'.alerts ≡ (
            if ltb (c.breaker.consecutive_failures + 1) c.breaker.failure_threshold
            then c.alerts
            else opened ∷ c.alerts))
  unfolding run_once enter pass_breaker hold_lock allow_request hold execute gather check conclude
      succeed fail record_failure
  strike r c d o = let l = collect_with_retry-Down r d in ground (arith, l)

  -- If the source is down, and the breaker closed and below its threshold, then the forced runs
  -- that it takes to reach the threshold open the breaker, and fire exactly one alert.
  pub serve_strikes :
      (rs : List (Run R)) (c : Collector)
      → All Down rs
      → c.breaker.state ≡ closed
      → c.breaker.consecutive_failures < c.breaker.failure_threshold
      → c.breaker.consecutive_failures + length rs ≡ c.breaker.failure_threshold
      → let c' = serve (forced rs) c in (c'.breaker.state ≡ open_) × (c'.alerts ≡ opened ∷ c.alerts)
  unfolding serve take_step
  serve_strikes [] c d o l h = absurd (omega arith)
  serve_strikes (r ∷ []) c d o l h = let s = strike r c d.0 o in ground (arith, s)
  serve_strikes (r ∷ (r' ∷ rs)) c d o l h =
      let s = strike r c d.0 o in
      ground (arith, s, serve_strikes (r' ∷ rs) (run_once r true c).0 d.1)
