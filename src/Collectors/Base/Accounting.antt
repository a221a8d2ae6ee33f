-- ===== src/Collectors/Base/Accounting.antt =====
-- What a run of a collector leaves in its health record and its breaker.
use quant_stack.Prelude.{
  ◌+◌, ◌≡◌, List, [], ◌∷◌, arith, true, false, some, length, if◌then◌else◌, leb,
}
use quant_stack.Core.CircuitBreaker.{record_success, record_failure}
use quant_stack.Collectors.Registry.{ok, degraded, failed}
use quant_stack.Collectors.Base.{
  Outcome, returned, raised, ◌>>=◌, Run, Collector, collect_with_retry, prepare, finish_stages,
  succeed, fail, conclude, check, gather, execute, hold, hold_lock,
}
use quant_stack.Collectors.Base.Retry.{Down, is_raised, collect_with_retry-Down}

-- The stages of a run in the order that the lifecycle has: the outcome of the first that raises, or
-- the records of the last.
unfoldable pub lifecycle : {R : Type 0} → Run R → Collector → Outcome (List R)
lifecycle r c = do
  ready ← (prepare r c).1
  collected ← (collect_with_retry r).0
  valid ← r.validate collected
  finish_stages r valid

-- What the run `r` makes of the collector `c` and what it returns, by the outcome of its stages.
abbrev pub Recorded :
    {R : Type 0} → Run R → Collector → Outcome (List R) → Collector × List R → Type 0
Recorded r c (returned rs) (c', out) =
    (out ≡ rs)
    × (c'.health.status ≡ ok)
    × (c'.health.consecutive_failures ≡ 0)
    × (c'.health.failure_count ≡ c.health.failure_count)
    × (c'.health.records_emitted ≡ c.health.records_emitted + length rs)
    × (c'.health.last_success ≡ some r.now)
    × (c'.failures ≡ c.failures)
    × (c'.breaker ≡ (record_success c.breaker).0)
Recorded r c (raised e) (c', out) =
    (out ≡ [])
    × (c'.health.status ≡ (if leb 3 (c.health.consecutive_failures + 1) then failed else degraded))
    × (c'.health.consecutive_failures ≡ c.health.consecutive_failures + 1)
    × (c'.health.failure_count ≡ c.health.failure_count + 1)
    × (c'.health.records_emitted ≡ c.health.records_emitted)
    × (c'.health.last_error ≡ some e)
    × (c'.failures ≡ e ∷ c.failures)
    × (c'.breaker ≡ (record_failure r.now (some e.text) c.breaker).0)

module _ {R : Type 0} (r : Run R) where
  -- A run behind the gates, by the outcome of its stages. If they return records, these are the
  -- result, and they are counted, the status is ok, no failure in a row is left and the breaker is
  -- told of the success. If a stage raises, the result is empty, the failure is counted, the third
  -- failure in a row makes the status failed, and the breaker and the pipeline are told of it. In both
  -- cases the run is counted, is no longer in flight, and has left the queue.
  pub hold_lem :
      (c : Collector)
      → let (c', out) = hold r c in
        (c'.health.run_count ≡ c.health.run_count + 1)
        × (c'.health.in_flight ≡ false)
        × (c'.health.queue_length ≡ c.health.queue_length)
        × Recorded r c (lifecycle r c) (hold r c)
  unfolding hold hold_lock execute gather check conclude succeed fail lifecycle
  hold_lem c = ground arith

  pub lifecycle-Down : (c : Collector) → Down r → is_raised (lifecycle r c) ≡ true
  unfolding lifecycle
  lifecycle-Down c h = let l = collect_with_retry-Down r h in ground (arith, l)
