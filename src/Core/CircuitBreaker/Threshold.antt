-- ===== src/Core/CircuitBreaker/Threshold.antt =====
-- When failures open a breaker, and how it recovers.
use quant_stack.Prelude.{
  ℕ, ◌+◌, ◌≤◌, ◌<◌, ◌≡◌, true, String, Option, some, List, [], ◌∷◌, arith, length, ltb,
  if◌then◌else◌,
}
use quant_stack.Core.CircuitBreaker.{
  CircuitBreaker, closed, open_, Call, failure, run, record_failure, record_success, allow_request,
  step,
}

-- Failures in a row, each with its time and its error.
abbrev pub failures : List (ℕ × Option String) → List Call
failures [] = []
failures ((now, e) ∷ fs) = failure now e ∷ failures fs

open_stays :
    (b : CircuitBreaker) (fs : List (ℕ × Option String))
    → b.state ≡ open_
    → (run b (failures fs)).state ≡ open_
unfolding run step
open_stays b [] o = o
open_stays b ((now, e) ∷ fs) o = open_stays (record_failure now e b).0 fs (ground arith)

-- One failure of a closed breaker: it opens, or counts and stays closed.
count_or_open :
    (b : CircuitBreaker) (now : ℕ) (e : Option String)
    → b.state ≡ closed
    → let b' = (record_failure now e b).0 in
      (b'.failure_threshold ≡ b.failure_threshold)
      × (b'.consecutive_failures ≡ b.consecutive_failures + 1)
      × (b'.state
          ≡ (if ltb (b.consecutive_failures + 1) b.failure_threshold then closed else open_))
unfolding record_failure
count_or_open b now e c = ground arith

-- A closed breaker that sees failures in a row is open afterwards exactly when the failures that it
-- had counted and these reach the threshold together; until then it stays closed.
pub failures_open :
    (b : CircuitBreaker) (fs : List (ℕ × Option String))
    → b.state ≡ closed
    → b.consecutive_failures < b.failure_threshold
    → (run b (failures fs)).state
      ≡ (if ltb (b.consecutive_failures + length fs) b.failure_threshold then closed else open_)
unfolding run step
failures_open b [] c h = ground arith
failures_open b ((now, e) ∷ fs) c h = ground (
  arith,
  count_or_open b now e c,
  failures_open (record_failure now e b).0 fs,
  open_stays (record_failure now e b).0 fs,
)

-- After the timeout an open breaker that has a probe to give lets the next request through; if it
-- succeeds the breaker is closed with no failure counted, and if it fails the breaker is open again
-- from that moment, with one more opening counted.
pub recovery :
    (b : CircuitBreaker) (t now later : ℕ) (e : Option String)
    → b.state ≡ open_
    → b.opened_at ≡ some t
    → t + b.recovery_timeout ≤ now
    → 0 < b.half_open_max_calls
    → let (b', ok) = allow_request now b in
      let won = record_success b' in
      let lost = record_failure later e b' in
      (ok ≡ true)
      × (won.1 ≡ true)
      × (won.0.state ≡ closed)
      × (won.0.consecutive_failures ≡ 0)
      × (lost.1 ≡ true)
      × (lost.0.state ≡ open_)
      × (lost.0.opened_at ≡ some later)
      × (lost.0.total_opens ≡ b.total_opens + 1)
unfolding allow_request record_success record_failure
recovery b t now later e o d h m = ground arith
