-- ===== src/Collectors/TickAggregator/Buckets.antt =====
-- The bucket of an instant.
use quant_stack.Prelude.{ℕ, ◌+◌, ◌-◌, ◌*◌, ◌/◌, ◌≤◌, ◌<◌, arith, leb, Bool-cases, inl, inr}
use native.Mathlib.Nat.{div-mul-le_self, lt-div-mul-add, mul_assoc}
use quant_stack.Collectors.TickAggregator.{session_open, ceil_div, floor_to_session_bucket}

-- The floor of a number of seconds to whole buckets of `m` minutes.
floor_lem : (n m : ℕ) → 0 < m → (n / 60 / m * (m * 60) ≤ n) × (n < n / 60 / m * (m * 60) + m * 60)
floor_lem n m h =
    let assoc = mul_assoc (n / 60 / m) m 60 in
    let low = div-mul-le_self (n / 60) m in
    let high = lt-div-mul-add {a = n / 60} {b = m} h in
    (omega (arith, assoc, low), omega (arith, assoc, high))

ceil_lem :
    (n m : ℕ)
    → 0 < m
    → 0 < n
    → (n ≤ ceil_div (ceil_div n 60) m * (m * 60))
      × (ceil_div (ceil_div n 60) m * (m * 60) < n + m * 60)
ceil_lem n m h p =
    let k = ceil_div n 60 in
    let assoc = mul_assoc (ceil_div k m) m 60 in
    let low = div-mul-le_self (k + m - 1) m in
    let high = lt-div-mul-add {a = k + m - 1} {b = m} h in
    (omega (arith, assoc, high), omega (arith, assoc, low))

-- Every instant that is no earlier than the width of a bucket lies in its bucket of a minute or
-- more, before the opening of the session too: the bucket starts at the instant or before it, and
-- ends after it.
pub bucket_holds :
    (ts minutes : ℕ)
    → 0 < minutes
    → minutes * 60 ≤ ts
    → (floor_to_session_bucket ts minutes ≤ ts)
      × (ts < floor_to_session_bucket ts minutes + minutes * 60)
unfolding floor_to_session_bucket
bucket_holds ts minutes p h = elim (Bool-cases (leb (session_open ts) ts)) [
  | inl late ↦ let f = floor_lem (ts - session_open ts) minutes p in ground (arith, late, f)
  | inr early ↦
      let c = ceil_lem (session_open ts - ts) minutes p (ground (arith, early)) in
      ground (arith, early, c)
]
