-- ===== src/Collectors/Base/Retry.antt =====
-- The retries of `_collect_with_retry`.
use quant_stack.Prelude.{
  ℕ, zero, suc, ◌+◌, ◌≤◌, ◌<◌, ◌≡◌, refl, List, arith, Bool, true, false, ◌⊎◌, inl, inr,
}
use quant_stack.Collectors.Base.{
  Raised, Outcome, returned, raised, Run, retry_loop, collect_with_retry,
}

abbrev pub is_raised : {R : Type 0} → Outcome R → Bool
is_raised (raised e) = true
is_raised (returned rs) = false

pub Outcome-cases :
    {R : Type 0} (o : Outcome R) → ((rs : R) × (o ≡ returned rs)) ⊎ ((e : Raised) × (o ≡ raised e))
Outcome-cases (returned rs) = inl (rs, refl)
Outcome-cases (raised e) = inr (e, refl)

-- Attempts before the `k`-th from `n + 1` on, and attempt `n`: those before the `suc k`-th from `n` on.
shift :
    {R : Type 0} (f : ℕ → Outcome R) (n k : ℕ)
    → is_raised (f n) ≡ true
    → ((i : ℕ) → i < k → is_raised (f (n + 1 + i)) ≡ true)
    → (i : ℕ) → i < k + 1
    → is_raised (f (n + i)) ≡ true
shift f n k now later zero h = let e : n + 0 ≡ n = omega arith in rw e now
shift f n k now later (suc i) h =
    let e : n + suc i ≡ n + 1 + i = omega arith in rw e (later i (omega arith))

module _ {R : Type 0} (r : Run R) where
  -- The outcome of the loop is that of its call `n + k`, after `k` calls that raised.
  abbrev IsLoop : ℕ → ℕ → Outcome (List R) × ℕ → Type 0
  IsLoop n left res =
      (res.0 ≡ r.collect (n + res.1))
      × (res.1 ≤ left)
      × ((i : ℕ) → i < res.1 → is_raised (r.collect (n + i)) ≡ true)
      × (is_raised res.0 ≡ true → res.1 ≡ left)

  retry_loop-IsLoop : (n left : ℕ) → IsLoop n left (retry_loop r n left)
  unfolding retry_loop
  retry_loop-IsLoop n zero = (ground arith, omega arith, λ i h. absurd (omega arith), λ h. refl)
  retry_loop-IsLoop n (suc left) =
      let ih = retry_loop-IsLoop (n + 1) left in
      elim (Outcome-cases (r.collect n)) [
        | inl (rs, e) ↦ ground (arith, e)
        | inr (x, e) ↦ (
          ground (arith, e, ih.0),
          ground (arith, e, ih.1),
          ground (arith, e, shift r.collect n (retry_loop r (n + 1) left).1, ih.2),
          ground (arith, e, ih.3),
        )
      ]

  -- Collecting calls `collect` until a call returns, at most `retry_attempts` times again: after `k`
  -- retries the outcome is that of call `k + 1`, each call before it raised, and if it raised too
  -- then the retries are used up.
  pub collect_with_retry_lem :
      let (outcome, k) = collect_with_retry r in
      (outcome ≡ r.collect (1 + k))
      × (k ≤ r.retry_attempts)
      × ((i : ℕ) → i < k → is_raised (r.collect (1 + i)) ≡ true)
      × (is_raised outcome ≡ true → k ≡ r.retry_attempts)
  unfolding collect_with_retry
  collect_with_retry_lem = retry_loop-IsLoop 1 r.retry_attempts

-- A source that is down: every call of `collect` raises.
abbrev pub Down : {R : Type 0} → Run R → Type 0
Down r = (n : ℕ) → is_raised (r.collect n) ≡ true

pub collect_with_retry-Down :
    {R : Type 0} (r : Run R) → Down r → is_raised (collect_with_retry r).0 ≡ true
collect_with_retry-Down r h =
    let l = collect_with_retry_lem r in rw l.0 (h (1 + (collect_with_retry r).1))
