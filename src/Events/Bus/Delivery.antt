-- ===== src/Events/Bus/Delivery.antt =====
-- One delivery: which attempt ends it, and how long it may sleep.
use native.Mathlib.Nat.{pow-suc}
use quant_stack.Prelude.{
  ℕ, zero, suc, ◌+◌, ◌-◌, ◌*◌, ◌^◌, ◌≤◌, ◌<◌, ◌≡◌, ◌↔◌, ap, ◌∙◌, String, none, some, List, [], ◌∷◌,
  arith, Option-cases, inl, inr,
}
use quant_stack.Events.Bus.{Event, Handler, delivered, gave_up, attempt_loop}

abbrev pub sum : List ℕ → ℕ
sum [] = 0
sum (x ∷ xs) = x + sum xs

module _ (base : ℕ) (h : Handler) (e : Event) where
  -- A handler that succeeds on one of the attempts is delivered to.
  pub delivered_of_success :
      (n left k : ℕ)
      → k ≤ left
      → h.respond e (n + k) ≡ none
      → (attempt_loop base h e n left).0 ≡ delivered
  unfolding attempt_loop
  delivered_of_success n zero k le s = let z : n + k ≡ n = omega arith in rw (rw z at s)
  delivered_of_success n (suc left) zero le s =
      let z : n + zero ≡ n = omega arith in let s' = rw z at s in ground arith
  delivered_of_success n (suc left) (suc k) le s =
      let z : n + suc k ≡ n + 1 + k = omega arith in
      let ih = delivered_of_success (n + 1) left k (omega arith) (rw z at s) in ground arith

  success_of_delivered :
      (n left : ℕ)
      → (attempt_loop base h e n left).0 ≡ delivered
      → (k : ℕ) × (k ≤ left) × (h.respond e (n + k) ≡ none)
  unfolding attempt_loop
  success_of_delivered n zero d = elim (Option-cases (h.respond e n)) [
    | inl s ↦ let z : n + zero ≡ n = omega arith in (zero, omega arith, rw z s)
    | inr (x, s) ↦ absurd (ground arith)
  ]
  success_of_delivered n (suc left) d = elim (Option-cases (h.respond e n)) [
    | inl s ↦ let z : n + zero ≡ n = omega arith in (zero, omega arith, rw z s)
    | inr (x, s) ↦
        let (k, le, s') = success_of_delivered (n + 1) left (ground arith) in
        let z : n + suc k ≡ n + 1 + k = omega arith in (suc k, omega arith, rw z s')
  ]

  -- A handler that never succeeds is given up after all attempts, with the error of the last one.
  pub gave_up_of_failures :
      (n left : ℕ) (err : ℕ → String)
      → ((k : ℕ) → k ≤ left → h.respond e (n + k) ≡ some (err k))
      → (attempt_loop base h e n left).0 ≡ gave_up (err left)
  unfolding attempt_loop
  gave_up_of_failures n zero err f =
      let z : n + zero ≡ n = omega arith in let s = rw z at (f zero (omega arith)) in ground arith
  gave_up_of_failures n (suc left) err f =
      let z : n + zero ≡ n = omega arith in
      let s = rw z at (f zero (omega arith)) in
      let ih =
        gave_up_of_failures (n + 1) left (λ k. err (suc k))
          (λ k le.
            let y : n + suc k ≡ n + 1 + k = omega arith in rw y at (f (suc k) (omega arith))) in
      ground arith

  -- The delays double from attempt to attempt.
  pub delays_bounded :
      (n left : ℕ)
      → 0 < n
      → sum (attempt_loop base h e n left).1 + base * 2 ^ (n - 1) ≤ base * 2 ^ (n - 1 + left)
  unfolding attempt_loop
  delays_bounded n zero pos = ground arith
  delays_bounded n (suc left) pos =
      let z : n + 1 - 1 ≡ suc (n - 1) = omega arith in
      let doubled : base * 2 ^ (n + 1 - 1) ≡ base * (2 ^ (n - 1) * 2) =
        ap (λ k. base * 2 ^ k) z ∙ ap (λ k. base * k) (pow-suc 2 (n - 1)) in
      let y : n - 1 + suc left ≡ n + 1 - 1 + left = omega arith in
      let ih = delays_bounded (n + 1) left (omega arith) in
      rw y (elim (Option-cases (h.respond e n)) [
        | inl s ↦ rw (s, attempt_loop) (omega arith)
        | inr (x, s) ↦ rw (s, attempt_loop) (omega arith)
      ])

  -- A delivery with the handler's `left` retries succeeds exactly when one of its `left + 1`
  -- attempts does. Whether it does or not, the delays that it sleeps for and one more `base` come
  -- to at most `base * 2 ^ left`.
  pub delivery_lem :
      (left : ℕ)
      → (((attempt_loop base h e 1 left).0 ≡ delivered)
          ↔ ((k : ℕ) × (k ≤ left) × (h.respond e (1 + k) ≡ none)))
        × (sum (attempt_loop base h e 1 left).1 + base ≤ base * 2 ^ left)
  delivery_lem left = (
    (success_of_delivered 1 left, λ (k, le, s). delivered_of_success 1 left k le s),
    let one : base * 2 ^ (1 - 1) ≡ base = omega arith in
        let y : 1 - 1 + left ≡ left = omega arith in
        omega (arith, delays_bounded 1 left (omega arith), one, ap (λ k. base * 2 ^ k) y),
  )
