-- ===== src/Prelude/Deque.antt =====
-- A bounded deque (`deque(maxlen=cap)`) seen through its newest elements, `list(d)[-n:]` reversed.
use Prim.Native.Nat.{ℕ, zero, suc, ◌+◌, ◌-◌, ◌≤◌}
use mathlib.Core.Path.{◌≡◌, refl, ap, ◌∙◌}
use mathlib.Core.List.{List, [], ◌∷◌, ◌++◌, reverse, reverse-append}
use native.Mathlib.Omega.{arith}
use quant_stack.Prelude.Lists.{
  length, drop, last_slice, deque_append, length-append, length-drop, drop-append_le,
}

module _ {ℓ} {A : Type ℓ} where
  drop-nil : (n : ℕ) → ◌≡◌ {A = List A} (drop n []) []
  drop-nil zero = refl
  drop-nil (suc n) = refl

  drop-drop : (m n : ℕ) (xs : List A) → drop m (drop n xs) ≡ drop (n + m) xs
  drop-drop m zero xs = let e : m ≡ zero + m = omega arith in ap (λ k. drop k xs) e
  drop-drop m (suc n) [] = simp drop-nil
  drop-drop m (suc n) (x ∷ xs) =
      let e : suc (n + m) ≡ suc n + m = omega arith in
      drop-drop m n xs ∙ ap (λ k. drop k (x ∷ xs)) e

  -- What a bounded deque shows of its newest `n` elements, within its capacity, is what an unbounded
  -- list would show.
  pub last_slice-deque_append :
      (cap n : ℕ) (x : A) (xs : List A)
      → suc n ≤ cap
      → last_slice (suc n) (deque_append cap x xs) ≡ last_slice (suc n) (xs ++ x ∷ [])
  unfolding deque_append
  last_slice-deque_append cap n x xs h =
      let ys = xs ++ x ∷ [] in
      let k = length ys - cap in
      let e : k + (length (drop k ys) - suc n) ≡ length ys - suc n =
        omega (arith, length-drop k ys) in
      drop-drop (length (drop k ys) - suc n) k ys ∙ ap (λ i. drop i ys) e

  pub last_slice-snoc :
      (n : ℕ) (x : A) (xs : List A)
      → last_slice (suc (suc n)) (xs ++ x ∷ []) ≡ last_slice (suc n) xs ++ x ∷ []
  last_slice-snoc n x xs =
      let e : length (xs ++ x ∷ []) - suc (suc n) ≡ length xs - suc n =
        omega (arith, length-append xs (x ∷ [])) in
      ap (λ i. drop i (xs ++ x ∷ [])) e
      ∙ drop-append_le (length xs - suc n) xs (x ∷ []) (omega arith)

  -- The newest first: an element that is appended comes before those that were there.
  pub newest-deque_append :
      (cap n : ℕ) (x : A) (xs : List A)
      → suc (suc n) ≤ cap
      → reverse (last_slice (suc (suc n)) (deque_append cap x xs))
        ≡ x ∷ reverse (last_slice (suc n) xs)
  newest-deque_append cap n x xs h =
      ap reverse (last_slice-deque_append cap (suc n) x xs h ∙ last_slice-snoc n x xs)
      ∙ reverse-append (last_slice (suc n) xs) (x ∷ [])
