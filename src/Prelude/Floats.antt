-- ===== src/Prelude/Floats.antt =====
-- The floats of the program: a type with the operations that the code uses, as a parameter, and the
-- laws of `<=` that some theorems assume. A literal is a number of powers of ten.
pub mod Thousandths
use Prim.Native.Nat.{ℕ, zero, suc}
use mathlib.Core.Path.{◌≡◌, refl}
use mathlib.Core.Bool.{Bool, true, false, not, ◌&&◌}
use mathlib.Core.Logic.{inl, inr}
use mathlib.Core.List.{List, [], ◌∷◌, map}
use native.Mathlib.Omega.{arith}
use quant_stack.Prelude.Tests.{if◌then◌else◌, Bool-cases}
use quant_stack.Prelude.Int.{ℤ, pos, negsuc}

pub record Floats (F : Type 0) : Type 0 where
  pub add : F → F → F
  pub sub : F → F → F
  pub mul : F → F → F
  pub div : F → F → F
  pub log : F → F
  pub tanh : F → F
  pub sqrt : F → F
  pub fmean : List F → F
  pub pstdev : List F → F
  pub pvariance : List F → F
  -- `round(x, digits)`
  pub round : ℕ → F → F
  -- `int(x)`
  pub trunc : F → ℤ
  -- `x <= y`
  pub le : F → F → Bool
  -- The literal a * 10 ^ -b.
  pub lit : ℤ → ℕ → F

-- `<=` is a total order on the floats that occur: there is no NaN among them.
pub record IsOrdered {F : Type 0} (fl : Floats F) : Type 0 where
  pub total : (x y : F) → fl.le x y ≡ false → fl.le y x ≡ true
  pub trans : (x y z : F) → fl.le x y ≡ true → fl.le y z ≡ true → fl.le x z ≡ true
  pub reflexive : (x : F) → fl.le x x ≡ true

module _ {F : Type 0} (fl : Floats F) where
  -- `x > y` and `x < y`, where neither is NaN.
  abbrev pub gt : F → F → Bool
  gt x y = not (fl.le x y)

  abbrev pub lt : F → F → Bool
  lt x y = not (fl.le y x)

  -- `x == y`
  abbrev pub eq : F → F → Bool
  eq x y = fl.le x y && fl.le y x

  -- Python's `max` and `min` of two.
  abbrev pub max_of : F → F → F
  max_of a b = if fl.le b a then a else b

  abbrev pub min_of : F → F → F
  min_of a b = if fl.le a b then a else b

  abbrev pub num : ℕ → F
  num n = fl.lit (pos n) 0

  abbrev pub minus : F → F
  minus x = fl.sub (num 0) x

  abbrev pub abs_of : F → F
  abs_of x = if fl.le (num 0) x then x else minus x

  -- `max(low, min(high, x))`
  abbrev pub between : F → F → F → F
  between low high x = max_of low (min_of high x)

  abbrev pub sum_from : F → List F → F
  sum_from acc [] = acc
  sum_from acc (x ∷ xs) = sum_from (fl.add acc x) xs

  -- `sum(xs)`
  abbrev pub sum_of : List F → F
  sum_of xs = sum_from (num 0) xs

  -- `max` and `min` of a first value and others.
  abbrev pub max_from : F → List F → F
  max_from x [] = x
  max_from x (y ∷ ys) = max_from (max_of x y) ys

  abbrev pub min_from : F → List F → F
  min_from x [] = x
  min_from x (y ∷ ys) = min_from (min_of x y) ys

module _ {F : Type 0} (fl : Floats F) (o : IsOrdered fl) where
  pub le_max : (a b : F) → fl.le a (max_of fl a b) ≡ true
  le_max a b = elim (Bool-cases (fl.le b a)) [
    | inl p ↦ ground (arith, p, o.reflexive a)
    | inr p ↦ ground (arith, p, o.total b a p)
  ]

  pub min_le : (a b : F) → fl.le (min_of fl a b) a ≡ true
  min_le a b = elim (Bool-cases (fl.le a b)) [
    | inl p ↦ ground (arith, p, o.reflexive a)
    | inr p ↦ ground (arith, p, o.total a b p)
  ]

  pub max_le : (a b c : F) → fl.le a c ≡ true → fl.le b c ≡ true → fl.le (max_of fl a b) c ≡ true
  max_le a b c p q = ground (arith, p, q)

  -- A clamped value is within its bounds.
  pub between-within :
      (low high x : F)
      → fl.le low high ≡ true
      → (fl.le low (between fl low high x) ≡ true) × (fl.le (between fl low high x) high ≡ true)
  between-within low high x h =
      (le_max low (min_of fl high x), max_le low (min_of fl high x) high h (min_le high x))
