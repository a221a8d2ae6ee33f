-- ===== src/Prelude/Floats/Thousandths.antt =====
-- Whole numbers for the floats, which show that the laws can hold and give tests something to compute.
use Prim.Native.Nat.{ℕ, ◌+◌, ◌-◌, ◌*◌, ◌/◌, ◌^◌}
use native.Mathlib.Omega.{arith}
use quant_stack.Prelude.Tests.{leb, if◌then◌else◌}
use mathlib.Core.List.{[], ◌∷◌}
use quant_stack.Prelude.Int.{pos, negsuc}
use quant_stack.Prelude.Floats.{Floats, IsOrdered}

-- Numbers of thousandths. Only what the tests use is computed as
-- the code does: `sub` stops at 0, and `tanh` is the identity up to 1.
abbrev pub thousandths : Floats ℕ
thousandths = record {
  add = λ a b. a + b;
  sub = λ a b. a - b;
  mul = λ a b. a * b / 1000;
  div = λ a b. a * 1000 / b;
  log = λ a. a;
  tanh = λ a. if leb a 1000 then a else 1000;
  sqrt = λ a. a;
  fmean = λ xs. elim xs [ [] ↦ 0 | x ∷ ys ↦ x ];
  pstdev = λ xs. 20;
  pvariance = λ xs. 0;
  round = λ digits a. a;
  trunc = λ a. pos (a / 1000);
  le = leb;
  lit = λ a b. elim a [ pos n ↦ n * 1000 / 10 ^ b | negsuc n ↦ 0 ];
}

pub thousandths-IsOrdered : IsOrdered thousandths
thousandths-IsOrdered = record {
  total = λ x y h. ground (arith, h);
  trans = λ x y z h k. ground (arith, h, k);
  reflexive = λ x. ground arith;
}
