-- ===== src/Base/Thousandths.antt =====
-- A floating-point arithmetic of thousandths, on which the tests run.
use s2g.Base.Tests.{ltb, leb}
use s2g.Base.Floats.{Arith, Floats}
use Prim.Native.Nat.{ℕ, ◌+◌, ◌-◌, ◌*◌, ◌/◌, max}
use mathlib.Core.Bool.{true}

-- Numbers of thousandths, from 0 up.
abbrev pub milli : Arith ℕ
milli = record {
  of_nat = λ n. n * 1000;
  ratio = λ n d. n * 1000 / d;
  add = λ a b. a + b;
  sub = λ a b. a - b;
  mul = λ a b. a * b / 1000;
  div = λ a b. a * 1000 / b;
  larger = λ a b. max a b;
  lt = ltb;
  le = leb;
  is_finite = λ a. true;
  ceil = λ a. (a + 999) / 1000 * 1000;
  round = λ a. (a + 500) / 1000 * 1000;
  to_nat = λ a. a / 1000;
}

abbrev pub thousandths : Floats
thousandths = record { F32 = ℕ; F64 = ℕ; single = milli; double = milli; narrow = λ a. a }
