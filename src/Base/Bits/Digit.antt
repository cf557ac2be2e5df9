-- ===== src/Base/Bits/Digit.antt =====
-- One binary digit of a number.
use Prim.Native.Nat.{ℕ, zero, suc, ◌*◌, ◌/◌, ◌%◌, ◌^◌, ◌≤◌, max, bit_and, bit_or}
use mathlib.Core.Path.{◌≡◌}
use native.Mathlib.Omega.{arith}
use s2g.Base.Tests.{◌==◌, if◌then◌else◌}
use s2g.Base.Bits.Step.{bit_and_step, bit_or_step}
use s2g.Base.Bits.Fields.{bit_and_mask}

pub bit_at : ℕ → ℕ → ℕ
bit_at x zero = x % 2
bit_at x (suc e) = bit_at (x / 2) e

pub bit_at-le : (x e : ℕ) → bit_at x e ≤ 1
unfolding bit_at
bit_at-le x zero = omega arith
bit_at-le x (suc e) = bit_at-le (x / 2) e

pub bit_at-zero : (e : ℕ) → bit_at 0 e ≡ 0
unfolding bit_at
bit_at-zero zero = omega arith
bit_at-zero (suc e) = rw (half_zero) (bit_at-zero e)
  where
    half_zero : 0 / 2 ≡ 0
    half_zero = omega arith

double_half : (e : ℕ) → (2 ^ suc e / 2 ≡ 2 ^ e) × (2 ^ suc e % 2 ≡ 0) × (2 ^ suc e ≡ 2 * 2 ^ e)
double_half e = (omega arith, omega arith, omega arith)

-- A conjunction with a power of two reads a digit.
pub bit_and-pow : (e x : ℕ) → bit_and x (2 ^ e) ≡ bit_at x e * 2 ^ e
unfolding bit_at
bit_and-pow zero x = ground (arith, bit_and_mask 1 x)
bit_and-pow (suc e) x =
    let (h, z, d) = double_half e in
    grind (arith, bit_and_step x (2 ^ suc e), bit_and-pow e (x / 2))

pub bit_at-bit_or : (e a b : ℕ) → bit_at (bit_or a b) e ≡ max (bit_at a e) (bit_at b e)
unfolding bit_at
bit_at-bit_or zero a b = ground (arith, bit_or_step a b)
bit_at-bit_or (suc e) a b =
    let half : bit_or a b / 2 ≡ bit_or (a / 2) (b / 2) = omega (arith, bit_or_step a b) in
    rw half (bit_at-bit_or e (a / 2) (b / 2))

pub bit_at-pow : (d e : ℕ) → bit_at (2 ^ d) e ≡ (if d == e then 1 else 0)
unfolding bit_at
bit_at-pow zero zero = ground arith
bit_at-pow zero (suc e) = ground (arith, bit_at-zero e)
bit_at-pow (suc d) zero = ground (arith, double_half d)
bit_at-pow (suc d) (suc e) = let (h, z, x) = double_half d in rw h (ground (arith, bit_at-pow d e))
