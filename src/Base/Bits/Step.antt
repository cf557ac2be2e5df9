-- ===== src/Base/Bits/Step.antt =====
-- One equation for the lowest digit of `&`, `|` and `^`. The native operations recur on digits with
-- the first word as their count of rounds; here rounds past its last digit are shown to be idle.
use Prim.Native.Nat.{
  ℕ, zero, suc, ◌+◌, ◌-◌, ◌*◌, ◌/◌, ◌%◌, ◌≤◌, ◌<◌, min, max, bit_and, bit_or, bit_xor, differ,
  digits, bit_and-bitwise, bit_or-bitwise, bit_xor-bitwise,
}
use mathlib.Core.Path.{◌≡◌, refl, sym, ap, ◌∙◌}
use native.Mathlib.Omega.{arith}

-- `tail` is what is left of the second word, `op` the operation on two digits.
module _ (tail : ℕ → ℕ) (op : ℕ → ℕ → ℕ) where
  idle_round :
      (rounds x y : ℕ) → x ≤ rounds → digits tail op (suc rounds) x y ≡ digits tail op rounds x y
  idle_round zero zero y h = refl
  idle_round zero (suc x) y h = absurd (omega arith)
  idle_round (suc rounds) zero y h = refl
  idle_round (suc rounds) (suc x) y h =
      ap (λ (high : ℕ). high * 2 + op (suc x % 2) (y % 2))
        (idle_round rounds (suc x / 2) (y / 2) (omega arith))

  idle_rounds : (more x y : ℕ) → digits tail op (more + x) x y ≡ digits tail op x x y
  idle_rounds zero x y = ap (λ (r : ℕ). digits tail op r x y) (start x)
    where
      start : (x : ℕ) → 0 + x ≡ x
      start x = omega arith
  idle_rounds (suc more) x y =
      ap (λ (r : ℕ). digits tail op r x y) (next more x)
      ∙ idle_round (more + x) x y (omega arith)
      ∙ idle_rounds more x y
    where
      next : (more x : ℕ) → suc more + x ≡ suc (more + x)
      next more x = omega arith

  -- The digits of a word that is not zero: the lowest apart, the others of the halves.
  lowest_digit :
      (x y : ℕ)
      → digits tail op (suc x) (suc x) y
        ≡ digits tail op (suc x / 2) (suc x / 2) (y / 2) * 2 + op (suc x % 2) (y % 2)
  lowest_digit x y =
      let half : ℕ = suc x / 2 in
      let rounds : x - half + half ≡ x = omega arith in
      ap (λ (high : ℕ). high * 2 + op (suc x % 2) (y % 2))
        (ap (λ (r : ℕ). digits tail op r half (y / 2)) (sym rounds)
          ∙ idle_rounds (x - half) half (y / 2))

pub bit_and_step : (a b : ℕ) → bit_and a b ≡ bit_and (a / 2) (b / 2) * 2 + min (a % 2) (b % 2)
bit_and_step zero b = rw (bit_and-bitwise 0 b, bit_and-bitwise 0 (b / 2)) (omega arith)
bit_and_step (suc a) b =
    rw (bit_and-bitwise (suc a) b, bit_and-bitwise (suc a / 2) (b / 2))
      (lowest_digit (λ y. 0) min a b)

pub bit_or_step : (a b : ℕ) → bit_or a b ≡ bit_or (a / 2) (b / 2) * 2 + max (a % 2) (b % 2)
bit_or_step zero b = rw (bit_or-bitwise 0 b, bit_or-bitwise 0 (b / 2)) (omega arith)
bit_or_step (suc a) b =
    rw (bit_or-bitwise (suc a) b, bit_or-bitwise (suc a / 2) (b / 2))
      (lowest_digit (λ y. y) max a b)

-- On two digits `differ` is the sum modulo 2.
differ_digits : (a b : ℕ) → a < 2 → b < 2 → differ a b ≡ (a + b) % 2
differ_digits zero zero p q = refl
differ_digits zero (suc b) p q = omega arith
differ_digits (suc a) zero p q = omega arith
differ_digits (suc zero) (suc zero) p q = refl
differ_digits (suc (suc a)) (suc b) p q = absurd (omega arith)
differ_digits (suc zero) (suc (suc b)) p q = absurd (omega arith)

pub bit_xor_step : (a b : ℕ) → bit_xor a b ≡ bit_xor (a / 2) (b / 2) * 2 + (a % 2 + b % 2) % 2
bit_xor_step zero b = rw (bit_xor-bitwise 0 b, bit_xor-bitwise 0 (b / 2)) (omega arith)
bit_xor_step (suc a) b =
    rw (bit_xor-bitwise (suc a) b, bit_xor-bitwise (suc a / 2) (b / 2))
      (omega (
        arith,
        lowest_digit (λ y. y) differ a b,
        differ_digits (suc a % 2) (b % 2) (omega arith) (omega arith),
      ))
