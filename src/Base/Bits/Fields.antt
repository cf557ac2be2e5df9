-- ===== src/Base/Bits/Fields.antt =====
-- A word as a high and a low field: the operations act on each field by itself. A mask of k low
-- bits is the remainder by 2 ^ k.
use Prim.Native.Nat.{
  ℕ, zero, suc, ◌+◌, ◌-◌, ◌*◌, ◌/◌, ◌%◌, ◌^◌, ◌≤◌, ◌<◌, min, max, bit_and, bit_or, bit_xor,
}
use mathlib.Core.Path.{◌≡◌, refl, ap}
use native.Mathlib.Nat.{pow-suc, one-le-pow}
use native.Mathlib.Omega.{arith}
use s2g.Base.Bits.Step.{bit_and_step, bit_or_step, bit_xor_step}

double_field : (q k r : ℕ) → q * 2 ^ suc k + r ≡ 2 * (q * 2 ^ k) + r
double_field q k r = omega (arith, ap (λ (t : ℕ). q * t) (pow-suc 2 k))

half_field : (q k r : ℕ) → (q * 2 ^ suc k + r) / 2 ≡ q * 2 ^ k + r / 2
half_field q k r = omega (arith, double_field q k r)

-- An operation by digits, with its equation for the lowest one.
module _ (op d : ℕ → ℕ → ℕ) (step : (a b : ℕ) → op a b ≡ op (a / 2) (b / 2) * 2 + d (a % 2) (b % 2))
    (zeros : op 0 0 ≡ 0) where
  fields :
      (k q r q' r' : ℕ)
      → r < 2 ^ k
      → r' < 2 ^ k
      → op (q * 2 ^ k + r) (q' * 2 ^ k + r') ≡ op q q' * 2 ^ k + op r r'
  fields zero q zero q' zero h h' = ground (arith, zeros)
  fields zero q (suc r) q' r' h h' = absurd (omega arith)
  fields zero q zero q' (suc r') h h' = absurd (omega arith)
  fields (suc k) q r q' r' h h' = ground (
    arith,
    step (q * 2 ^ suc k + r) (q' * 2 ^ suc k + r'),
    step r r',
    half_field q k r,
    half_field q' k r',
    double_field q k r,
    double_field q' k r',
    double_field (op q q') k (op r r'),
    fields k q (r / 2) q' (r' / 2) (omega (arith, pow-suc 2 k)) (omega (arith, pow-suc 2 k)),
  )

  bound :
      ((x y : ℕ) → x < 2 → y < 2 → d x y < 2) → (k a b : ℕ) → a < 2 ^ k → b < 2 ^ k → op a b < 2 ^ k
  bound small zero zero zero h h' = omega (arith, zeros)
  bound small zero (suc a) b h h' = absurd (omega arith)
  bound small zero zero (suc b) h h' = absurd (omega arith)
  bound small (suc k) a b h h' = omega (
    arith,
    step a b,
    pow-suc 2 k,
    small (a % 2) (b % 2) (omega arith) (omega arith),
    bound small k (a / 2) (b / 2) (omega (arith, pow-suc 2 k)) (omega (arith, pow-suc 2 k)),
  )

module _ (k q r q' r' : ℕ) (h : r < 2 ^ k) (h' : r' < 2 ^ k) where
  pub bit_and_fields :
      bit_and (q * 2 ^ k + r) (q' * 2 ^ k + r') ≡ bit_and q q' * 2 ^ k + bit_and r r'
  bit_and_fields = fields bit_and min bit_and_step refl k q r q' r' h h'

  pub bit_or_fields : bit_or (q * 2 ^ k + r) (q' * 2 ^ k + r') ≡ bit_or q q' * 2 ^ k + bit_or r r'
  bit_or_fields = fields bit_or max bit_or_step refl k q r q' r' h h'

  pub bit_xor_fields :
      bit_xor (q * 2 ^ k + r) (q' * 2 ^ k + r') ≡ bit_xor q q' * 2 ^ k + bit_xor r r'
  bit_xor_fields = fields bit_xor (λ x y. (x + y) % 2) bit_xor_step refl k q r q' r' h h'

pub bit_and-lt : (k a b : ℕ) → a < 2 ^ k → b < 2 ^ k → bit_and a b < 2 ^ k
bit_and-lt = bound bit_and min bit_and_step refl (λ x y h h'. omega arith)

pub bit_or-lt : (k a b : ℕ) → a < 2 ^ k → b < 2 ^ k → bit_or a b < 2 ^ k
bit_or-lt = bound bit_or max bit_or_step refl (λ x y h h'. omega arith)

pub bit_xor-lt : (k a b : ℕ) → a < 2 ^ k → b < 2 ^ k → bit_xor a b < 2 ^ k
bit_xor-lt = bound bit_xor (λ x y. (x + y) % 2) bit_xor_step refl (λ x y h h'. omega arith)

-- Zero and all ones.
zero-bit_or : (n a : ℕ) → a ≤ n → bit_or a 0 ≡ a
zero-bit_or zero zero h = refl
zero-bit_or zero (suc a) h = absurd (omega arith)
zero-bit_or (suc n) a h = omega (arith, bit_or_step a 0, zero-bit_or n (a / 2) (omega arith))

pub bit_or-zero : (a : ℕ) → bit_or a 0 ≡ a
bit_or-zero a = zero-bit_or a a (omega arith)

or_comm_below : (n a b : ℕ) → a ≤ n → b ≤ n → bit_or a b ≡ bit_or b a
or_comm_below zero zero zero p q = refl
or_comm_below zero (suc a) b p q = absurd (omega arith)
or_comm_below zero zero (suc b) p q = absurd (omega arith)
or_comm_below (suc n) a b p q = omega (
  arith,
  bit_or_step a b,
  bit_or_step b a,
  or_comm_below n (a / 2) (b / 2) (omega arith) (omega arith),
)

pub bit_or_comm : (a b : ℕ) → bit_or a b ≡ bit_or b a
bit_or_comm a b = or_comm_below (a + b) a b (omega arith) (omega arith)

and-zero_below : (n a : ℕ) → a ≤ n → bit_and a 0 ≡ 0
and-zero_below zero zero h = refl
and-zero_below zero (suc a) h = absurd (omega arith)
and-zero_below (suc n) a h = omega (arith, bit_and_step a 0, and-zero_below n (a / 2) (omega arith))

pub bit_and-zero : (a : ℕ) → bit_and a 0 ≡ 0
bit_and-zero a = and-zero_below a a (omega arith)

-- `a & (2 ^ k - 1)` is the remainder by 2 ^ k.
half_mask : (k : ℕ) → (2 ^ suc k - 1) / 2 ≡ 2 ^ k - 1
half_mask k = omega (arith, pow-suc 2 k, one-le-pow k 2)

mask_field : (k q r : ℕ) → r < 2 ^ k → bit_and (q * 2 ^ k + r) (2 ^ k - 1) ≡ r
mask_field zero q r h = omega (arith, bit_and-zero (q * 2 ^ 0 + r))
mask_field (suc k) q r h = ground (
  arith,
  bit_and_step (q * 2 ^ suc k + r) (2 ^ suc k - 1),
  half_field q k r,
  half_mask k,
  double_field q k r,
  pow-suc 2 k,
  one-le-pow k 2,
  mask_field k q (r / 2) (omega (arith, pow-suc 2 k)),
)

pub bit_and_mask : (k a : ℕ) → bit_and a (2 ^ k - 1) ≡ a % 2 ^ k
bit_and_mask k a = ground (arith, one-le-pow k 2, mask_field k (a / 2 ^ k) (a % 2 ^ k))

-- `(q << k) | r` is a sum where `r` has k bits.
pub bit_or_disjoint : (k q r : ℕ) → r < 2 ^ k → bit_or (q * 2 ^ k) r ≡ q * 2 ^ k + r
bit_or_disjoint k q r h =
    ground (
      arith,
      one-le-pow k 2,
      bit_or_fields k q 0 0 r,
      bit_or-zero q,
      bit_or_comm 0 r,
      bit_or-zero r,
    )
