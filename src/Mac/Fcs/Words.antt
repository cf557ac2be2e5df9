-- ===== src/Mac/Fcs/Words.antt =====
-- The CRC register stays a u32, and one byte of input changes it injectively.
use s2g.Base.{
  ℕ, zero, suc, ◌-◌, ◌/◌, ◌%◌, ◌^◌, ◌≤◌, ◌<◌, bit_xor, ◌≡◌, refl, sym, ◌∙◌, inl, inr, ◌⊎◌, List, [],
  ◌∷◌, arith, AreBytes, le32, length,
}
use s2g.Base.Bits.{
  bit_and_mask, bit_and-zero, bit_xor-lt, bit_xor-zero, bit_xor_fields, bit_xor_cancel,
  bit_xor_comm,
}
use s2g.Mac.Fcs.{crc_round, crc_rounds, crc_byte, crc_loop, crc32}

abbrev poly : ℕ
poly = 0xEDB88320

round_even : (crc : ℕ) → crc % 2 ≡ 0 → crc_round crc ≡ crc / 2
unfolding crc_round
round_even crc h = ground (arith, bit_and_mask 1 crc, bit_and-zero poly, bit_xor-zero (crc / 2))

round_odd : (crc : ℕ) → crc % 2 ≡ 1 → crc_round crc ≡ bit_xor (crc / 2) poly
unfolding crc_round
round_odd crc h = ground (arith, bit_and_mask 1 crc)

-- A shifted word has its top bit clear, and `^ poly` sets it.
top_set : (x : ℕ) → x < 2 ^ 31 → 2 ^ 31 ≤ bit_xor x poly
top_set x h = ground (arith, bit_xor_fields 31 0 x 1 (poly - 2 ^ 31) h (omega arith))

digit_cases : (n : ℕ) → (n % 2 ≡ 0) ⊎ (n % 2 ≡ 1)
digit_cases n = omega arith

pub crc_round-lt : (crc : ℕ) → crc < 2 ^ 32 → crc_round crc < 2 ^ 32
crc_round-lt crc h = elim (digit_cases crc) [
  | inl even ↦ rw (round_even crc even) (omega arith)
  | inr odd ↦ rw (round_odd crc odd) (bit_xor-lt 32 (crc / 2) poly (omega arith) (omega arith))
]

module _ (a b : ℕ) (ha : a < 2 ^ 32) (hb : b < 2 ^ 32) (e : crc_round a ≡ crc_round b) where
  round_mixed : a % 2 ≡ 0 → b % 2 ≡ 1 → a ≡ b
  round_mixed p q =
      absurd (omega (arith, round_even a p, round_odd b q, top_set (b / 2) (omega arith)))

module _ (a b : ℕ) (ha : a < 2 ^ 32) (hb : b < 2 ^ 32) (e : crc_round a ≡ crc_round b) where
  round_injective : a ≡ b
  round_injective = elim (digit_cases a) [
    | inl p ↦ elim (digit_cases b) [
      | inl q ↦ omega (arith, round_even a p, round_even b q)
      | inr q ↦ round_mixed a b ha hb e p q
    ]
    | inr p ↦ elim (digit_cases b) [
      | inl q ↦ sym (round_mixed b a hb ha (sym e) q p)
      | inr q ↦
          omega
            (arith, bit_xor_cancel (a / 2) (b / 2) poly (sym (round_odd a p) ∙ e ∙ round_odd b q))
    ]
  ]

crc_rounds-lt : (n crc : ℕ) → crc < 2 ^ 32 → crc_rounds n crc < 2 ^ 32
unfolding crc_rounds
crc_rounds-lt zero crc h = h
crc_rounds-lt (suc n) crc h = crc_rounds-lt n (crc_round crc) (crc_round-lt crc h)

rounds_injective : (n a b : ℕ) → a < 2 ^ 32 → b < 2 ^ 32 → crc_rounds n a ≡ crc_rounds n b → a ≡ b
unfolding crc_rounds
rounds_injective zero a b ha hb e = e
rounds_injective (suc n) a b ha hb e =
    round_injective a b ha hb
      (rounds_injective n (crc_round a) (crc_round b) (crc_round-lt a ha) (crc_round-lt b hb) e)

xor_byte-lt : (crc x : ℕ) → crc < 2 ^ 32 → x < 256 → bit_xor crc x < 2 ^ 32
xor_byte-lt crc x h hx = bit_xor-lt 32 crc x h (omega arith)

pub crc_byte-lt : (crc x : ℕ) → crc < 2 ^ 32 → x < 256 → crc_byte crc x < 2 ^ 32
unfolding crc_byte
crc_byte-lt crc x h hx = crc_rounds-lt 8 (bit_xor crc x) (xor_byte-lt crc x h hx)

pub crc_loop-lt : (bs : List ℕ) (crc : ℕ) → crc < 2 ^ 32 → AreBytes bs → crc_loop crc bs < 2 ^ 32
unfolding crc_loop
crc_loop-lt [] crc h bytes = h
crc_loop-lt (b ∷ bs) crc h bytes =
    crc_loop-lt bs (crc_byte crc b) (crc_byte-lt crc b h bytes.0) bytes.1

-- Different registers stay different under the same input.
pub crc_loop_injective :
    (bs : List ℕ) (a b : ℕ)
    → a < 2 ^ 32
    → b < 2 ^ 32
    → AreBytes bs
    → crc_loop a bs ≡ crc_loop b bs
    → a ≡ b
unfolding crc_loop crc_byte
crc_loop_injective [] a b ha hb bytes e = e
crc_loop_injective (x ∷ bs) a b ha hb bytes e = bit_xor_cancel a b x (
    rounds_injective 8 (bit_xor a x) (bit_xor b x) (xor_byte-lt a x ha bytes.0)
      (xor_byte-lt b x hb bytes.0)
      (crc_loop_injective bs (crc_byte a x) (crc_byte b x) (crc_byte-lt a x ha bytes.0)
        (crc_byte-lt b x hb bytes.0) bytes.1 e))

-- Different bytes make the same register different.
pub crc_byte_injective :
    (crc x y : ℕ) → crc < 2 ^ 32 → x < 256 → y < 256 → crc_byte crc x ≡ crc_byte crc y → x ≡ y
unfolding crc_byte
crc_byte_injective crc x y h hx hy e = bit_xor_cancel x y crc (
    bit_xor_comm x crc
    ∙ rounds_injective 8 (bit_xor crc x) (bit_xor crc y) (xor_byte-lt crc x h hx)
        (xor_byte-lt crc y h hy) e
    ∙ bit_xor_comm crc y)

-- The CRC of bytes is a u32.
pub crc32-lt : (bs : List ℕ) → crc32 bs < 2 ^ 32
unfolding crc32
crc32-lt bs = omega arith

pub length-le32 : (v : ℕ) → length (le32 v) ≡ 4
length-le32 v = refl
