-- ===== src/Phy/Sig/Frame48.antt =====
-- sig.rs: the CRC-4, the tail, and the frame of 48 bits that both fields share.
use s2g.Base.{
  ℕ, ◌+◌, ◌%◌, ◌≡◌, refl, List, [], ◌∷◌, ◌++◌, Bool, true, Option, none, some, if◌then◌else◌, not,
  ◌&&◌, ◌==◌, length, take, drop, slice, bytes_eq, bytes_eq_refl, take-append, drop-append,
  drop-drop, arith, ap, ◌∙◌,
}

-- A reason is the source's text for it; `reserved` also has the duration that the fields still give.
pub data Reserved : Type 0 where
  nonzero_tail sig_b0_zero sig_a2_b12_zero sig_a1_b2_zero sig_a2_b1_zero coding_reserved : Reserved
  stbc_with_odd_n_sts b18_must_be_1 not_in_table zero_length no_streams : Reserved

pub data SigError : Type 0 where
  crc_failed : SigError
  reserved_field : Reserved → Option ℕ → SigError

pub data SigResult {ℓ} (A : Type ℓ) : Type ℓ where
  valid : A → SigResult A
  invalid : SigError → SigResult A

-- `a ^ b` on two bits
abbrev pub xor_bit : ℕ → ℕ → ℕ
xor_bit a b = (a + b) % 2

pub record Crc4 : Type 0 where
  pub c3 : ℕ
  pub c2 : ℕ
  pub c1 : ℕ
  pub c0 : ℕ

abbrev pub crc4_init : Crc4
crc4_init = record { c3 = 1; c2 = 1; c1 = 1; c0 = 1 }

-- One round of the loop.
unfoldable pub crc4_step : ℕ → Crc4 → Crc4
crc4_step b r =
    let fb = xor_bit (b % 2) r.c3 in record { c3 = r.c2; c2 = r.c1; c1 = xor_bit r.c0 fb; c0 = fb }

unfoldable pub crc4_loop : List ℕ → Crc4 → Crc4
crc4_loop [] r = r
crc4_loop (b ∷ bits) r = crc4_loop bits (crc4_step b r)

-- The complemented register, the high bit first.
unfoldable pub crc4_out : Crc4 → List ℕ
crc4_out r = xor_bit 1 r.c3 ∷ xor_bit 1 r.c2 ∷ xor_bit 1 r.c1 ∷ xor_bit 1 r.c0 ∷ []

unfoldable pub crc4 : List ℕ → List ℕ
crc4 bits = crc4_out (crc4_loop bits crc4_init)

abbrev pub tail_bits : List ℕ
tail_bits = 0 ∷ 0 ∷ 0 ∷ 0 ∷ 0 ∷ 0 ∷ []

unfoldable pub finish_48 : List ℕ → List ℕ
finish_48 v = v ++ (crc4 v ++ tail_bits)

unfoldable pub all_zero : List ℕ → Bool
all_zero [] = true
all_zero (b ∷ bits) = b == 0 && all_zero bits

-- The error of `check_48`, if there is one.
unfoldable pub check_48 : List ℕ → Option SigError
check_48 bits =
    if not (all_zero (slice bits 42 48))
    then some (reserved_field nonzero_tail none)
    else if not (bytes_eq (slice bits 38 42) (crc4 (take 38 bits)))
    then some crc_failed
    else none

pub length-crc4 : (bits : List ℕ) → length (crc4 bits) ≡ 4
unfolding crc4 crc4_out
length-crc4 bits = refl

-- 38 bits, four CRC bits and the tail are found where they were put.
module _ (v c : List ℕ) (n : length v ≡ 38) (m : length c ≡ 4) where
  pub payload_of_frame : take 38 (v ++ (c ++ tail_bits)) ≡ v
  payload_of_frame = take-append 38 v (c ++ tail_bits) n

  pub crc_of_frame : slice (v ++ (c ++ tail_bits)) 38 42 ≡ c
  crc_of_frame = ap (take 4) (drop-append 38 v (c ++ tail_bits) n) ∙ take-append 4 c tail_bits m

  pub tail_of_frame : slice (v ++ (c ++ tail_bits)) 42 48 ≡ tail_bits
  tail_of_frame = ap (take 6) (
      drop-drop 42 4 38 (v ++ (c ++ tail_bits)) refl
      ∙ (ap (drop 4) (drop-append 38 v (c ++ tail_bits) n) ∙ drop-append 4 c tail_bits m))

  -- The check of such a frame is the comparison of its CRC with the one of its bits.
  pub check_frame48 :
      check_48 (v ++ (c ++ tail_bits))
      ≡ (if not (bytes_eq c (crc4 v)) then some crc_failed else none)
  unfolding check_48 all_zero
  check_frame48 = ground (arith, payload_of_frame, crc_of_frame, tail_of_frame)

-- What `finish_48` makes of 38 bits passes the check.
pub check-finish_48 : (v : List ℕ) → length v ≡ 38 → check_48 (finish_48 v) ≡ none
unfolding finish_48
check-finish_48 v n =
    ground (arith, check_frame48 v (crc4 v) n (length-crc4 v), bytes_eq_refl (crc4 v))
