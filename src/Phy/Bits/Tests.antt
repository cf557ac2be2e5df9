-- ===== src/Phy/Bits/Tests.antt =====
-- Runs of bits.rs, and its theorems at concrete values.
use s2g.Base.{◌≡◌, refl, [], ◌∷◌, arith}
use s2g.Phy.Bits.{uint_bits, bits_to_uint_lsb_first, bytes_to_bits}
use s2g.Phy.Bits.RoundTrip.{bits_to_uint-uint_bits}

low_bit_first : bytes_to_bits (1 ∷ []) ≡ 1 ∷ 0 ∷ 0 ∷ 0 ∷ 0 ∷ 0 ∷ 0 ∷ 0 ∷ []
unfolding bytes_to_bits uint_bits
low_bit_first = refl

bits_to_uint-uint_bits_example : bits_to_uint_lsb_first (uint_bits 300 9) ≡ 300
bits_to_uint-uint_bits_example = bits_to_uint-uint_bits 300 9 (omega arith)
