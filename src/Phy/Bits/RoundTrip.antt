-- ===== src/Phy/Bits/RoundTrip.antt =====
-- Fields and bytes come back from their bits.
use s2g.Base.{
  ℕ, zero, suc, ◌*◌, ◌/◌, ◌^◌, ◌≤◌, ◌<◌, ◌≡◌, refl, ap, ap₂, List, [], ◌∷◌, length, length-append,
  arith, AreBytes,
}
use s2g.Phy.Bits.{uint_bits, bits_to_uint_lsb_first, bytes_to_bits, pack_chunks, bits_to_bytes}

pub length-uint_bits : (v n : ℕ) → length (uint_bits v n) ≡ n
unfolding uint_bits
length-uint_bits v zero = refl
length-uint_bits v (suc n) = ap suc (length-uint_bits (v / 2) n)

halve : (v n : ℕ) → v < 2 ^ suc n → v / 2 < 2 ^ n
halve v n h = omega arith

-- A field of `n` bits holds every value below 2 ^ n.
pub bits_to_uint-uint_bits : (v n : ℕ) → v < 2 ^ n → bits_to_uint_lsb_first (uint_bits v n) ≡ v
unfolding uint_bits bits_to_uint_lsb_first
bits_to_uint-uint_bits v zero h = omega arith
bits_to_uint-uint_bits v (suc n) h = omega (arith, bits_to_uint-uint_bits (v / 2) n (halve v n h))

pack_chunks-bytes_to_bits :
    (bytes : List ℕ) (n : ℕ)
    → length bytes ≤ n
    → AreBytes bytes
    → pack_chunks n (bytes_to_bits bytes) ≡ bytes
unfolding bytes_to_bits pack_chunks uint_bits
pack_chunks-bytes_to_bits [] zero h ok = refl
pack_chunks-bytes_to_bits [] (suc n) h ok = refl
pack_chunks-bytes_to_bits (b ∷ bytes) zero h ok = absurd (omega arith)
pack_chunks-bytes_to_bits (b ∷ bytes) (suc n) h ok =
    ap₂ (◌∷◌) (bits_to_uint-uint_bits b 8 ok.0)
      (pack_chunks-bytes_to_bits bytes n (omega arith) ok.1)

length-bytes_to_bits : (bytes : List ℕ) → length (bytes_to_bits bytes) ≡ 8 * length bytes
unfolding bytes_to_bits
length-bytes_to_bits [] = refl
length-bytes_to_bits (b ∷ bytes) = omega (
  arith,
  length-append (uint_bits b 8) (bytes_to_bits bytes),
  length-uint_bits b 8,
  length-bytes_to_bits bytes,
)

-- Every list of bytes comes back from its bits.
pub bits_to_bytes-bytes_to_bits :
    (bytes : List ℕ) → AreBytes bytes → bits_to_bytes (bytes_to_bits bytes) ≡ bytes
unfolding bits_to_bytes
bits_to_bytes-bytes_to_bits bytes ok =
    pack_chunks-bytes_to_bits bytes (length (bytes_to_bits bytes))
      (omega (arith, length-bytes_to_bits bytes)) ok
