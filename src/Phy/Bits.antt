-- ===== src/Phy/Bits.antt =====
-- crates/s2g-phy/src/bits.rs: bits as numbers 0 and 1, the low bit first. Bits that are or-ed at
-- different places never meet, so they are added here.
pub mod RoundTrip
mod Tests
use s2g.Base.{ℕ, zero, suc, ◌+◌, ◌*◌, ◌/◌, ◌%◌, List, [], ◌∷◌, ◌++◌, length, take, drop}

-- The bits that `push_uint_lsb_first(out, value, n)` pushes.
unfoldable pub uint_bits : ℕ → ℕ → List ℕ
uint_bits value zero = []
uint_bits value (suc n) = value % 2 ∷ uint_bits (value / 2) n

unfoldable pub bits_to_uint_lsb_first : List ℕ → ℕ
bits_to_uint_lsb_first [] = 0
bits_to_uint_lsb_first (b ∷ bits) = b % 2 + 2 * bits_to_uint_lsb_first bits

unfoldable pub bytes_to_bits : List ℕ → List ℕ
bytes_to_bits [] = []
bytes_to_bits (b ∷ bytes) = uint_bits b 8 ++ bytes_to_bits bytes

-- The loop over the chunks of eight bits; a last short chunk is padded, as the fold does.
unfoldable pub pack_chunks : ℕ → List ℕ → List ℕ
pack_chunks zero bits = []
pack_chunks (suc n) [] = []
pack_chunks (suc n) (b ∷ bits) =
    bits_to_uint_lsb_first (take 8 (b ∷ bits)) ∷ pack_chunks n (drop 8 (b ∷ bits))

unfoldable pub bits_to_bytes : List ℕ → List ℕ
bits_to_bytes bits = pack_chunks (length bits) bits
