-- ===== src/Phy/Scrambler.antt =====
-- crates/s2g-phy/src/scrambler.rs: the frame-synchronous scrambler. A bit is a number 0 or 1, and `^`
-- on bits is the sum modulo 2.
pub mod Laws
mod Tests
use s2g.Base.{ℕ, zero, suc, ◌+◌, ◌-◌, ◌*◌, ◌/◌, ◌%◌, min, List, [], ◌∷◌, ◌++◌, length, take, get_or}
use s2g.Phy.Bits.{uint_bits, bits_to_uint_lsb_first}

-- The bits from the seventh on.
unfoldable pub extend : ℕ → List ℕ → List ℕ
extend zero s = s
extend (suc n) s = extend n (s ++ (get_or s (length s - 4) 0 + get_or s (length s - 7) 0) % 2 ∷ [])

unfoldable pub sequence : ℕ → ℕ → List ℕ
sequence seed len = take len (extend (len - 7) (uint_bits seed (min 7 len)))

-- The sequence is as long as the bits, so the end of the shorter list is that of both.
unfoldable pub xor_bits : List ℕ → List ℕ → List ℕ
xor_bits [] seq = []
xor_bits (b ∷ bits) [] = b ∷ bits
xor_bits (b ∷ bits) (s ∷ seq) = (b + s) % 2 ∷ xor_bits bits seq

unfoldable pub scramble_in_place : ℕ → List ℕ → List ℕ
scramble_in_place seed bits = xor_bits bits (sequence seed (length bits))

unfoldable pub recover_seed : List ℕ → ℕ
recover_seed first7 = bits_to_uint_lsb_first (take 7 first7)
