-- ===== src/Mac/Fcs.antt =====
-- crates/s2g-mac/src/fcs.rs: the frame check sequence, a CRC-32 over the frame. A u32 is a number
-- below 2 ^ 32, and a slice of bytes is a list of numbers.
pub mod Words
pub mod Detect
mod Tests
use s2g.Base.{
  ℕ, zero, suc, ◌-◌, ◌/◌, ◌%◌, ◌^◌, bit_and, bit_xor, List, [], ◌∷◌, ◌++◌, Option, none, some,
  length, take, drop, ltb, if◌then◌else◌, bytes_eq, le32,
}

-- One round of the inner loop: `mask = (crc & 1).wrapping_neg()` on a u32.
pub crc_round : ℕ → ℕ
crc_round crc =
    let mask = (2 ^ 32 - bit_and crc 1) % 2 ^ 32 in bit_xor (crc / 2) (bit_and 0xEDB88320 mask)

pub crc_rounds : ℕ → ℕ → ℕ
unfolding crc_round
crc_rounds zero crc = crc
crc_rounds (suc n) crc = crc_rounds n (crc_round crc)

-- One byte of the outer loop.
pub crc_byte : ℕ → ℕ → ℕ
unfolding crc_rounds
crc_byte crc b = crc_rounds 8 (bit_xor crc b)

pub crc_loop : ℕ → List ℕ → ℕ
unfolding crc_byte
crc_loop crc [] = crc
crc_loop crc (b ∷ bs) = crc_loop (crc_byte crc b) bs

-- `!crc` on a u32 is the distance to the largest one.
unfoldable pub crc32 : List ℕ → ℕ
unfolding crc_loop
crc32 bs = 2 ^ 32 - 1 - crc_loop 0xFFFFFFFF bs

unfoldable pub append : List ℕ → List ℕ
append frame = frame ++ le32 (crc32 frame)

unfoldable pub check_and_strip : List ℕ → Option (List ℕ)
check_and_strip frame =
    if ltb (length frame) 4
    then none
    else (let n = length frame - 4 in
        let body = take n frame in
        let fcs = drop n frame in if bytes_eq (le32 (crc32 body)) fcs then some body else none)
