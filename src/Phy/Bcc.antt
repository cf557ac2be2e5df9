-- ===== src/Phy/Bcc.antt =====
-- crates/s2g-phy/src/bcc.rs: the convolutional encoder, its puncturing, and the first step of the
-- decoder, which puts zeros for the bits that were not sent.
pub mod Puncture
mod Tests
use s2g.Base.{
  ℕ, zero, suc, ◌+◌, ◌*◌, ◌/◌, ◌%◌, List, [], ◌∷◌, Bool, ◌==◌, if◌then◌else◌, get_or, bit_and, drop,
}
use s2g.Phy.Params.{CodeRate, r1_2, r2_3, r3_4, r5_6, as_fraction}

abbrev pub g0 : ℕ
g0 = 91

abbrev pub g1 : ℕ
g1 = 121

-- The parity of a byte's one bits.
unfoldable pub parity : ℕ → ℕ
parity x =
    (x % 2 + x / 2 % 2 + x / 4 % 2 + x / 8 % 2 + x / 16 % 2 + x / 32 % 2 + x / 64 % 2 + x / 128 % 2)
    % 2

unfoldable pub puncture_pattern : CodeRate → ℕ × List ℕ
puncture_pattern r1_2 = (1, 1 ∷ 1 ∷ [])
puncture_pattern r2_3 = (2, 1 ∷ 1 ∷ 1 ∷ 0 ∷ [])
puncture_pattern r3_4 = (3, 1 ∷ 1 ∷ 1 ∷ 0 ∷ 0 ∷ 1 ∷ [])
puncture_pattern r5_6 = (5, 1 ∷ 1 ∷ 1 ∷ 0 ∷ 0 ∷ 1 ∷ 1 ∷ 0 ∷ 0 ∷ 1 ∷ [])

-- The loop over the bits, from the contents of the shift register on.
unfoldable pub encode_from : ℕ → List ℕ → List ℕ
unfolding parity
encode_from sh [] = []
encode_from sh (x ∷ bits) =
    let v = x % 2 * 64 + sh in
    parity (bit_and v g0) ∷ parity (bit_and v g1) ∷ encode_from (v / 2) bits

unfoldable pub encode_r12 : List ℕ → List ℕ
unfolding encode_from
encode_r12 bits = encode_from 0 bits

-- `keep[2 * m] == 1` and `keep[2 * m + 1] == 1` for the pair `k`
unfoldable pub keeps_first : CodeRate → ℕ → Bool
keeps_first r k = get_or (puncture_pattern r).1 (2 * (k % (puncture_pattern r).0)) 0 == 1

unfoldable pub keeps_second : CodeRate → ℕ → Bool
keeps_second r k = get_or (puncture_pattern r).1 (2 * (k % (puncture_pattern r).0) + 1) 0 == 1

-- The bits that are sent of the pairs of the mother code, from the pair `k` on.
unfoldable pub puncture : CodeRate → ℕ → List ℕ → List ℕ
puncture r k [] = []
puncture r k (a ∷ []) = []
puncture r k (a ∷ b ∷ mother) =
    let rest = puncture r (suc k) mother in
    let from_second = if keeps_second r k then b ∷ rest else rest in
    if keeps_first r k then a ∷ from_second else from_second

unfoldable pub encode : List ℕ → CodeRate → List ℕ
unfolding encode_r12 puncture
encode bits r = puncture r 0 (encode_r12 bits)

unfoldable pub punctured_len : ℕ → CodeRate → ℕ
unfolding as_fraction
punctured_len n r = n * (as_fraction r).1 / (as_fraction r).0

-- The decoder's pairs, from the pair `k` on; a value that is not there is zero.
unfoldable pub depuncture {ℓ} : {A : Type ℓ} → A → CodeRate → ℕ → ℕ → List A → List (A × A)
depuncture none_yet r k zero llrs = []
depuncture none_yet r k (suc n) llrs =
    let after = if keeps_first r k then drop 1 llrs else llrs in
    let left = if keeps_second r k then drop 1 after else after in
    (
      if keeps_first r k then get_or llrs 0 none_yet else none_yet,
      if keeps_second r k then get_or after 0 none_yet else none_yet,
    )
    ∷ depuncture none_yet r (suc k) n left
