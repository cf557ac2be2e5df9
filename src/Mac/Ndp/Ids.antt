-- ===== src/Mac/Ndp/Ids.antt =====
-- The identifiers that tie a response to the PPDU that solicits it.
use s2g.Base.{
  ℕ, zero, suc, ◌+◌, ◌-◌, ◌*◌, ◌/◌, ◌%◌, ◌^◌, ◌<◌, ◌≡◌, ap, List, [], ◌∷◌, ◌++◌, arith, bit_and,
  bit_or, get_or, length, length-append, IsByte, le32,
}
use s2g.Base.Bits.{bit_and_mask, bit_or_disjoint, bit_or_comm}
use s2g.Mac.Addr.{MacAddr, octets}
use s2g.Mac.Fcs
use s2g.Mac.Fcs.Words.{crc32-lt}
use s2g.Mac.Ndp.{ack_id_loop, ack_id, ack_id_for_mpdu, block_ack_id, ocb_partial_aid}

-- `id |= bit << s` above the bits that are set.
set_bit : (s id x : ℕ) → id < 2 ^ s → bit_or id (bit_and x 1 * 2 ^ s) ≡ x % 2 * 2 ^ s + id
set_bit s id x h = ground (
  arith,
  bit_or_comm id (bit_and x 1 * 2 ^ s),
  bit_or_disjoint s (bit_and x 1) id,
  bit_and_mask 1 x,
)

-- The Ack ID is seven bits of the seed, then the top bit of the third FCS byte, then the fourth.
pub ack_id_lem :
    (seed a b c d : ℕ)
    → IsByte c
    → IsByte d
    → ack_id seed (a ∷ b ∷ c ∷ d ∷ []) ≡ seed % 128 + c / 128 * 128 + d * 256
unfolding ack_id ack_id_loop
ack_id_lem seed a b c d hc hd =
    let i0 : ℕ = seed % 128 in
    let i1 : ℕ = c / 128 * 128 + i0 in
    let i2 : ℕ = d % 2 * 2 ^ 8 + i1 in
    let i3 : ℕ = d % 4 * 2 ^ 8 + i1 in
    let i4 : ℕ = d % 8 * 2 ^ 8 + i1 in
    let i5 : ℕ = d % 16 * 2 ^ 8 + i1 in
    let i6 : ℕ = d % 32 * 2 ^ 8 + i1 in
    let i7 : ℕ = d % 64 * 2 ^ 8 + i1 in
    let i8 : ℕ = d % 128 * 2 ^ 8 + i1 in
    ground (
      arith,
      bit_and_mask 7 seed,
      set_bit 7 i0 (c / 128),
      set_bit 8 i1 d,
      set_bit 9 i2 (d / 2),
      set_bit 10 i3 (d / 4),
      set_bit 11 i4 (d / 8),
      set_bit 12 i5 (d / 16),
      set_bit 13 i6 (d / 32),
      set_bit 14 i7 (d / 64),
      set_bit 15 i8 (d / 128),
    )

get_or-append :
    (xs ys : List ℕ) (i n : ℕ) → n ≡ length xs + i → get_or (xs ++ ys) n 0 ≡ get_or ys i 0
get_or-append [] ys i n e = let same : n ≡ i = omega arith in ap (λ (t : ℕ). get_or ys t 0) same
get_or-append (x ∷ xs) ys i zero e = absurd (omega arith)
get_or-append (x ∷ xs) ys i (suc n) e = get_or-append xs ys i n (omega arith)

-- The Ack ID of a frame is seven bits of the seed and, above them, the top nine bits of its CRC.
pub ack_id_for_mpdu-append :
    (seed : ℕ) (frame : List ℕ)
    → ack_id_for_mpdu seed (Fcs.append frame) ≡ seed % 128 + Fcs.crc32 frame / 2 ^ 23 * 128
unfolding ack_id_for_mpdu Fcs.append
ack_id_for_mpdu-append seed frame =
    let v : ℕ = Fcs.crc32 frame in
    let tail : List ℕ = le32 v in
    let n : ℕ = length (frame ++ tail) in
    ground (
      arith,
      crc32-lt frame,
      length-append frame tail,
      get_or-append frame tail 0 (n - 4),
      get_or-append frame tail 1 (n - 3),
      get_or-append frame tail 2 (n - 2),
      get_or-append frame tail 3 (n - 1),
      ack_id_lem seed (v % 256) (v / 256 % 256) (v / 65536 % 256) (v / 16777216 % 256),
    )

-- Both identifiers of an OCB link stay within their fields.
pub ids_bounds : (seed : ℕ) (a : MacAddr) → (block_ack_id seed < 64) × (ocb_partial_aid a < 512)
unfolding block_ack_id ocb_partial_aid
ids_bounds seed a =
    (omega (arith, bit_and_mask 6 seed), omega (arith, bit_and_mask 9 (Fcs.crc32 (octets a))))
