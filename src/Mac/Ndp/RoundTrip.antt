-- ===== src/Mac/Ndp/RoundTrip.antt =====
-- What `parse` reads back from each body, and the bodies' width.
use s2g.Base.{
  ℕ, ◌+◌, ◌*◌, ◌/◌, ◌%◌, ◌^◌, ◌≤◌, ◌<◌, ◌≡◌, ◌≢◌, refl, Bool, true, false, bit_of, ◌==◌, arith,
  bit_xor,
}
use s2g.Base.Bits.{bit_and_mask, bit_xor_twice, bit_xor-lt}
use native.Mathlib.Nat.{div-eq_of_lt, mod-eq_of_lt, zero-div}
use s2g.Mac.Ndp.{
  put, NdpCts, NdpAck, NdpBlockAck, NdpFrame, cts, ack, block_ack, other, cts_body, ack_body,
  block_ack_body, to_body, parse_block_ack, parse_masked, parse,
}
use s2g.Mac.Ndp.Fields.{put_lem, get_lem}

-- A write to the bits above all that were written so far.
module _ (t w k : ℕ) (whole : 2 ^ t * (2 ^ w * 2 ^ k) ≡ 2 ^ 64) where
  put_above :
      (b value : ℕ) → b < 2 ^ k → 2 ^ k ≤ 2 ^ 64 → put b k w value ≡ value % 2 ^ w * 2 ^ k + b
  put_above b value hb h =
      ground
        (arith, put_lem t w k whole b value, div-eq_of_lt hb, mod-eq_of_lt hb, zero-div (2 ^ w))

bit_of-lt : (b : Bool) → bit_of b < 2
bit_of-lt true = omega arith
bit_of-lt false = omega arith

cts_body_lem :
    (c : NdpCts)
    → cts_body c
      ≡ bit_of c.address_indicator * 16
        + c.ra_pbssid % 512 * 32
        + c.duration_us % 32768 * 16384
        + bit_of c.early_sector_indicator * 2 ^ 29
        + c.bandwidth % 8 * 2 ^ 30
unfolding cts_body
cts_body_lem c =
    let a : ℕ = bit_of c.address_indicator in
    let e : ℕ = bit_of c.early_sector_indicator in
    let b2 : ℕ = a * 16 in
    let b3 : ℕ = b2 + c.ra_pbssid % 512 * 32 in
    let b4 : ℕ = b3 + c.duration_us % 32768 * 16384 in
    let b5 : ℕ = b4 + e * 2 ^ 29 in
    ground (
      arith,
      bit_of-lt c.address_indicator,
      bit_of-lt c.early_sector_indicator,
      put_above 61 3 0 refl 0 0,
      put_above 60 1 3 refl 0 0,
      put_above 59 1 4 refl 0 a,
      put_above 50 9 5 refl b2 c.ra_pbssid,
      put_above 35 15 14 refl b3 c.duration_us,
      put_above 34 1 29 refl b4 e,
      put_above 31 3 30 refl b5 c.bandwidth,
    )

ack_body_lem :
    (a : NdpAck)
    → ack_body a
      ≡ 2
        + a.ack_id % 65536 * 8
        + bit_of a.more_data * 2 ^ 19
        + bit_of a.idle_indication * 2 ^ 20
        + a.duration % 16384 * 2 ^ 21
        + bit_of a.relayed_frame * 2 ^ 35
unfolding ack_body
ack_body_lem a =
    let m : ℕ = bit_of a.more_data in
    let i : ℕ = bit_of a.idle_indication in
    let r : ℕ = bit_of a.relayed_frame in
    let b1 : ℕ = 2 + a.ack_id % 65536 * 8 in
    let b2 : ℕ = b1 + m * 2 ^ 19 in
    let b3 : ℕ = b2 + i * 2 ^ 20 in
    let b4 : ℕ = b3 + a.duration % 16384 * 2 ^ 21 in
    ground (
      arith,
      bit_of-lt a.more_data,
      bit_of-lt a.idle_indication,
      bit_of-lt a.relayed_frame,
      put_above 61 3 0 refl 0 2,
      put_above 45 16 3 refl 2 a.ack_id,
      put_above 44 1 19 refl b1 m,
      put_above 43 1 20 refl b2 i,
      put_above 29 14 21 refl b3 a.duration,
      put_above 28 1 35 refl b4 r,
    )

-- Before the bitmap protection.
plain_block_ack : NdpBlockAck → ℕ
plain_block_ack ba =
    4 + ba.block_ack_id % 64 * 8 + ba.starting_sequence % 4096 * 512 + ba.bitmap % 65536 * 2 ^ 21

block_ack_body_lem :
    (ba : NdpBlockAck)
    → block_ack_body ba
      ≡ 4
        + bit_xor (plain_block_ack ba / 8 % 65536) ba.bitmap % 65536 * 8
        + plain_block_ack ba / 2 ^ 19 * 2 ^ 19
unfolding block_ack_body plain_block_ack
block_ack_body_lem ba =
    let b1 : ℕ = 4 + ba.block_ack_id % 64 * 8 in
    let b2 : ℕ = b1 + ba.starting_sequence % 4096 * 512 in
    let b3 : ℕ = b2 + ba.bitmap % 65536 * 2 ^ 21 in
    ground (
      arith,
      put_above 61 3 0 refl 0 4,
      put_above 55 6 3 refl 4 ba.block_ack_id,
      put_above 43 12 9 refl b1 ba.starting_sequence,
      put_above 27 16 21 refl b2 ba.bitmap,
      get_lem b3 3 16,
      put_lem 45 16 3 refl b3 (bit_xor (b3 / 8 % 65536) ba.bitmap),
    )

bit_of-eq-one : (b : Bool) → (bit_of b % 2 == 1) ≡ b
bit_of-eq-one true = refl
bit_of-eq-one false = refl

-- Every body fits 37 bits.
pub to_body-lt : (f : NdpFrame) → to_body f < 2 ^ 37
unfolding to_body
to_body-lt (cts c) = omega (arith, bit_and_mask 37 (cts_body c))
to_body-lt (ack a) = omega (arith, bit_and_mask 37 (ack_body a))
to_body-lt (block_ack ba) = omega (arith, bit_and_mask 37 (block_ack_body ba))
to_body-lt (other t b) = omega (arith, bit_and_mask 37 b)

-- A CTS is read back with each field cut to the width it has on the air.
pub parse-to_body-cts :
    (c : NdpCts)
    → parse (to_body (cts c))
      ≡ cts (record c {
        ra_pbssid = c.ra_pbssid % 512;
        duration_us = c.duration_us % 32768;
        bandwidth = c.bandwidth % 8;
      })
unfolding to_body parse parse_masked
parse-to_body-cts c =
    let b : ℕ =
      bit_of c.address_indicator * 16
      + c.ra_pbssid % 512 * 32
      + c.duration_us % 32768 * 16384
      + bit_of c.early_sector_indicator * 2 ^ 29
      + c.bandwidth % 8 * 2 ^ 30 in
    ground (
      arith,
      cts_body_lem c,
      bit_of-lt c.address_indicator,
      bit_of-lt c.early_sector_indicator,
      bit_and_mask 37 b,
      get_lem b 0 3,
      get_lem b 3 1,
      get_lem b 4 1,
      get_lem b 5 9,
      get_lem b 14 15,
      get_lem b 29 1,
      get_lem b 30 3,
      bit_of-eq-one c.address_indicator,
      bit_of-eq-one c.early_sector_indicator,
    )

-- An Ack is read back with each field cut to the width it has on the air.
pub parse-to_body-ack :
    (a : NdpAck)
    → parse (to_body (ack a))
      ≡ ack (record a { ack_id = a.ack_id % 65536; duration = a.duration % 16384 })
unfolding to_body parse parse_masked
parse-to_body-ack a =
    let b : ℕ =
      2
      + a.ack_id % 65536 * 8
      + bit_of a.more_data * 2 ^ 19
      + bit_of a.idle_indication * 2 ^ 20
      + a.duration % 16384 * 2 ^ 21
      + bit_of a.relayed_frame * 2 ^ 35 in
    ground (
      arith,
      ack_body_lem a,
      bit_of-lt a.more_data,
      bit_of-lt a.idle_indication,
      bit_of-lt a.relayed_frame,
      bit_and_mask 37 b,
      get_lem b 0 3,
      get_lem b 3 16,
      get_lem b 19 1,
      get_lem b 20 1,
      get_lem b 21 14,
      get_lem b 35 1,
      bit_of-eq-one a.more_data,
      bit_of-eq-one a.idle_indication,
      bit_of-eq-one a.relayed_frame,
    )

-- A BlockAck with a bitmap of 16 bits is read back, its identifier cut to six bits and its
-- sequence number to 12: the bitmap protection is undone.
pub parse-to_body-block_ack :
    (ba : NdpBlockAck)
    → ba.bitmap < 65536
    → parse (to_body (block_ack ba))
      ≡ block_ack (record ba {
        block_ack_id = ba.block_ack_id % 64;
        starting_sequence = ba.starting_sequence % 4096;
      })
unfolding to_body parse parse_masked parse_block_ack plain_block_ack
parse-to_body-block_ack ba h =
    let p : ℕ = plain_block_ack ba in
    let x : ℕ = bit_xor (p / 8 % 65536) ba.bitmap in
    let b : ℕ = 4 + x * 8 + p / 2 ^ 19 * 2 ^ 19 in
    ground (
      arith,
      block_ack_body_lem ba,
      bit_xor-lt 16 (p / 8 % 65536) ba.bitmap,
      bit_and_mask 37 b,
      get_lem b 0 3,
      get_lem b 3 1,
      get_lem b 21 16,
      get_lem b 3 16,
      bit_xor_twice (p / 8 % 65536) ba.bitmap,
      put_lem 45 16 3 refl b (p / 8 % 65536),
      get_lem p 3 6,
      get_lem p 9 12,
    )

to_body-parse_block_ack :
    (b : ℕ) → b < 2 ^ 37 → b % 8 ≡ 4 → to_body (block_ack (parse_block_ack b)) ≡ b
unfolding to_body parse_block_ack plain_block_ack
to_body-parse_block_ack b h t =
    let m : ℕ = b / 2 ^ 21 in
    let x : ℕ = bit_xor (b / 8 % 65536) m in
    let p : ℕ = b % 8 + x * 8 + b / 2 ^ 19 * 2 ^ 19 in
    ground (
      arith,
      get_lem b 21 16,
      get_lem b 3 16,
      bit_xor-lt 16 (b / 8 % 65536) m,
      put_lem 45 16 3 refl b x,
      get_lem p 3 6,
      get_lem p 9 12,
      block_ack_body_lem (parse_block_ack b),
      bit_xor_twice (b / 8 % 65536) m,
      bit_and_mask 37 b,
    )

-- A body of 37 bits of any type but CTS/CF-End and Ack survives parsing and writing, bit by bit.
pub to_body-parse : (b : ℕ) → b < 2 ^ 37 → b % 8 ≢ 0 → b % 8 ≢ 2 → to_body (parse b) ≡ b
unfolding parse parse_masked to_body
to_body-parse b h n0 n2 =
    ground (arith, bit_and_mask 37 b, get_lem b 0 3, to_body-parse_block_ack b h)
