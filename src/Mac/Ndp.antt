-- ===== src/Mac/Ndp.antt =====
-- crates/s2g-mac/src/ndp.rs: the 37-bit bodies of NDP CMAC PPDUs. A u64 is a number below 2 ^ 64.
pub mod Fields
pub mod RoundTrip
pub mod Ids
mod Tests
use s2g.Base.{
  ℕ, zero, suc, ◌+◌, ◌-◌, ◌*◌, ◌/◌, ◌%◌, ◌^◌, List, [], ◌∷◌, Bool, true, false, ◌==◌, ◌&&◌,
  if◌then◌else◌, bit_of, bit_and, bit_or, bit_xor, get_or, length,
}
use s2g.Mac.Addr.{MacAddr, octets}
use s2g.Mac.Fcs

abbrev pub u8 : ℕ → ℕ
u8 v = v % 256

abbrev pub u16 : ℕ → ℕ
u16 v = v % 65536

abbrev pub type_cts_cf_end : ℕ
type_cts_cf_end = 0

abbrev pub type_ack : ℕ
type_ack = 2

abbrev pub type_block_ack : ℕ
type_block_ack = 4

abbrev pub body_mask : ℕ
body_mask = 2 ^ 37 - 1

unfoldable pub get : ℕ → ℕ → ℕ → ℕ
get body lo bits = bit_and (body / 2 ^ lo) (2 ^ bits - 1)

-- `!mask` on a u64 is the distance to the largest one.
unfoldable pub put : ℕ → ℕ → ℕ → ℕ → ℕ
put body lo bits value =
    let mask = (2 ^ bits - 1) * 2 ^ lo in
    bit_or (bit_and body (2 ^ 64 - 1 - mask)) (bit_and (value * 2 ^ lo % 2 ^ 64) mask)

pub record NdpCts : Type 0 where
  pub address_indicator : Bool
  pub ra_pbssid : ℕ
  pub duration_us : ℕ
  pub early_sector_indicator : Bool
  pub bandwidth : ℕ

pub record NdpAck : Type 0 where
  pub ack_id : ℕ
  pub more_data : Bool
  pub idle_indication : Bool
  pub duration : ℕ
  pub relayed_frame : Bool

pub record NdpBlockAck : Type 0 where
  pub block_ack_id : ℕ
  pub starting_sequence : ℕ
  pub bitmap : ℕ

pub data NdpFrame : Type 0 where
  cts : NdpCts → NdpFrame
  ack : NdpAck → NdpFrame
  block_ack : NdpBlockAck → NdpFrame
  other : (ndp_type body : ℕ) → NdpFrame

unfoldable pub cts_body : NdpCts → ℕ
cts_body c =
    let b0 = put 0 0 3 type_cts_cf_end in
    let b1 = put b0 3 1 0 in
    let b2 = put b1 4 1 (bit_of c.address_indicator) in
    let b3 = put b2 5 9 c.ra_pbssid in
    let b4 = put b3 14 15 c.duration_us in
    let b5 = put b4 29 1 (bit_of c.early_sector_indicator) in put b5 30 3 c.bandwidth

unfoldable pub ack_body : NdpAck → ℕ
ack_body a =
    let b0 = put 0 0 3 type_ack in
    let b1 = put b0 3 16 a.ack_id in
    let b2 = put b1 19 1 (bit_of a.more_data) in
    let b3 = put b2 20 1 (bit_of a.idle_indication) in
    let b4 = put b3 21 14 a.duration in put b4 35 1 (bit_of a.relayed_frame)

-- The last write is the bitmap protection: bits 3 to 18 `^=` bits 21 to 36.
unfoldable pub block_ack_body : NdpBlockAck → ℕ
block_ack_body ba =
    let b0 = put 0 0 3 type_block_ack in
    let b1 = put b0 3 6 ba.block_ack_id in
    let b2 = put b1 9 12 ba.starting_sequence in
    let b3 = put b2 21 16 ba.bitmap in put b3 3 16 (bit_xor (get b3 3 16) ba.bitmap)

unfoldable pub to_body : NdpFrame → ℕ
to_body (cts c) = bit_and (cts_body c) body_mask
to_body (ack a) = bit_and (ack_body a) body_mask
to_body (block_ack ba) = bit_and (block_ack_body ba) body_mask
to_body (other t b) = bit_and b body_mask

unfoldable pub parse_block_ack : ℕ → NdpBlockAck
parse_block_ack body =
    let bitmap = u16 (get body 21 16) in
    let plain = put body 3 16 (bit_xor (get body 3 16) bitmap) in
    record {
      block_ack_id = u8 (get plain 3 6);
      starting_sequence = u16 (get plain 9 12);
      bitmap = bitmap;
    }

-- The match of `parse`, on the masked body.
unfoldable pub parse_masked : ℕ → NdpFrame
parse_masked body =
    let ndp_type = u8 (get body 0 3) in
    if ndp_type == type_cts_cf_end && get body 3 1 == 0
    then cts (record {
      address_indicator = get body 4 1 == 1;
      ra_pbssid = u16 (get body 5 9);
      duration_us = u16 (get body 14 15);
      early_sector_indicator = get body 29 1 == 1;
      bandwidth = u8 (get body 30 3);
    })
    else if ndp_type == type_ack
    then ack (record {
      ack_id = u16 (get body 3 16);
      more_data = get body 19 1 == 1;
      idle_indication = get body 20 1 == 1;
      duration = u16 (get body 21 14);
      relayed_frame = get body 35 1 == 1;
    })
    else if ndp_type == type_block_ack
    then block_ack (parse_block_ack body)
    else other ndp_type body

unfoldable pub parse : ℕ → NdpFrame
parse body = parse_masked (bit_and body body_mask)

-- One round of the loop of `ack_id`: FCS bit `23 + j` goes to bit `7 + j`.
unfoldable pub ack_id_loop : ℕ → ℕ → List ℕ → ℕ → ℕ
ack_id_loop zero j fcs id = id
ack_id_loop (suc n) j fcs id =
    let t = 23 + j in
    let bit = bit_and (get_or fcs (t / 8) 0 / 2 ^ (t % 8)) 1 in
    ack_id_loop n (j + 1) fcs (bit_or id (bit * 2 ^ (7 + j)))

unfoldable pub ack_id : ℕ → List ℕ → ℕ
ack_id seed fcs = ack_id_loop 9 0 fcs (bit_and seed 0x7f)

unfoldable pub ack_id_for_mpdu : ℕ → List ℕ → ℕ
ack_id_for_mpdu seed mpdu =
    let n = length mpdu in
    ack_id seed (
      get_or mpdu (n - 4) 0
      ∷ get_or mpdu (n - 3) 0
      ∷ get_or mpdu (n - 2) 0
      ∷ get_or mpdu (n - 1) 0
      ∷ [])

unfoldable pub block_ack_id : ℕ → ℕ
block_ack_id seed = bit_and seed 0x3f

unfoldable pub ocb_partial_aid : MacAddr → ℕ
ocb_partial_aid a = u16 (bit_and (Fcs.crc32 (octets a)) 0x1ff)
