-- ===== src/Mac/Ndp/Tests.antt =====
-- The bodies of the source's tests, and the theorems of ndp.rs at concrete frames.
use s2g.Base.{◌≡◌, refl, ◌+◌, ◌*◌, ◌/◌, ◌^◌, ◌<◌, true, false, [], ◌∷◌, arith}
use s2g.Mac.Fcs
use s2g.Mac.Ndp.{
  NdpCts, NdpAck, NdpBlockAck, cts, ack, block_ack, other, block_ack_body, to_body, parse,
  parse_masked, parse_block_ack, get, put, ack_id, ack_id_loop, ack_id_for_mpdu,
}
use s2g.Mac.Ndp.RoundTrip.{
  to_body-lt, parse-to_body-cts, parse-to_body-ack, parse-to_body-block_ack, to_body-parse,
}
use s2g.Mac.Ndp.Ids.{ack_id_for_mpdu-append}

abbrev some_ack : NdpAck
some_ack = record {
  ack_id = 0xBEEF;
  more_data = true;
  idle_indication = false;
  duration = 0x2ABC;
  relayed_frame = true;
}

abbrev some_cts : NdpCts
some_cts = record {
  address_indicator = false;
  ra_pbssid = 0x1a5;
  duration_us = 12345;
  early_sector_indicator = false;
  bandwidth = 1;
}

abbrev some_block_ack : NdpBlockAck
some_block_ack = record { block_ack_id = 0x2a; starting_sequence = 0xabc; bitmap = 0xf00f }

block_ack_runs : parse (to_body (block_ack some_block_ack)) ≡ block_ack some_block_ack
unfolding to_body parse parse_masked block_ack_body parse_block_ack get put
block_ack_runs = refl

cf_end_is_no_cts : parse 8 ≡ other 0 8
unfolding parse parse_masked get
cf_end_is_no_cts = refl

ack_id_runs : ack_id 0x55 (0x00 ∷ 0x00 ∷ 0x80 ∷ 0xac ∷ []) ≡ 0x55 + 128 + 0xac * 256
unfolding ack_id ack_id_loop
ack_id_runs = refl

to_body-lt_example : to_body (cts some_cts) < 2 ^ 37
to_body-lt_example = to_body-lt (cts some_cts)

parse-to_body-cts_example : parse (to_body (cts some_cts)) ≡ cts some_cts
parse-to_body-cts_example = parse-to_body-cts some_cts

parse-to_body-ack_example : parse (to_body (ack some_ack)) ≡ ack some_ack
parse-to_body-ack_example = parse-to_body-ack some_ack

parse-to_body-block_ack_example :
    parse (to_body (block_ack some_block_ack)) ≡ block_ack some_block_ack
parse-to_body-block_ack_example = parse-to_body-block_ack some_block_ack (omega arith)

to_body-parse_example : to_body (parse 0x1234567894) ≡ 0x1234567894
to_body-parse_example = to_body-parse 0x1234567894 (omega arith) (omega arith) (omega arith)

ack_id_for_mpdu-append_example :
    ack_id_for_mpdu 0x55 (Fcs.append (1 ∷ 2 ∷ [])) ≡ 0x55 + Fcs.crc32 (1 ∷ 2 ∷ []) / 2 ^ 23 * 128
ack_id_for_mpdu-append_example = ack_id_for_mpdu-append 0x55 (1 ∷ 2 ∷ [])
