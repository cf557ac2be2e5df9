-- ===== src/Mac/Frame/RoundTrip.antt =====
-- What the parser reads back from each frame that the builders make.
use s2g.Base.{
  ℕ, ◌+◌, ◌*◌, ◌/◌, ◌%◌, ◌≤◌, ◌≡◌, refl, ◌∙◌, List, ◌∷◌, ◌++◌, Bool, true, false, none, some, arith,
  bit_and, bit_or, le16, length, if◌then◌else◌, get_or,
}
use s2g.Base.Bits.{bit_and_mask, bit_or_disjoint, bit_or_comm}
use s2g.Mac.Addr.{MacAddr, octets}
use s2g.Mac.Fcs
use s2g.Mac.Fcs.Detect.{check_and_strip_iff}
use s2g.Mac.Frame.{
  build_data, build_qos_data, build_ack, build_rts, data_frame, ack, rts, pv1, parse_inner, parse,
  wildcard_bssid,
}
use s2g.Mac.Frame.Pv1.{ok, Pv1Frame, mac, build_pv1_data, parse_pv1}
use s2g.Mac.Frame.Pv1.Header.{parse_pv1_mac}

pub parse-append : (inner : List ℕ) → parse (Fcs.append inner) ≡ parse_inner inner
unfolding parse
parse-append inner = rw ((check_and_strip_iff (Fcs.append inner) inner).1 refl, parse)

-- Every data frame that is built is parsed to its addresses and body, with the sequence number cut
-- to 12 bits and the duration to 15.
pub parse-build_data :
    (dest src : MacAddr) (seq : ℕ) (retry : Bool) (duration_us : ℕ) (body : List ℕ)
    → parse (build_data dest src seq retry duration_us body)
      ≡ ok (
          data_frame (record {
            dest = dest;
            src = src;
            bssid = wildcard_bssid;
            seq = seq % 4096;
            retry = retry;
            duration_us = duration_us % 32768;
            tid = none;
            body = body;
          }))
unfolding build_data parse_inner
parse-build_data dest src seq true duration_us body =
    parse-append _
    ∙ ground (
      arith,
      bit_and_mask 15 duration_us,
      bit_and_mask 12 seq,
      bit_and_mask 15 (duration_us % 32768),
    )
parse-build_data dest src seq false duration_us body =
    parse-append _
    ∙ ground (
      arith,
      bit_and_mask 15 duration_us,
      bit_and_mask 12 seq,
      bit_and_mask 15 (duration_us % 32768),
    )

pub parse-build_ack : (ra : MacAddr) → parse (build_ack ra) ≡ ok (ack ra)
unfolding build_ack parse_inner
parse-build_ack ra = parse-append _

-- Every RTS that is built is parsed to its addresses, with the duration cut to 15 bits.
pub parse-build_rts :
    (ra ta : MacAddr) (duration_us : ℕ)
    → parse (build_rts ra ta duration_us) ≡ ok (rts ra ta (duration_us % 32768))
unfolding build_rts parse_inner
parse-build_rts ra ta duration_us =
    parse-append _
    ∙ ground (arith, bit_and_mask 15 duration_us, bit_and_mask 15 (duration_us % 32768))

-- Every QoS data frame that is built is parsed to its addresses and body, with the sequence number
-- cut to 12 bits, the duration to 15 and the traffic identifier to four.
pub parse-build_qos_data :
    (dest src : MacAddr) (seq : ℕ) (retry : Bool) (duration_us tid : ℕ) (body : List ℕ)
    → parse (build_qos_data dest src seq retry duration_us tid body)
      ≡ ok (
          data_frame (record {
            dest = dest;
            src = src;
            bssid = wildcard_bssid;
            seq = seq % 4096;
            retry = retry;
            duration_us = duration_us % 32768;
            tid = some (tid % 16);
            body = body;
          }))
unfolding build_qos_data parse_inner
parse-build_qos_data dest src seq true duration_us tid body =
    parse-append _
    ∙ ground (
      arith,
      bit_and_mask 15 duration_us,
      bit_and_mask 12 seq,
      bit_and_mask 15 (duration_us % 32768),
      bit_and_mask 4 tid,
      bit_and_mask 4 (tid % 16),
    )
parse-build_qos_data dest src seq false duration_us tid body =
    parse-append _
    ∙ ground (
      arith,
      bit_and_mask 15 duration_us,
      bit_and_mask 12 seq,
      bit_and_mask 15 (duration_us % 32768),
      bit_and_mask 4 tid,
      bit_and_mask 4 (tid % 16),
    )

pv1_control : (tid : ℕ) → bit_or 13 (bit_and tid 7 * 32 % 256) ≡ tid % 8 * 32 + 13
pv1_control tid =
    ground
      (arith, bit_and_mask 3 tid, bit_or_comm 13 (tid % 8 * 32), bit_or_disjoint 5 (tid % 8) 13)

parse_inner_pv1 :
    (inner : List ℕ) (f : Pv1Frame)
    → bit_and (get_or inner 0 0) 3 ≡ 1
    → 10 ≤ length inner
    → parse_pv1 inner ≡ ok f
    → parse_inner inner ≡ ok (pv1 f)
unfolding parse_inner
parse_inner_pv1 inner f h n e = ground arith

-- Every PV1 data frame with both addresses in full that is built is parsed to its addresses, flags
-- and body, with the sequence number cut to 12 bits and the traffic identifier to three.
pub parse-build_pv1_data :
    (dest src : MacAddr) (seq tid : ℕ) (no_ack : Bool) (body : List ℕ)
    → parse (build_pv1_data dest src seq tid no_ack body)
      ≡ ok (
          pv1 (record {
            ptype = 3;
            subtype = tid % 8;
            from_ds = false;
            a1 = mac dest;
            a2 = mac src;
            a3 = none;
            a4 = none;
            seq = some (seq % 4096);
            no_ack = no_ack;
            protected = false;
            body = body;
          }))
unfolding build_pv1_data
parse-build_pv1_data dest src seq tid no_ack body =
    parse-append inner
    ∙ parse_inner_pv1 inner _ (ground (arith, pv1_control tid, bit_and_mask 2 fc0)) (omega arith) (
        parse_pv1_mac inner (omega arith)
          (ground (arith, pv1_control tid, bit_and_mask 3 (fc0 / 4))))
    ∙ ground (arith, pv1_control tid, bit_and_mask 12 seq)
  where
    fc0 : ℕ
    fc0 = tid % 8 * 32 + 13

    inner : List ℕ
    inner =
        bit_or 13 (bit_and tid 7 * 32 % 256)
        ∷ (if no_ack then 0x80 else 0x00)
        ∷ (octets dest ++ (octets src ++ (le16 (bit_and seq 0x0fff * 16 % 65536) ++ body)))
