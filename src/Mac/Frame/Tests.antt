-- ===== src/Mac/Frame/Tests.antt =====
-- The theorems of frame.rs at concrete frames.
use s2g.Base.{
  ℕ, ◌≡◌, ◌≤◌, refl, List, [], ◌∷◌, ◌++◌, true, false, none, some, arith, take, le32, ◌↔◌, bytes_eq,
  is_some,
}
use s2g.Mac.Addr.{MacAddr}
use s2g.Mac.Fcs
use s2g.Mac.Frame.{build_data, build_ack, parse, data_frame, pv1, wildcard_bssid}
use s2g.Mac.Frame.Pv1.{ok, err, bad_fcs, too_short, mac, build_pv1_data}
use s2g.Mac.Frame.RoundTrip.{parse-build_data, parse-build_pv1_data}
use s2g.Mac.Frame.Errors.{parse_bad_fcs_iff, parse_corrupt_byte, parse_too_short}
use s2g.Mac.Frame.Locate.{IsMpduPrefix, locate_mpdu, locate_mpdu-some}

abbrev here : MacAddr
here = record { a = 2; b = 0; c = 0; d = 0; e = 0; f = 1 }

abbrev there : MacAddr
there = record { a = 2; b = 0; c = 0; d = 0; e = 0; f = 2 }

parse-build_data_example :
    parse (build_data there here 1234 false 400 (b'h' ∷ []))
    ≡ ok (
        data_frame (record {
          dest = there;
          src = here;
          bssid = wildcard_bssid;
          seq = 1234;
          retry = false;
          duration_us = 400;
          tid = none;
          body = b'h' ∷ [];
        }))
parse-build_data_example = parse-build_data there here 1234 false 400 (b'h' ∷ [])

parse-build_pv1_data_example :
    parse (build_pv1_data there here 77 3 true (b'h' ∷ []))
    ≡ ok (
        pv1 (record {
          ptype = 3;
          subtype = 3;
          from_ds = false;
          a1 = mac there;
          a2 = mac here;
          a3 = none;
          a4 = none;
          seq = some 77;
          no_ack = true;
          protected = false;
          body = b'h' ∷ [];
        }))
parse-build_pv1_data_example = parse-build_pv1_data there here 77 3 true (b'h' ∷ [])

parse_bad_fcs_iff_example :
    (parse (1 ∷ 2 ∷ []) ≡ err bad_fcs) ↔ (Fcs.check_and_strip (1 ∷ 2 ∷ []) ≡ none)
parse_bad_fcs_iff_example = parse_bad_fcs_iff (1 ∷ 2 ∷ [])

parse_corrupt_byte_example : parse ((8 ∷ 1 ∷ []) ++ le32 (Fcs.crc32 (8 ∷ 0 ∷ []))) ≡ err bad_fcs
parse_corrupt_byte_example =
    parse_corrupt_byte (8 ∷ []) [] 0 1 (omega arith) tt (omega arith) (omega arith) (omega arith)

parse_too_short_example : parse (Fcs.append (8 ∷ 0 ∷ [])) ≡ err too_short
parse_too_short_example = parse_too_short (8 ∷ 0 ∷ []) (omega arith)

-- An Ack with two bytes of padding behind its FCS.
abbrev padded : List ℕ
padded = build_ack here ++ (0 ∷ 0 ∷ [])

padded_located : locate_mpdu padded ≡ some (build_ack here)
unfolding locate_mpdu build_ack Fcs.append Fcs.crc32 Fcs.check_and_strip bytes_eq is_some
padded_located = refl

locate_mpdu-some_example :
    (n : ℕ) × IsMpduPrefix padded n
    × (build_ack here ≡ take n padded)
    × ((k : ℕ) → IsMpduPrefix padded k → k ≤ n)
locate_mpdu-some_example = locate_mpdu-some padded (build_ack here) padded_located
