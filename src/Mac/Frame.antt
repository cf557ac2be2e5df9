-- ===== src/Mac/Frame.antt =====
-- crates/s2g-mac/src/frame.rs: 802.11 frames built and parsed. A frame is a list of bytes; every
-- read of the parser is in bounds, so the default of `get_or` stands for no value of the source.
pub mod Pv1
pub mod RoundTrip
pub mod Errors
pub mod Locate
mod Tests
use s2g.Base.{
  ℕ, ◌+◌, ◌-◌, ◌*◌, ◌/◌, ◌%◌, ◌≡◌, List, [], ◌∷◌, ◌++◌, Bool, true, false, Option, none, some,
  length, take, drop, ltb, leb, if◌then◌else◌, ◌==◌, not, ◌&&◌, ◌||◌, bit_and, le16, from_le16,
  slice, get_or,
}
use s2g.Mac.Addr.{MacAddr, octets, addr, all_ones}
use s2g.Mac.Fcs
use s2g.Mac.Frame.Pv1.{FrameError, too_short, bad_fcs, Result, ok, err, Pv1Frame, parse_pv1}

abbrev pub wildcard_bssid : MacAddr
wildcard_bssid = all_ones

abbrev pub data_hdr_len : ℕ
data_hdr_len = 24

abbrev pub qos_data_hdr_len : ℕ
qos_data_hdr_len = 26

abbrev pub rts_len : ℕ
rts_len = 20

-- B11, Retry, of the frame control field
abbrev pub retry_byte : Bool → ℕ
retry_byte retry = if retry then 0x08 else 0x00

unfoldable pub build_data : MacAddr → MacAddr → ℕ → Bool → ℕ → List ℕ → List ℕ
build_data dest src seq retry duration_us body = Fcs.append (
    0x08
    ∷ retry_byte retry
    ∷ (le16 (bit_and duration_us 0x7fff)
        ++ (octets dest
            ++ (octets src
                ++ (octets wildcard_bssid ++ (le16 (bit_and seq 0x0fff * 16 % 65536) ++ body))))))

unfoldable pub build_qos_data : MacAddr → MacAddr → ℕ → Bool → ℕ → ℕ → List ℕ → List ℕ
build_qos_data dest src seq retry duration_us tid body = Fcs.append (
    0x88
    ∷ retry_byte retry
    ∷ (le16 (bit_and duration_us 0x7fff)
        ++ (octets dest
            ++ (octets src
                ++ (octets wildcard_bssid
                    ++ (le16 (bit_and seq 0x0fff * 16 % 65536)
                        ++ (le16 (bit_and tid 0x0f) ++ body)))))))

unfoldable pub build_ack : MacAddr → List ℕ
build_ack ra = Fcs.append (0xD4 ∷ 0x00 ∷ 0 ∷ 0 ∷ octets ra)

unfoldable pub build_rts : MacAddr → MacAddr → ℕ → List ℕ
build_rts ra ta duration_us =
    Fcs.append (0xB4 ∷ 0x00 ∷ (le16 (bit_and duration_us 0x7fff) ++ (octets ra ++ octets ta)))

pub record DataFrame : Type 0 where
  pub dest : MacAddr
  pub src : MacAddr
  pub bssid : MacAddr
  pub seq : ℕ
  pub retry : Bool
  pub duration_us : ℕ
  pub tid : Option ℕ
  pub body : List ℕ

pub data ParsedFrame : Type 0 where
  data_frame : DataFrame → ParsedFrame
  ack : MacAddr → ParsedFrame
  rts : (ra ta : MacAddr) (duration_us : ℕ) → ParsedFrame
  pv1 : Pv1Frame → ParsedFrame
  other : (fc0 fc1 duration_us : ℕ) → ParsedFrame

-- The arm for Data (subtype 0) and QoS Data (subtype 8).
pub parse_data : List ℕ → ℕ → ℕ → Bool → Result ParsedFrame
parse_data inner fc1 duration_us qos =
    let hdr = if qos then qos_data_hdr_len else data_hdr_len in
    if ltb (length inner) hdr || not (bit_and fc1 0x03 == 0)
    then err too_short
    else ok (
        data_frame (record {
          dest = addr (slice inner 4 10);
          src = addr (slice inner 10 16);
          bssid = addr (slice inner 16 22);
          seq = from_le16 (get_or inner 22 0) (get_or inner 23 0) / 16;
          retry = not (bit_and fc1 0x08 == 0);
          duration_us = duration_us;
          tid = if qos then some (bit_and (get_or inner 24 0) 0x0f) else none;
          body = drop hdr inner;
        }))

pub parse_rts : List ℕ → ℕ → Result ParsedFrame
parse_rts inner duration_us =
    if ltb (length inner) (rts_len - 4)
    then err too_short
    else ok (rts (addr (slice inner 4 10)) (addr (slice inner 10 16)) duration_us)

-- The match on type and subtype of a PV0 frame.
pub parse_pv0 : List ℕ → Result ParsedFrame
unfolding parse_data parse_rts
parse_pv0 inner =
    let fc0 = get_or inner 0 0 in
    let fc1 = get_or inner 1 0 in
    let ftype = bit_and (fc0 / 4) 0x3 in
    let subtype = fc0 / 16 in
    let duration_us = bit_and (from_le16 (get_or inner 2 0) (get_or inner 3 0)) 0x7fff in
    if ftype == 2 && (subtype == 0 || subtype == 8)
    then parse_data inner fc1 duration_us (subtype == 8)
    else if ftype == 1 && subtype == 13
    then ok (ack (addr (slice inner 4 10)))
    else if ftype == 1 && subtype == 11
    then parse_rts inner duration_us
    else ok (other fc0 fc1 duration_us)

pub parse_inner : List ℕ → Result ParsedFrame
unfolding parse_pv0
parse_inner inner =
    if ltb (length inner) 10
    then err too_short
    else if bit_and (get_or inner 0 0) 3 == 1
    then (elim (parse_pv1 inner) [ ok f ↦ ok (pv1 f) | err e ↦ err e ])
    else parse_pv0 inner

unfoldable pub parse : List ℕ → Result ParsedFrame
unfolding parse_inner
parse mpdu = elim (Fcs.check_and_strip mpdu) [ none ↦ err bad_fcs | some inner ↦ parse_inner inner ]
