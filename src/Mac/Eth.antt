-- ===== src/Mac/Eth.antt =====
-- crates/s2g-mac/src/eth.rs: Ethernet frames to 802.11 bodies (LLC/SNAP, EtherType, payload) and
-- back.
pub mod RoundTrip
mod Tests
use s2g.Base.{
  ℕ, ◌≡◌, List, [], ◌∷◌, ◌++◌, Option, none, some, length, take, drop, ltb, if◌then◌else◌, bytes_eq,
  be16, from_be16, slice, get_or, ◌||◌, not, ◌==◌,
}
use s2g.Mac.Addr.{MacAddr, octets, addr}

abbrev pub eth_hdr_len : ℕ
eth_hdr_len = 14

abbrev pub llc_snap : List ℕ
llc_snap = 0xAA ∷ 0xAA ∷ 0x03 ∷ 0x00 ∷ 0x00 ∷ 0x00 ∷ []

pub record Ethernet : Type 0 where
  pub dest : MacAddr
  pub src : MacAddr
  pub ethertype : ℕ
  pub payload : List ℕ

unfoldable pub parse_ethernet : List ℕ → Option Ethernet
parse_ethernet frame =
    if ltb (length frame) eth_hdr_len
    then none
    else some (record {
      dest = addr (slice frame 0 6);
      src = addr (slice frame 6 12);
      ethertype = from_be16 (get_or frame 12 0) (get_or frame 13 0);
      payload = drop eth_hdr_len frame;
    })

unfoldable pub to_body : ℕ → List ℕ → List ℕ
to_body ethertype payload = llc_snap ++ (be16 ethertype ++ payload)

unfoldable pub split_body : List ℕ → Option (ℕ × List ℕ)
split_body body =
    if ltb (length body) 8 || not (bytes_eq (take 6 body) llc_snap)
    then none
    else some (from_be16 (get_or body 6 0) (get_or body 7 0), drop 8 body)

unfoldable pub body_to_ethernet : MacAddr → MacAddr → List ℕ → Option (List ℕ)
body_to_ethernet dest src body = elim (split_body body) [
  | none ↦ none
  | some p ↦ some (octets dest ++ (octets src ++ (be16 p.0 ++ p.1)))
]
