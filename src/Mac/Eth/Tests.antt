-- ===== src/Mac/Eth/Tests.antt =====
-- The theorems of eth.rs at concrete frames.
use s2g.Base.{ℕ, ◌≡◌, refl, List, [], ◌∷◌, ◌++◌, ◌↔◌, some, arith}
use s2g.Mac.Addr.{MacAddr, octets}
use s2g.Mac.Eth.{Ethernet, parse_ethernet, to_body, body_to_ethernet}
use s2g.Mac.Eth.RoundTrip.{body_to_ethernet-parse, body_to_ethernet_iff}

abbrev dest : MacAddr
dest = record { a = 2; b = 0; c = 0; d = 0; e = 0; f = 9 }

abbrev src : MacAddr
src = record { a = 2; b = 0; c = 0; d = 0; e = 0; f = 7 }

abbrev packet : List ℕ
packet = octets dest ++ (octets src ++ (0x08 ∷ 0x00 ∷ b'i' ∷ b'p' ∷ []))

abbrev parts : Ethernet
parts = record { dest = dest; src = src; ethertype = 0x0800; payload = b'i' ∷ b'p' ∷ [] }

split_packet : parse_ethernet packet ≡ some parts
unfolding parse_ethernet
split_packet = refl

body_to_ethernet-parse_example :
    body_to_ethernet dest src (to_body 0x0800 (b'i' ∷ b'p' ∷ [])) ≡ some packet
body_to_ethernet-parse_example = body_to_ethernet-parse packet parts (omega arith) split_packet

body_to_ethernet_iff_example :
    (body_to_ethernet dest src (to_body 0x0800 (b'i' ∷ b'p' ∷ [])) ≡ some packet) ↔ (
      (e : Ethernet) × (parse_ethernet packet ≡ some e)
      × (e.dest ≡ dest)
      × (e.src ≡ src)
      × (to_body e.ethertype e.payload ≡ to_body 0x0800 (b'i' ∷ b'p' ∷ [])))
unfolding to_body
body_to_ethernet_iff_example =
    body_to_ethernet_iff dest src (to_body 0x0800 (b'i' ∷ b'p' ∷ [])) packet (omega arith)
      (omega arith)
