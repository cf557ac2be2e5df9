-- ===== src/Mac/Frame/Pv1/Header.antt =====
-- The PV1 parser on a header with both addresses in full, whatever the other bits of its frame
-- control.
use s2g.Base.{
  ℕ, ◌/◌, ◌≤◌, ◌≡◌, List, Bool, false, none, some, arith, bit_and, not, ◌==◌, from_le16, length,
  slice, get_or, drop,
}
use s2g.Mac.Addr.{addr}
use s2g.Mac.Frame.Pv1.{ok, mac, parse_pv1, take_addresses, take_seq, take_optional, address_flags}

addresses_mac :
    (inner : List ℕ) (from_ds : Bool)
    → 14 ≤ length inner
    → take_addresses inner 3 from_ds
      ≡ ok (mac (addr (slice inner 2 8)), mac (addr (slice inner 8 14)), 14)
unfolding take_addresses
addresses_mac inner from_ds h = ground arith

seq_mac :
    (inner : List ℕ) (subtype : ℕ)
    → 16 ≤ length inner
    → take_seq inner 3 subtype 14
      ≡ ok (some (from_le16 (get_or inner 14 0) (get_or inner 15 0) / 16), 16)
unfolding take_seq
seq_mac inner subtype h = ground arith

optional_none : (inner : List ℕ) (pos : ℕ) → take_optional false inner pos ≡ ok (none, pos)
unfolding take_optional
optional_none inner pos = ground arith

pub parse_pv1_mac :
    (inner : List ℕ)
    → 16 ≤ length inner
    → bit_and (get_or inner 0 0 / 4) 7 ≡ 3
    → parse_pv1 inner
      ≡ ok (record {
        ptype = 3;
        subtype = get_or inner 0 0 / 32;
        from_ds = not (bit_and (get_or inner 1 0) 1 == 0);
        a1 = mac (addr (slice inner 2 8));
        a2 = mac (addr (slice inner 8 14));
        a3 = none;
        a4 = none;
        seq = some (from_le16 (get_or inner 14 0) (get_or inner 15 0) / 16);
        no_ack = not (bit_and (get_or inner 1 0) 0x80 == 0);
        protected = not (bit_and (get_or inner 1 0) 0x10 == 0);
        body = drop 16 inner;
      })
unfolding parse_pv1 address_flags
parse_pv1_mac inner n h =
    rw (h, parse_pv1)
      (rw (addresses_mac inner (not (bit_and (get_or inner 1 0) 1 == 0)) (omega arith))
        (rw (seq_mac inner (get_or inner 0 0 / 32) n) (rw optional_none (rw optional_none))))
