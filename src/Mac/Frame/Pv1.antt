-- ===== src/Mac/Frame/Pv1.antt =====
-- crates/s2g-mac/src/frame.rs, PV1 (short MAC header) frames: the cursor that the source moves over
-- the header is passed on explicitly.
pub mod Header
use s2g.Base.{
  ℕ, ◌+◌, ◌-◌, ◌*◌, ◌/◌, ◌%◌, ◌≡◌, List, [], ◌∷◌, ◌++◌, Bool, true, false, Option, none, some,
  length, take, drop, ltb, leb, if◌then◌else◌, ◌==◌, not, ◌&&◌, ◌||◌, bit_and, bit_or, le16,
  from_le16, slice, get_or,
}
use s2g.Mac.Addr.{MacAddr, octets, addr}
use s2g.Mac.Fcs

pub data FrameError : Type 0 where
  too_short bad_fcs : FrameError

pub data Result {ℓ} (A : Type ℓ) : Type ℓ where
  ok : A → Result A
  err : FrameError → Result A

infixl 5 ◌>>=◌
abbrev pub ◌>>=◌ {ℓ κ} : {A : Type ℓ} {B : Type κ} → Result A → (A → Result B) → Result B
ok a >>= f = f a
err e >>= f = err e

pub record ShortId : Type 0 where
  pub aid : ℕ
  pub a3_present : Bool
  pub a4_present : Bool
  pub amsdu : Bool

pub data Pv1Addr : Type 0 where
  mac : MacAddr → Pv1Addr
  sid : ShortId → Pv1Addr

pub record Pv1Frame : Type 0 where
  pub ptype : ℕ
  pub subtype : ℕ
  pub from_ds : Bool
  pub a1 : Pv1Addr
  pub a2 : Pv1Addr
  pub a3 : Option MacAddr
  pub a4 : Option MacAddr
  pub seq : Option ℕ
  pub no_ack : Bool
  pub protected : Bool
  pub body : List ℕ

abbrev pub type_qos_data : ℕ
type_qos_data = 0

abbrev pub type_management : ℕ
type_management = 1

abbrev pub type_qos_data_mac : ℕ
type_qos_data_mac = 3

unfoldable pub build_pv1_data : MacAddr → MacAddr → ℕ → ℕ → Bool → List ℕ → List ℕ
build_pv1_data dest src seq tid no_ack body =
    let fc0 = bit_or (bit_or 1 (type_qos_data_mac * 4)) (bit_and tid 7 * 32 % 256) in
    let fc1 = if no_ack then 0x80 else 0x00 in
    Fcs.append (
      fc0 ∷ fc1 ∷ (octets dest ++ (octets src ++ (le16 (bit_and seq 0x0fff * 16 % 65536) ++ body))))

-- The closures `take_mac` and `take_sid`, with the cursor.
unfoldable pub take_mac : List ℕ → ℕ → Result (MacAddr × ℕ)
take_mac inner pos =
    if ltb (length inner) (pos + 6)
    then err too_short
    else ok (addr (slice inner pos (pos + 6)), pos + 6)

unfoldable pub take_sid : List ℕ → ℕ → Result (Pv1Addr × ℕ)
take_sid inner pos =
    if ltb (length inner) (pos + 2)
    then err too_short
    else (let v = from_le16 (get_or inner pos 0) (get_or inner (pos + 1) 0) in
        ok (
          sid (record {
            aid = bit_and v 0x1fff;
            a3_present = not (bit_and v 0x2000 == 0);
            a4_present = not (bit_and v 0x4000 == 0);
            amsdu = not (bit_and v 0x8000 == 0);
          }),
          pos + 2,
        ))

-- Sequence Control, present in all but the PV1 Probe Response.
unfoldable pub take_seq : List ℕ → ℕ → ℕ → ℕ → Result (Option ℕ × ℕ)
take_seq inner ptype subtype pos =
    if not (ptype == type_management) || not (subtype == 2)
    then (if ltb (length inner) (pos + 2)
        then err too_short
        else ok (some (from_le16 (get_or inner pos 0) (get_or inner (pos + 1) 0) / 16), pos + 2))
    else ok (none, pos)

-- Which of A3 and A4 follow: the flags of the first Short ID.
unfoldable pub address_flags : Pv1Addr → Pv1Addr → Bool × Bool
address_flags (sid s) a2 = (s.a3_present, s.a4_present)
address_flags (mac a) (sid s) = (s.a3_present, s.a4_present)
address_flags (mac a) (mac b) = (false, false)

unfoldable pub take_optional : Bool → List ℕ → ℕ → Result (Option MacAddr × ℕ)
unfolding take_mac
take_optional present inner pos = elim present [
  | false ↦ ok (none, pos)
  | true ↦ take_mac inner pos >>= λ p. ok (some p.0, p.1)
]

-- The two addresses of a Data or Management frame.
unfoldable pub take_addresses : List ℕ → ℕ → Bool → Result (Pv1Addr × Pv1Addr × ℕ)
unfolding take_mac take_sid
take_addresses inner ptype from_ds =
    if ptype == type_qos_data_mac
    then (do (a1, p) ← take_mac inner 2; (a2, q) ← take_mac inner p; ok (mac a1, mac a2, q))
    else if from_ds
    then (do (a1, p) ← take_sid inner 2; (a2, q) ← take_mac inner p; ok (a1, mac a2, q))
    else do (a1, p) ← take_mac inner 2; (a2, q) ← take_sid inner p; ok (mac a1, a2, q)

unfoldable pub parse_pv1 : List ℕ → Result Pv1Frame
parse_pv1 inner =
    let fc0 = get_or inner 0 0 in
    let fc1 = get_or inner 1 0 in
    let ptype = bit_and (fc0 / 4) 7 in
    let subtype = fc0 / 32 in
    let from_ds = not (bit_and fc1 1 == 0) in
    let protected = not (bit_and fc1 0x10 == 0) in
    let no_ack = not (bit_and fc1 0x80 == 0) in
    if ptype == type_qos_data_mac || ptype == type_qos_data || ptype == type_management
    then (do
      (a1, a2, p) ← take_addresses inner ptype from_ds
      (seq, q) ← take_seq inner ptype subtype p
      let flags = address_flags a1 a2
      (a3, r) ← take_optional flags.0 inner q
      (a4, s) ← take_optional flags.1 inner r
      ok (record {
        ptype = ptype;
        subtype = subtype;
        from_ds = from_ds;
        a1 = a1;
        a2 = a2;
        a3 = a3;
        a4 = a4;
        seq = seq;
        no_ack = no_ack;
        protected = protected;
        body = drop s inner;
      }))
    else do
      (a1, p) ← take_sid inner 2
      ok (record {
        ptype = ptype;
        subtype = subtype;
        from_ds = from_ds;
        a1 = a1;
        a2 = sid (record { aid = 0; a3_present = false; a4_present = false; amsdu = false });
        a3 = none;
        a4 = none;
        seq = none;
        no_ack = no_ack;
        protected = protected;
        body = drop p inner;
      })
