-- ===== src/Phy/Sig/RoundTrip.antt =====
-- A field that is written is read back.
use s2g.Base.{
  ℕ, ◌<◌, ◌≡◌, refl, ap, ◌∙◌, List, Bool, true, false, none, bit_of, ◌==◌, arith, get_or, ◌^◌,
}
use s2g.Phy.Bits.{uint_bits, bits_to_uint_lsb_first}
use s2g.Phy.Bits.RoundTrip.{bits_to_uint-uint_bits}
use s2g.Phy.Vector.{ResponseIndication, to_bits, from_bits}
use s2g.Phy.Vector.Geometry.{from_bits-to_bits}
use s2g.Phy.Sig.Frame48.{valid, finish_48, check_48, check-finish_48}
use s2g.Phy.Sig.Fields.{
  SigFields, SigASu, normal, long_su, short_bits, short_to_bits, su_bits, su_to_bits,
}
use s2g.Phy.Sig.Parse.{short_fields, parse_short, su_fields, parse_long, flag}

-- The numbers fit their fields.
pub record IsShort (f : SigFields) : Type 0 where
  pub bandwidth_fits : f.bandwidth < 4
  pub nsts_fits : f.nsts < 4
  pub id_fits : f.id < 512
  pub mcs_fits : f.mcs < 16
  pub length_fits : f.sig_length < 512

pub record IsSu (f : SigASu) : Type 0 where
  pub bandwidth_fits : f.bandwidth < 4
  pub nsts_fits : f.nsts < 4
  pub id_fits : f.id < 512
  pub mcs_fits : f.mcs < 16
  pub length_fits : f.sig_length < 512

pub flag-bit_of : (b : Bool) → (bit_of b == 1) ≡ b
flag-bit_of true = refl
flag-bit_of false = refl

to_bits_lt : (r : ResponseIndication) → to_bits r < 2 ^ 2
unfolding to_bits
to_bits_lt r = ground arith

pub response_read :
    (r : ResponseIndication) → from_bits (bits_to_uint_lsb_first (uint_bits (to_bits r) 2)) ≡ r
response_read r = rw (bits_to_uint-uint_bits (to_bits r) 2 (to_bits_lt r)) (from_bits-to_bits r)

short_fields_read : (f : SigFields) → IsShort f → short_fields (short_to_bits f) ≡ f
unfolding short_fields short_to_bits short_bits finish_48 uint_bits
short_fields_read f h = λ i. record {
  stbc = flag-bit_of f.stbc i;
  uplink_indication = flag-bit_of f.uplink_indication i;
  bandwidth = bits_to_uint-uint_bits f.bandwidth 2 h.bandwidth_fits i;
  nsts = bits_to_uint-uint_bits f.nsts 2 h.nsts_fits i;
  id = bits_to_uint-uint_bits f.id 9 h.id_fits i;
  is_short_gi = flag-bit_of f.is_short_gi i;
  is_ldpc = flag-bit_of f.is_ldpc i;
  ldpc_extra = flag-bit_of f.ldpc_extra i;
  mcs = bits_to_uint-uint_bits f.mcs 4 h.mcs_fits i;
  smoothing = flag-bit_of f.smoothing i;
  aggregation = flag-bit_of f.aggregation i;
  sig_length = bits_to_uint-uint_bits f.sig_length 9 h.length_fits i;
  response_indication = response_read f.response_indication i;
  traveling_pilots = flag-bit_of f.traveling_pilots i;
}

short_checked : (f : SigFields) → check_48 (short_to_bits f) ≡ none
unfolding short_to_bits short_bits uint_bits
short_checked f = check-finish_48 (short_bits f) refl

-- The bits that say which format it is.
short_marks :
    (f : SigFields) → (flag (short_to_bits f) 37 ≡ false) × (flag (short_to_bits f) 0 ≡ true)
unfolding short_to_bits short_bits finish_48 uint_bits
short_marks f = (refl, refl)

accept_short :
    (bits : List ℕ)
    → check_48 bits ≡ none
    → flag bits 37 ≡ false
    → flag bits 0 ≡ true
    → parse_short bits ≡ valid (normal (short_fields bits))
unfolding parse_short
accept_short bits c m0 m1 = ground (arith, c, m0, m1)

-- The receiver reads back every SIG field whose numbers fit their widths.
pub parse-short_to_bits :
    (f : SigFields) → IsShort f → parse_short (short_to_bits f) ≡ valid (normal f)
parse-short_to_bits f h =
    accept_short (short_to_bits f) (short_checked f) (short_marks f).0 (short_marks f).1
    ∙ ap (λ g. valid (normal g)) (short_fields_read f h)

su_fields_read : (f : SigASu) → IsSu f → su_fields (su_to_bits f) ≡ f
unfolding su_fields su_to_bits su_bits finish_48 uint_bits
su_fields_read f h = λ i. record {
  stbc = flag-bit_of f.stbc i;
  uplink_indication = flag-bit_of f.uplink_indication i;
  bandwidth = bits_to_uint-uint_bits f.bandwidth 2 h.bandwidth_fits i;
  nsts = bits_to_uint-uint_bits f.nsts 2 h.nsts_fits i;
  id = bits_to_uint-uint_bits f.id 9 h.id_fits i;
  is_short_gi = flag-bit_of f.is_short_gi i;
  is_ldpc = flag-bit_of f.is_ldpc i;
  ldpc_extra = flag-bit_of f.ldpc_extra i;
  mcs = bits_to_uint-uint_bits f.mcs 4 h.mcs_fits i;
  beam_change_or_smoothing = flag-bit_of f.beam_change_or_smoothing i;
  aggregation = flag-bit_of f.aggregation i;
  sig_length = bits_to_uint-uint_bits f.sig_length 9 h.length_fits i;
  response_indication = response_read f.response_indication i;
  traveling_pilots = flag-bit_of f.traveling_pilots i;
}

su_checked : (f : SigASu) → check_48 (su_to_bits f) ≡ none
unfolding su_to_bits su_bits uint_bits
su_checked f = check-finish_48 (su_bits f) refl

su_marks :
    (f : SigASu) → ((get_or (su_to_bits f) 0 0 == 0) ≡ true) × (flag (su_to_bits f) 36 ≡ true)
unfolding su_to_bits su_bits finish_48 uint_bits
su_marks f = (refl, refl)

accept_su :
    (bits : List ℕ)
    → check_48 bits ≡ none
    → (get_or bits 0 0 == 0) ≡ true
    → flag bits 36 ≡ true
    → parse_long bits ≡ valid (long_su (su_fields bits))
unfolding parse_long
accept_su bits c m0 m1 = ground (arith, c, m0, m1)

-- The receiver reads back every SIG-A field for one user whose numbers fit their widths.
pub parse-su_to_bits : (f : SigASu) → IsSu f → parse_long (su_to_bits f) ≡ valid (long_su f)
parse-su_to_bits f h =
    accept_su (su_to_bits f) (su_checked f) (su_marks f).0 (su_marks f).1
    ∙ ap (λ g. valid (long_su g)) (su_fields_read f h)
