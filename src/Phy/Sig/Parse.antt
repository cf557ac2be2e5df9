-- ===== src/Phy/Sig/Parse.antt =====
-- sig.rs: the decoded 48 bits read back.
use s2g.Base.{ℕ, List, Bool, none, some, if◌then◌else◌, not, ◌&&◌, ◌||◌, ◌==◌, get_or, slice, take}
use s2g.Phy.Bits.{bits_to_uint_lsb_first}
use s2g.Phy.Vector.{from_bits}
use s2g.Phy.Sig.Frame48.{
  SigResult, valid, invalid, reserved_field, sig_b0_zero, sig_a2_b12_zero, sig_a1_b2_zero,
  sig_a2_b1_zero, coding_reserved, check_48,
}
use s2g.Phy.Sig.Fields.{SigFields, SigASu, SigAMu, SigContent, normal, ndp, long_su, long_mu}
use s2g.Phy.Sig.Verdict.{short_duration, su_duration, mu_duration}

-- `bits[i] == 1`, and `bits_to_uint_lsb_first(&bits[a..b])`
abbrev pub flag : List ℕ → ℕ → Bool
flag bits i = get_or bits i 0 == 1

abbrev pub field : List ℕ → ℕ → ℕ → ℕ
field bits a b = bits_to_uint_lsb_first (slice bits a b)

unfoldable pub short_fields : List ℕ → SigFields
short_fields bits = record {
  stbc = flag bits 1;
  uplink_indication = flag bits 2;
  bandwidth = field bits 3 5;
  nsts = field bits 5 7;
  id = field bits 7 16;
  is_short_gi = flag bits 16;
  is_ldpc = flag bits 17;
  ldpc_extra = flag bits 18;
  mcs = field bits 19 23;
  smoothing = flag bits 23;
  aggregation = flag bits 24;
  sig_length = field bits 25 34;
  response_indication = from_bits (field bits 34 36);
  traveling_pilots = flag bits 36;
}

unfoldable pub parse_short : List ℕ → SigResult SigContent
parse_short bits = elim (check_48 bits) [
  | some e ↦ invalid e
  | none ↦
      if flag bits 37
      then valid (ndp (bits_to_uint_lsb_first (take 37 bits)))
      else if not (flag bits 0)
      then invalid (reserved_field sig_b0_zero (short_duration (short_fields bits)))
      else valid (normal (short_fields bits))
]

unfoldable pub su_fields : List ℕ → SigASu
su_fields bits = record {
  stbc = flag bits 1;
  uplink_indication = flag bits 2;
  bandwidth = field bits 3 5;
  nsts = field bits 5 7;
  id = field bits 7 16;
  is_short_gi = flag bits 16;
  is_ldpc = flag bits 17;
  ldpc_extra = flag bits 18;
  mcs = field bits 19 23;
  beam_change_or_smoothing = flag bits 23;
  aggregation = flag bits 24;
  sig_length = field bits 25 34;
  response_indication = from_bits (field bits 34 36);
  traveling_pilots = flag bits 37;
}

unfoldable pub mu_fields : List ℕ → SigAMu
mu_fields bits = record {
  stbc = flag bits 1;
  nsts0 = field bits 3 5;
  nsts1 = field bits 5 7;
  nsts2 = field bits 7 9;
  nsts3 = field bits 9 11;
  bandwidth = field bits 11 13;
  group_id = field bits 13 19;
  is_short_gi = flag bits 19;
  ldpc0 = flag bits 20;
  ldpc1 = flag bits 21;
  ldpc2 = flag bits 22;
  ldpc3 = flag bits 23;
  ldpc_extra = flag bits 24;
  sig_length = field bits 26 35;
  response_indication = from_bits (field bits 35 37);
  traveling_pilots = flag bits 37;
}

-- An unused user position whose coding bit is 0.
unfoldable pub coding_is_reserved : SigAMu → Bool
coding_is_reserved f =
    (f.nsts0 == 0 && not f.ldpc0)
    || (f.nsts1 == 0 && not f.ldpc1)
    || (f.nsts2 == 0 && not f.ldpc2)
    || (f.nsts3 == 0 && not f.ldpc3)

unfoldable pub parse_mu : List ℕ → SigResult SigContent
parse_mu bits =
    let f = mu_fields bits in
    if not (flag bits 2)
    then invalid (reserved_field sig_a1_b2_zero (mu_duration f))
    else if not (flag bits 25)
    then invalid (reserved_field sig_a2_b1_zero (mu_duration f))
    else if coding_is_reserved f
    then invalid (reserved_field coding_reserved (mu_duration f))
    else valid (long_mu f)

unfoldable pub parse_long : List ℕ → SigResult SigContent
parse_long bits = elim (check_48 bits) [
  | some e ↦ invalid e
  | none ↦
      if get_or bits 0 0 == 0
      then (if not (flag bits 36)
          then invalid (reserved_field sig_a2_b12_zero (su_duration (su_fields bits)))
          else valid (long_su (su_fields bits)))
      else parse_mu bits
]
