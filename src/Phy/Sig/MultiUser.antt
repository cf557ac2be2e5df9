-- ===== src/Phy/Sig/MultiUser.antt =====
-- A SIG-A field for several users that is written is read back.
use s2g.Base.{ℕ, ◌<◌, ◌≡◌, refl, ap, ◌∙◌, List, Bool, true, false, none, ◌==◌, arith, get_or}
use s2g.Phy.Bits.{uint_bits}
use s2g.Phy.Bits.RoundTrip.{bits_to_uint-uint_bits}
use s2g.Phy.Sig.Frame48.{valid, finish_48, check_48, check-finish_48}
use s2g.Phy.Sig.Fields.{SigAMu, long_mu, mu_bits, mu_to_bits, coding_bit}
use s2g.Phy.Sig.Parse.{parse_long, mu_fields, parse_mu, coding_is_reserved, flag}
use s2g.Phy.Sig.RoundTrip.{flag-bit_of, response_read}

-- The numbers fit their fields, and the coding flag of an unused position is set, as it is sent.
pub record IsMu (f : SigAMu) : Type 0 where
  pub nsts0_fits : f.nsts0 < 4
  pub nsts1_fits : f.nsts1 < 4
  pub nsts2_fits : f.nsts2 < 4
  pub nsts3_fits : f.nsts3 < 4
  pub bandwidth_fits : f.bandwidth < 4
  pub group_fits : f.group_id < 64
  pub length_fits : f.sig_length < 512
  pub coding0 : f.nsts0 ≡ 0 → f.ldpc0 ≡ true
  pub coding1 : f.nsts1 ≡ 0 → f.ldpc1 ≡ true
  pub coding2 : f.nsts2 ≡ 0 → f.ldpc2 ≡ true
  pub coding3 : f.nsts3 ≡ 0 → f.ldpc3 ≡ true

flag-coding_bit : (nsts : ℕ) (b : Bool) → (nsts ≡ 0 → b ≡ true) → (coding_bit nsts b == 1) ≡ b
unfolding coding_bit
flag-coding_bit nsts b h = ground (arith, h)

mu_fields_read : (f : SigAMu) → IsMu f → mu_fields (mu_to_bits f) ≡ f
unfolding mu_fields mu_to_bits mu_bits finish_48 uint_bits
mu_fields_read f h = λ i. record {
  stbc = flag-bit_of f.stbc i;
  nsts0 = bits_to_uint-uint_bits f.nsts0 2 h.nsts0_fits i;
  nsts1 = bits_to_uint-uint_bits f.nsts1 2 h.nsts1_fits i;
  nsts2 = bits_to_uint-uint_bits f.nsts2 2 h.nsts2_fits i;
  nsts3 = bits_to_uint-uint_bits f.nsts3 2 h.nsts3_fits i;
  bandwidth = bits_to_uint-uint_bits f.bandwidth 2 h.bandwidth_fits i;
  group_id = bits_to_uint-uint_bits f.group_id 6 h.group_fits i;
  is_short_gi = flag-bit_of f.is_short_gi i;
  ldpc0 = flag-coding_bit f.nsts0 f.ldpc0 h.coding0 i;
  ldpc1 = flag-coding_bit f.nsts1 f.ldpc1 h.coding1 i;
  ldpc2 = flag-coding_bit f.nsts2 f.ldpc2 h.coding2 i;
  ldpc3 = flag-coding_bit f.nsts3 f.ldpc3 h.coding3 i;
  ldpc_extra = flag-bit_of f.ldpc_extra i;
  sig_length = bits_to_uint-uint_bits f.sig_length 9 h.length_fits i;
  response_indication = response_read f.response_indication i;
  traveling_pilots = flag-bit_of f.traveling_pilots i;
}

mu_checked : (f : SigAMu) → check_48 (mu_to_bits f) ≡ none
unfolding mu_to_bits mu_bits uint_bits
mu_checked f = check-finish_48 (mu_bits f) refl

mu_marks :
    (f : SigAMu)
    → ((get_or (mu_to_bits f) 0 0 == 0) ≡ false)
      × (flag (mu_to_bits f) 2 ≡ true)
      × (flag (mu_to_bits f) 25 ≡ true)
unfolding mu_to_bits mu_bits finish_48 uint_bits
mu_marks f = (refl, refl, refl)

coding_sent : (f : SigAMu) → IsMu f → coding_is_reserved f ≡ false
unfolding coding_is_reserved
coding_sent f h = ground (arith, h.coding0, h.coding1, h.coding2, h.coding3)

accept_mu :
    (bits : List ℕ)
    → check_48 bits ≡ none
    → (get_or bits 0 0 == 0) ≡ false
    → flag bits 2 ≡ true
    → flag bits 25 ≡ true
    → coding_is_reserved (mu_fields bits) ≡ false
    → parse_long bits ≡ valid (long_mu (mu_fields bits))
unfolding parse_long parse_mu
accept_mu bits c m0 m2 m25 r = ground (arith, c, m0, m2, m25, r)

-- The receiver reads back every SIG-A field for several users whose numbers fit their widths and
-- whose unused positions have the coding flag set.
pub parse-mu_to_bits : (f : SigAMu) → IsMu f → parse_long (mu_to_bits f) ≡ valid (long_mu f)
parse-mu_to_bits f h =
    let read = mu_fields_read f h in
    let marks = mu_marks f in
    accept_mu (mu_to_bits f) (mu_checked f) marks.0 marks.1 marks.2
      (ap coding_is_reserved read ∙ coding_sent f h)
    ∙ ap (λ g. valid (long_mu g)) read
