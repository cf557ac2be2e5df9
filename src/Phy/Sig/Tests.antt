-- ===== src/Phy/Sig/Tests.antt =====
-- Fields of each kind, and the theorems on sig.rs at them.
use s2g.Base.{is_some, ◌≡◌, refl, ◌∷◌, ◌++◌, some, true, false, arith, replicate}
use s2g.Phy.Params.{
  n_dbps_2mhz, mcs_modulation_rate, dbps_of, n_bpscs, as_fraction, mcs_params, find_mcs, mcs_table,
  row,
}
use s2g.Phy.Vector.{
  data_field_geometry, TxVector, default_txvector, ndp_response, normal_response, short_gi, ldpc,
}
use s2g.Phy.Sig.Frame48.{valid, check_48, crc4, tail_bits, crc_failed}
use s2g.Phy.Sig.Fields.{
  split_id, SigFields, SigASu, SigAMu, long_mu, mu_to_bits, short_from_txvector, short_with_id,
  su_from_txvector, su_with_id, id_from_txvector, is_short, is_ldpc_coding,
}
use s2g.Phy.Sig.Parse.{parse_long}
use s2g.Phy.Sig.MultiUser.{IsMu, parse-mu_to_bits}
use s2g.Phy.Sig.Supported.{IsDecodable, supported-IsDecodable}
use s2g.Phy.Sig.Verdict.{short_verdict, short_rxvector, why_unsupported}
use s2g.Phy.Sig.Detect.{wrong_bit_refused}
use s2g.Phy.Sig.ShortLoop.{ShortReceived, short_from_txvector-received}
use s2g.Phy.Sig.LongLoop.{LongReceived, su_from_txvector-received}

abbrev txvector : TxVector
txvector = record default_txvector {
  mcs = 7;
  gi = short_gi;
  fec_coding = ldpc;
  response_indication = ndp_response;
  color = 5;
  partial_aid = 40;
}

abbrev short_field : SigFields
short_field = record {
  stbc = false;
  uplink_indication = false;
  bandwidth = 0;
  nsts = 0;
  id = 325;
  is_short_gi = true;
  is_ldpc = true;
  ldpc_extra = false;
  mcs = 7;
  smoothing = true;
  aggregation = false;
  sig_length = 100;
  response_indication = ndp_response;
  traveling_pilots = false;
}

abbrev su_field : SigASu
su_field = record {
  stbc = false;
  uplink_indication = false;
  bandwidth = 0;
  nsts = 0;
  id = 325;
  is_short_gi = true;
  is_ldpc = true;
  ldpc_extra = false;
  mcs = 7;
  beam_change_or_smoothing = false;
  aggregation = false;
  sig_length = 100;
  response_indication = ndp_response;
  traveling_pilots = false;
}

-- Two users, the second with LDPC.
abbrev mu_field : SigAMu
mu_field = record {
  stbc = false;
  nsts0 = 1;
  nsts1 = 2;
  nsts2 = 0;
  nsts3 = 0;
  bandwidth = 1;
  group_id = 33;
  is_short_gi = false;
  ldpc0 = false;
  ldpc1 = true;
  ldpc2 = true;
  ldpc3 = true;
  ldpc_extra = false;
  sig_length = 200;
  response_indication = normal_response;
  traveling_pilots = true;
}

mu_field-IsMu : IsMu mu_field
mu_field-IsMu = record {
  nsts0_fits = omega arith;
  nsts1_fits = omega arith;
  nsts2_fits = omega arith;
  nsts3_fits = omega arith;
  bandwidth_fits = omega arith;
  group_fits = omega arith;
  length_fits = omega arith;
  coding0 = λ e. absurd (omega (arith, e));
  coding1 = λ e. refl;
  coding2 = λ e. refl;
  coding3 = λ e. refl;
}

parse-mu_to_bits_example : parse_long (mu_to_bits mu_field) ≡ valid (long_mu mu_field)
parse-mu_to_bits_example = parse-mu_to_bits mu_field mu_field-IsMu

-- Bit 20 of a word of zeros is received as 1.
wrong_bit_refused_example :
    check_48 (
      (replicate 20 0 ++ 1 ∷ replicate 17 0)
      ++ (crc4 (replicate 20 0 ++ 0 ∷ replicate 17 0) ++ tail_bits))
    ≡ some crc_failed
wrong_bit_refused_example =
    wrong_bit_refused (replicate 20 0) (replicate 17 0) 0 1 refl (λ e. absurd (omega (arith, e)))

short_from_txvector-received_example : ShortReceived txvector 100 short_field
unfolding short_from_txvector short_with_id mcs_params find_mcs mcs_table row id_from_txvector
    is_short is_ldpc_coding
short_from_txvector-received_example =
    short_from_txvector-received txvector 100 false short_field refl (omega arith) (omega arith)

su_from_txvector-received_example : LongReceived txvector 100 su_field
unfolding su_from_txvector su_with_id mcs_params find_mcs mcs_table row id_from_txvector is_short
    is_ldpc_coding
su_from_txvector-received_example =
    su_from_txvector-received txvector 100 false su_field refl (omega arith) (omega arith)

supported-IsDecodable_example : IsDecodable short_field (short_rxvector short_field 4 100)
unfolding short_verdict short_rxvector split_id n_dbps_2mhz mcs_modulation_rate dbps_of n_bpscs
    as_fraction data_field_geometry why_unsupported mcs_params find_mcs mcs_table row is_some
supported-IsDecodable_example =
    supported-IsDecodable short_field (short_rxvector short_field 4 100) refl
