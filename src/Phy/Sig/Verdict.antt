-- ===== src/Phy/Sig/Verdict.antt =====
-- sig.rs: what the receiver does with a valid field.
use s2g.Base.{
  ℕ, ◌+◌, ◌/◌, ◌%◌, max, Bool, true, false, Option, none, some, if◌then◌else◌, not, ◌&&◌, ◌||◌,
  ◌==◌, ltb, is_some,
}
use s2g.Phy.Params.{n_dbps_2mhz, mcs_params}
use s2g.Phy.Vector.{
  PreambleType, s1g_short, s1g_long, GuardInterval, long_gi, short_gi, Coding, bcc, ldpc, RxVector,
  default_rxvector, rx_duration_us, data_field_geometry,
}
use s2g.Phy.Sig.Frame48.{
  Reserved, stbc_with_odd_n_sts, b18_must_be_1, not_in_table, zero_length, no_streams,
}
use s2g.Phy.Sig.Fields.{
  SigFields, SigASu, SigAMu, SigContent, normal, ndp, long_su, long_mu, split_id,
}

-- Why a valid field is not decoded.
pub data Unsupported : Type 0 where
  wide_bandwidth stbc_used multiple_streams mcs_unsupported multi_user : Unsupported

pub data SigVerdict : Type 0 where
  supported : RxVector → SigVerdict
  unsupported : RxVector → Unsupported → SigVerdict
  reserved : Reserved → Option ℕ → SigVerdict

abbrev pub gi_of : Bool → GuardInterval
gi_of b = if b then short_gi else long_gi

abbrev pub coding_of : Bool → Coding
coding_of b = if b then ldpc else bcc

unfoldable pub duration_of_symbols : PreambleType → ℕ → Bool → ℕ → ℕ
duration_of_symbols preamble n_sts is_short n = rx_duration_us (record default_rxvector {
  preamble_type = preamble;
  num_sts = max n_sts 1;
  gi = gi_of is_short;
  n_sym = n;
})

-- The symbol count, if it can be derived: from the length itself, or from the number of data bits.
unfoldable pub symbols_of_fields : ℕ → Bool → ℕ → Bool → Bool → Bool → ℕ → Option ℕ
symbols_of_fields n_ss stbc mcs is_ldpc extra aggregation len =
    if aggregation then (if ltb 0 len then some len else none) else (elim (n_dbps_2mhz mcs n_ss) [
      | none ↦ none
      | some n_dbps ↦
          (elim (data_field_geometry len false (coding_of is_ldpc) (is_ldpc && extra) stbc n_dbps) [
            | none ↦ none
            | some (n, psdu) ↦ some n
          ])
    ])

unfoldable pub duration_from_fields :
    PreambleType → ℕ → Bool → Bool → ℕ → Bool → Bool → Bool → ℕ → Option ℕ
duration_from_fields preamble n_sts stbc is_short mcs is_ldpc extra aggregation len =
    let n_ss = if stbc then max (n_sts / 2) 1 else max n_sts 1 in
    elim (symbols_of_fields n_ss stbc mcs is_ldpc extra aggregation len) [
      | none ↦ none
      | some n ↦ some (duration_of_symbols preamble n_sts is_short n)
    ]

unfoldable pub short_duration : SigFields → Option ℕ
short_duration f =
    duration_from_fields s1g_short (f.nsts + 1) f.stbc f.is_short_gi f.mcs f.is_ldpc f.ldpc_extra
      f.aggregation f.sig_length

unfoldable pub su_duration : SigASu → Option ℕ
su_duration f =
    duration_from_fields s1g_long (f.nsts + 1) f.stbc f.is_short_gi f.mcs f.is_ldpc f.ldpc_extra
      f.aggregation f.sig_length

unfoldable pub total_sts : SigAMu → ℕ
total_sts f = f.nsts0 + f.nsts1 + f.nsts2 + f.nsts3

unfoldable pub mu_duration : SigAMu → Option ℕ
unfolding total_sts
mu_duration f =
    duration_from_fields s1g_long (max (total_sts f) 1) f.stbc f.is_short_gi 0 false false true
      f.sig_length

-- The modes that the receiver does not decode, in the order of the tests.
unfoldable pub why_unsupported : ℕ → Bool → ℕ → ℕ → Option Unsupported
why_unsupported bandwidth stbc n_sts mcs =
    if not (bandwidth == 0)
    then some wide_bandwidth
    else if stbc
    then some stbc_used
    else if not (n_sts == 1)
    then some multiple_streams
    else if not (is_some (mcs_params mcs))
    then some mcs_unsupported
    else none

abbrev pub classify : RxVector → Option Unsupported → SigVerdict
classify r none = supported r
classify r (some why) = unsupported r why

unfoldable pub short_rxvector : SigFields → ℕ → ℕ → RxVector
short_rxvector f n psdu = record default_rxvector {
  preamble_type = s1g_short;
  mu = false;
  bandwidth_code = f.bandwidth;
  num_sts = f.nsts + 1;
  stbc = f.stbc;
  mcs = f.mcs;
  gi = gi_of f.is_short_gi;
  fec_coding = coding_of f.is_ldpc;
  ldpc_extra = f.is_ldpc && f.ldpc_extra;
  aggregation = f.aggregation;
  response_indication = f.response_indication;
  smoothing = f.smoothing;
  traveling_pilots = f.traveling_pilots;
  uplink_indication = f.uplink_indication;
  color = (split_id f.id f.uplink_indication).0;
  partial_aid = (split_id f.id f.uplink_indication).1;
  group_id = 0;
  rx_length = f.sig_length;
  psdu_length = psdu;
  n_sym = n;
}

unfoldable pub short_verdict : SigFields → SigVerdict
short_verdict f =
    let n_sts = f.nsts + 1 in
    let n_ss = if f.stbc then n_sts / 2 else n_sts in
    if f.stbc && not (n_sts % 2 == 0)
    then reserved stbc_with_odd_n_sts (short_duration f)
    else if not f.is_ldpc && not f.ldpc_extra
    then reserved b18_must_be_1 (short_duration f)
    else (elim (n_dbps_2mhz f.mcs n_ss) [
      | none ↦ reserved not_in_table (short_duration f)
      | some n_dbps ↦
          (elim (data_field_geometry f.sig_length f.aggregation (coding_of f.is_ldpc)
            (f.is_ldpc && f.ldpc_extra) f.stbc n_dbps) [
              | none ↦ reserved zero_length (short_duration f)
              | some (n, psdu) ↦
                  classify (short_rxvector f n psdu)
                    (why_unsupported f.bandwidth f.stbc n_sts f.mcs)
            ])
    ])

unfoldable pub su_rxvector : SigASu → ℕ → ℕ → RxVector
su_rxvector f n psdu = record default_rxvector {
  preamble_type = s1g_long;
  mu = false;
  bandwidth_code = f.bandwidth;
  num_sts = f.nsts + 1;
  stbc = f.stbc;
  mcs = f.mcs;
  gi = gi_of f.is_short_gi;
  fec_coding = coding_of f.is_ldpc;
  ldpc_extra = f.is_ldpc && f.ldpc_extra;
  aggregation = f.aggregation;
  response_indication = f.response_indication;
  smoothing = f.nsts + 1 == 1 && not f.beam_change_or_smoothing;
  traveling_pilots = f.traveling_pilots;
  uplink_indication = f.uplink_indication;
  color = (split_id f.id f.uplink_indication).0;
  partial_aid = (split_id f.id f.uplink_indication).1;
  group_id = 0;
  rx_length = f.sig_length;
  psdu_length = psdu;
  n_sym = n;
}

unfoldable pub su_verdict : SigASu → SigVerdict
su_verdict f =
    let n_sts = f.nsts + 1 in
    let n_ss = if f.stbc then n_sts / 2 else n_sts in
    if f.stbc && not (n_sts % 2 == 0)
    then reserved stbc_with_odd_n_sts (su_duration f)
    else if not f.is_ldpc && not f.ldpc_extra
    then reserved b18_must_be_1 (su_duration f)
    else (elim (n_dbps_2mhz f.mcs n_ss) [
      | none ↦ reserved not_in_table (su_duration f)
      | some n_dbps ↦
          (elim (data_field_geometry f.sig_length f.aggregation (coding_of f.is_ldpc)
            (f.is_ldpc && f.ldpc_extra) f.stbc n_dbps) [
              | none ↦ reserved zero_length (su_duration f)
              | some (n, psdu) ↦
                  classify (su_rxvector f n psdu) (why_unsupported f.bandwidth f.stbc n_sts f.mcs)
            ])
    ])

-- Whether some user that has streams uses LDPC.
unfoldable pub any_ldpc : SigAMu → Bool
any_ldpc f =
    (f.ldpc0 && ltb 0 f.nsts0)
    || (f.ldpc1 && ltb 0 f.nsts1)
    || (f.ldpc2 && ltb 0 f.nsts2)
    || (f.ldpc3 && ltb 0 f.nsts3)

unfoldable pub mu_rxvector : SigAMu → RxVector
unfolding total_sts any_ldpc
mu_rxvector f = record default_rxvector {
  preamble_type = s1g_long;
  mu = true;
  bandwidth_code = f.bandwidth;
  num_sts = total_sts f;
  stbc = f.stbc;
  mcs = 0;
  gi = gi_of f.is_short_gi;
  fec_coding = coding_of (any_ldpc f);
  ldpc_extra = f.ldpc_extra;
  aggregation = true;
  response_indication = f.response_indication;
  traveling_pilots = f.traveling_pilots;
  group_id = f.group_id;
  rx_length = f.sig_length;
  psdu_length = 0;
  n_sym = f.sig_length;
}

unfoldable pub mu_verdict : SigAMu → SigVerdict
unfolding total_sts
mu_verdict f =
    if total_sts f == 0
    then reserved no_streams (mu_duration f)
    else if f.sig_length == 0
    then reserved zero_length none
    else unsupported (mu_rxvector f) multi_user

unfoldable pub content_verdict : SigContent → Option SigVerdict
content_verdict (normal f) = some (short_verdict f)
content_verdict (long_su f) = some (su_verdict f)
content_verdict (long_mu f) = some (mu_verdict f)
content_verdict (ndp body) = none
