-- ===== src/Phy/Vector.antt =====
-- crates/s2g-phy/src/vector.rs: the contract of PHY and MAC. The floating-point measurements of an
-- RXVECTOR (rssi_dbfs, rcpi_dbm, snr_db) are left out.
pub mod Geometry
mod Tests
use s2g.Base.{
  ℕ, zero, suc, ◌+◌, ◌-◌, ◌*◌, ◌/◌, ◌%◌, max, ◌==◌, ltb, if◌then◌else◌, Bool, true, false, Option,
  none, some,
}
use s2g.Phy.Params.{
  n_ltf, n_service, n_tail, t_dltf_us, t_dstf_us, t_ltf_us, t_preamble_us, t_sigb_us, t_syml_us,
  t_syms_us,
}

pub data GuardInterval : Type 0 where
  long_gi short_gi : GuardInterval

pub data Coding : Type 0 where
  bcc ldpc : Coding

pub data PreambleType : Type 0 where
  s1g_short s1g_long : PreambleType

pub data ResponseIndication : Type 0 where
  no_response ndp_response normal_response long_response : ResponseIndication

unfoldable pub to_bits : ResponseIndication → ℕ
to_bits no_response = 0
to_bits ndp_response = 1
to_bits normal_response = 2
to_bits long_response = 3

unfoldable pub from_bits : ℕ → ResponseIndication
from_bits v =
    if v % 4 == 0
    then no_response
    else if v % 4 == 1
    then ndp_response
    else if v % 4 == 2
    then normal_response
    else long_response

pub record TxVector : Type 0 where
  pub mcs : ℕ
  pub preamble_type : PreambleType
  pub gi : GuardInterval
  pub fec_coding : Coding
  pub aggregation : Bool
  pub response_indication : ResponseIndication
  pub scrambler_seed : Option ℕ
  pub smoothing : Bool
  pub traveling_pilots : Bool
  pub uplink_indication : Bool
  pub color : ℕ
  pub partial_aid : ℕ

abbrev pub default_txvector : TxVector
default_txvector = record {
  mcs = 0;
  preamble_type = s1g_short;
  gi = long_gi;
  fec_coding = bcc;
  aggregation = false;
  response_indication = no_response;
  scrambler_seed = none;
  smoothing = true;
  traveling_pilots = false;
  uplink_indication = false;
  color = 0;
  partial_aid = 0;
}

pub record RxVector : Type 0 where
  pub preamble_type : PreambleType
  pub mu : Bool
  pub bandwidth_code : ℕ
  pub num_sts : ℕ
  pub stbc : Bool
  pub mcs : ℕ
  pub gi : GuardInterval
  pub fec_coding : Coding
  pub ldpc_extra : Bool
  pub aggregation : Bool
  pub response_indication : ResponseIndication
  pub smoothing : Bool
  pub traveling_pilots : Bool
  pub uplink_indication : Bool
  pub color : ℕ
  pub partial_aid : ℕ
  pub group_id : ℕ
  pub rx_length : ℕ
  pub psdu_length : ℕ
  pub n_sym : ℕ
  pub scrambler_seed : ℕ
  pub rssi : ℕ
  pub rcpi : ℕ

abbrev pub default_rxvector : RxVector
default_rxvector = record {
  preamble_type = s1g_short;
  mu = false;
  bandwidth_code = 0;
  num_sts = 1;
  stbc = false;
  mcs = 0;
  gi = long_gi;
  fec_coding = bcc;
  ldpc_extra = false;
  aggregation = false;
  response_indication = no_response;
  smoothing = false;
  traveling_pilots = false;
  uplink_indication = false;
  color = 0;
  partial_aid = 0;
  group_id = 0;
  rx_length = 0;
  psdu_length = 0;
  n_sym = 0;
  scrambler_seed = 0;
  rssi = 0;
  rcpi = 255;
}

-- The subtraction of 1 is as the source's: there is always an LTF.
unfoldable pub preamble_duration_us : RxVector → ℕ
preamble_duration_us r = elim r.preamble_type [
  | s1g_short ↦ t_preamble_us + (n_ltf r.num_sts - 1) * t_ltf_us
  | s1g_long ↦ t_preamble_us + t_dstf_us + n_ltf r.num_sts * t_dltf_us + t_sigb_us
]

unfoldable pub data_duration_us : RxVector → ℕ
data_duration_us r = elim r.gi [
  | long_gi ↦ r.n_sym * t_syml_us
  | short_gi ↦ if r.n_sym == 0 then 0 else t_syml_us + (r.n_sym - 1) * t_syms_us
]

-- The method of RxVector; the function of the same name applies it to a one-stream vector.
unfoldable pub rx_duration_us : RxVector → ℕ
rx_duration_us r = preamble_duration_us r + data_duration_us r

unfoldable pub ppdu_duration_us : PreambleType → GuardInterval → ℕ → ℕ
ppdu_duration_us preamble gi' n =
    rx_duration_us
      (record default_rxvector { preamble_type = preamble; gi = gi'; n_sym = n; num_sts = 1 })

-- `div_ceil`, for divisors that are not 0: the source divides by numbers of data bits, of which the
-- MCS tables hold positive ones only.
abbrev pub div_ceil : ℕ → ℕ → ℕ
div_ceil a b = (a + (b - 1)) / b

abbrev pub m_stbc : Bool → ℕ
m_stbc stbc' = if stbc' then 2 else 1

-- N_SYM and PSDU_LENGTH
unfoldable pub data_field_geometry : ℕ → Bool → Coding → Bool → Bool → ℕ → Option (ℕ × ℕ)
data_field_geometry len true bcc extra stbc' n_dbps =
    if ltb 0 len then some (len, (len * n_dbps - (n_service + n_tail)) / 8) else none
data_field_geometry len false bcc extra stbc' n_dbps =
    if len == 0
    then none
    else some (m_stbc stbc' * div_ceil (8 * len + n_service + n_tail) (m_stbc stbc' * n_dbps), len)
data_field_geometry len true ldpc extra stbc' n_dbps =
    let e = if extra then m_stbc stbc' else 0 in
    if len == 0
    then none
    else if ltb len e
    then none
    else some (len, (max (len - e) 1 * n_dbps - n_service) / 8)
data_field_geometry len false ldpc extra stbc' n_dbps =
    let n_init = m_stbc stbc' * div_ceil (8 * len + n_service) (m_stbc stbc' * n_dbps) in
    if len == 0 then none else some (n_init + (if extra then m_stbc stbc' else 0), len)
