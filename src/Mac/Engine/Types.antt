-- ===== src/Mac/Engine/Types.antt =====
-- engine.rs: the configuration, events, actions and state of the engine. Times are unbounded numbers of
-- microseconds, and counters are unbounded.
use s2g.Base.{
  ℕ, ◌+◌, ◌*◌, ◌/◌, ◌%◌, ◌^◌, List, [], ◌∷◌, Bool, true, false, Option, none, bit_and, bit_xor,
  bit_or, ◌==◌, not,
}
use s2g.Base.Floats.{Floats}
use s2g.Mac.Addr.{MacAddr, octets}
use s2g.Mac.Ndp.{NdpFrame}
use s2g.Mac.Filter.Policy.{FilterConfig, Reason, off}
use s2g.Mac.Ident.{IdentConfig, default_ident}
use s2g.Mac.Rate.Types.{RateConfig, RateControl, TxChoice, default_config}
use s2g.Mac.Rate.Select.{new_control}
use s2g.Phy.Tx.{GeometryError}
use s2g.Phy.Vector.{Coding, GuardInterval, long_gi, bcc, TxVector}

pub data MacError : Type 0 where
  queue_full bad_ethernet frame_too_big : MacError
  filtered_out : Reason → MacError
  phy : GeometryError → MacError

abbrev pub ampdu_max : ℕ
ampdu_max = 16

abbrev pub sifs_us : ℕ
sifs_us = 160

abbrev pub slot_time_us : ℕ
slot_time_us = 52

abbrev pub ndp_tx_time_us : ℕ
ndp_tx_time_us = 240

pub data DropReason : Type 0 where
  retry_limit build_failed : DropReason

pub data MacEvent : Type 0 where
  eth_received : List ℕ → MacEvent
  tx_complete : (dest : MacAddr) (acked : Bool) (retries mcs : ℕ) → MacEvent
  tx_dropped : (dest : MacAddr) → DropReason → MacEvent
  ndp_received : NdpFrame → MacEvent
  ident_sent : List ℕ → MacEvent
  ident_received : MacAddr → List ℕ → MacEvent
  filtered : Reason → MacEvent

pub data MacAction : Type 0 where
  transmit : TxVector → List ℕ → MacAction
  transmit_ndp : ℕ → MacAction

pub data Expect : Type 0 where
  expect_ack : Expect
  expect_ndp_ack : (ack_id : ℕ) → Expect
  expect_ndp_block_ack : (block_ack_id : ℕ) → Expect
  expect_ndp_cts : (partial_aid : ℕ) → Expect

pub data TxState : Type 0 where
  idle : TxState
  backoff : (until_us : ℕ) → TxState
  await_response : (deadline_us : ℕ) → Expect → TxState

pub record PendingMpdu : Type 0 where
  pub seq : ℕ
  pub body : List ℕ
  pub retries : ℕ

pub record CurrentTx : Type 0 where
  pub dest : MacAddr
  pub src : MacAddr
  pub mpdus : List PendingMpdu
  pub in_flight : List ℕ
  pub attempts : ℕ
  pub rate_failures : ℕ
  pub cts_ok : Bool
  pub choice : TxChoice
  pub lower_octets : ℕ
  pub qos : Bool
  pub ident : Bool

pub data Response : Type 0 where
  ndp_body : ℕ → Response
  frame_psdu : List ℕ → Response

-- `single` has the MPDU whose Ack ID is computed.
pub record Attempt : Type 0 where
  pub in_flight : List ℕ
  pub psdu : List ℕ
  pub aggregated : Bool
  pub single : Option (List ℕ)

pub record Queued : Type 0 where
  pub dest : MacAddr
  pub src : MacAddr
  pub body : List ℕ

-- `addr[0] & 1 != 0`
unfoldable pub is_group : MacAddr → Bool
is_group m = not (bit_and m.a 1 == 0)

-- The number after a sequence number.
unfoldable pub succ_seq : ℕ → ℕ
succ_seq s = bit_and (s + 1) 0x0fff

module _ (fl : Floats) where
  pub record MacConfig : Type 0 where
    pub addr : MacAddr
    pub mcs : ℕ
    pub fec_coding : Coding
    pub gi : GuardInterval
    pub traveling_pilots : Bool
    pub ack_enabled : Bool
    pub ndp_ack : Bool
    pub rts_threshold : Option ℕ
    pub ack_timeout_us : ℕ
    pub ack_timeout_adaptive : Bool
    pub max_retries : ℕ
    pub cw_min_exp : ℕ
    pub cw_max_exp : ℕ
    pub slot_us : ℕ
    pub difs_us : ℕ
    pub long_tx_time_us : ℕ
    pub queue_limit : ℕ
    pub rate : RateConfig fl
    pub ampdu_max_mpdus : ℕ
    pub ident : IdentConfig
    pub filter : FilterConfig

  abbrev pub default_mac_config : MacAddr → MacConfig
  default_mac_config a = record {
    addr = a;
    mcs = 0;
    fec_coding = bcc;
    gi = long_gi;
    traveling_pilots = false;
    ack_enabled = true;
    ndp_ack = true;
    rts_threshold = none;
    ack_timeout_us = 150000;
    ack_timeout_adaptive = true;
    max_retries = 3;
    cw_min_exp = 4;
    cw_max_exp = 10;
    slot_us = slot_time_us;
    difs_us = sifs_us + 2 * slot_time_us;
    long_tx_time_us = 3008;
    queue_limit = 64;
    rate = default_config fl;
    ampdu_max_mpdus = 16;
    ident = default_ident;
    filter = off;
  }

  -- The hash map of sequence numbers is an association list.
  pub record Mac : Type 0 where
    pub cfg : MacConfig
    pub seq : ℕ
    pub queue : List Queued
    pub cur : Option CurrentTx
    pub responses : List Response
    pub state : TxState
    pub cca_busy : Bool
    pub busy_until_us : ℕ
    pub nav_until_us : ℕ
    pub rid_until_us : ℕ
    pub last_ppdu_end_us : ℕ
    pub eifs_pending : Bool
    pub cw_exp : ℕ
    pub dedup : List (MacAddr × List ℕ)
    pub rng : ℕ
    pub rate : RateControl fl
    pub last_ident_us : Option ℕ
    pub sent_since_ident : Bool
    pub last_data_tx_us : ℕ
    pub rx_cfo_hz : fl.F32
    pub rx_delay_spread_us : fl.F32
    pub filtered_egress : ℕ
    pub filtered_ingress : ℕ
    pub resp_srtt_us : Option ℕ
    pub resp_rttvar_us : ℕ
    pub sent_end_us : ℕ
    pub late_expect : Option (Expect × ℕ)

  unfoldable pub mix_address : ℕ → List ℕ → ℕ
  mix_address a [] = a
  mix_address a (b ∷ bs) = mix_address (bit_xor (bit_xor (a * 2 ^ 8 % 2 ^ 64) b) (a / 2 ^ 3)) bs

  unfoldable pub new_mac : MacConfig → Mac
  new_mac cfg' = record {
    cfg = cfg';
    seq = 0;
    queue = [];
    cur = none;
    responses = [];
    state = idle;
    cca_busy = false;
    busy_until_us = 0;
    nav_until_us = 0;
    rid_until_us = 0;
    last_ppdu_end_us = 0;
    eifs_pending = false;
    cw_exp = cfg'.cw_min_exp;
    dedup = [];
    rng = bit_or (mix_address 0x9E3779B9 (octets cfg'.addr)) 1;
    rate = new_control fl (record cfg'.rate { fail_cost_us = cfg'.ack_timeout_us });
    last_ident_us = none;
    sent_since_ident = false;
    last_data_tx_us = 0;
    rx_cfo_hz = fl.single.of_nat 0;
    rx_delay_spread_us = fl.single.of_nat 0;
    filtered_egress = 0;
    filtered_ingress = 0;
    resp_srtt_us = none;
    resp_rttvar_us = 0;
    sent_end_us = 0;
    late_expect = none;
  }
