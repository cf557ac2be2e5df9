-- ===== src/Mac/Engine/Timing.antt =====
-- engine.rs: the response wait, the medium, and response indication deferral (RID).
use s2g.Base.{
  ℕ, ◌+◌, ◌-◌, ◌*◌, ◌/◌, max, min, Bool, Option, none, some, ltb, leb, ◌==◌, ◌&&◌, ◌||◌,
  if◌then◌else◌,
}
use s2g.Base.Floats.{Floats}
use s2g.Mac.Addr.{MacAddr}
use s2g.Mac.Ndp.{NdpFrame}
use s2g.Mac.Rate.Types.{TxChoice}
use s2g.Mac.Rate.Select.{set_fail_cost_us, current}
use s2g.Mac.Engine.Types.{Mac, sifs_us, ndp_tx_time_us}
use s2g.Phy.Vector.{
  RxVector, default_txvector, no_response, ndp_response, normal_response, long_response,
}
use s2g.Phy.Tx.{txtime_us, planned_or}

abbrev pub min_response_timeout_us : ℕ
min_response_timeout_us = 5000

abbrev pub response_headroom_us : ℕ
response_headroom_us = 4000

unfoldable pub abs_diff : ℕ → ℕ → ℕ
abs_diff a b = (a - b) + (b - a)

module _ (fl : Floats) where
  unfoldable pub normal_tx_time_us : ℕ → ℕ
  normal_tx_time_us octets = planned_or (txtime_us fl default_txvector octets) 1000

  -- `clamp` on numbers; its bounds never cross.
  unfoldable pub response_timeout_us : Mac fl → ℕ
  response_timeout_us m = elim m.resp_srtt_us [
    | none ↦ m.cfg.ack_timeout_us
    | some srtt ↦
        if m.cfg.ack_timeout_adaptive
        then min
            (max (srtt + max (4 * m.resp_rttvar_us) (srtt / 2) + response_headroom_us)
              (min min_response_timeout_us m.cfg.ack_timeout_us))
            m.cfg.ack_timeout_us
        else m.cfg.ack_timeout_us
  ]

  unfoldable pub response_delay_us : Mac fl → Option (ℕ × ℕ)
  response_delay_us m = elim m.resp_srtt_us [
    | none ↦ none
    | some s ↦ some (s, response_timeout_us m)
  ]

  -- The estimate of the response delay, with a new sample.
  unfoldable pub smooth_delay : ℕ → Mac fl → Mac fl
  unfolding abs_diff
  smooth_delay sample m = record m {
    resp_rttvar_us = elim m.resp_srtt_us [
      | none ↦ sample / 2
      | some srtt ↦ (3 * m.resp_rttvar_us + abs_diff sample srtt) / 4
    ];
    resp_srtt_us = elim m.resp_srtt_us [
      | none ↦ some sample
      | some srtt ↦ some ((7 * srtt + sample) / 8)
    ];
  }

  unfoldable pub update_response_delay : ℕ → Mac fl → Mac fl
  unfolding smooth_delay
  update_response_delay sample m =
      let m' = smooth_delay sample m in
      record m' { rate = set_fail_cost_us fl (response_timeout_us m') m'.rate }

  unfoldable pub note_response : ℕ → Mac fl → Mac fl
  note_response now m = update_response_delay (now - m.sent_end_us) m

  unfoldable pub note_late_response : ℕ → Mac fl → Mac fl
  note_late_response now m = elim m.late_expect [
    | none ↦ m
    | some late ↦
        let m' = record m { late_expect = none } in
        if leb (now - late.1) (2 * m.cfg.ack_timeout_us)
        then update_response_delay (now - late.1) m'
        else m'
  ]

  unfoldable pub medium_busy : Mac fl → ℕ → Bool
  medium_busy m now =
      m.cca_busy || ltb now m.busy_until_us || ltb now m.nav_until_us || ltb now m.rid_until_us

  unfoldable pub eifs_us : Mac fl → ℕ
  eifs_us m = sifs_us + ndp_tx_time_us + m.cfg.difs_us

  unfoldable pub fixed_choice : Mac fl → TxChoice
  fixed_choice m = record { mcs = m.cfg.mcs; gi = m.cfg.gi; fec_coding = m.cfg.fec_coding }

  unfoldable pub peer_rate : Mac fl → MacAddr → Option TxChoice
  peer_rate m a = if m.cfg.rate.enabled then current fl m.rate a else none

  unfoldable pub rid_length_us : Mac fl → RxVector → ℕ
  rid_length_us m rxv = elim rxv.response_indication [
    | no_response ↦ 0
    | ndp_response ↦ ndp_tx_time_us + sifs_us
    | normal_response ↦ normal_tx_time_us (if rxv.aggregation then 32 else 14) + sifs_us
    | long_response ↦ m.cfg.long_tx_time_us + sifs_us
  ]

  unfoldable pub extend_rid : ℕ → Mac fl → Mac fl
  extend_rid until m = record m { rid_until_us = max m.rid_until_us until }

  -- Of the other NDP types, 1 is PS-Poll, 5 a beamforming report poll and 7 a probe request.
  unfoldable pub ndp_rid_length_us : Mac fl → NdpFrame → ℕ
  ndp_rid_length_us m (NdpFrame.ack a) =
      if a.idle_indication && a.duration == 0 then m.cfg.long_tx_time_us + sifs_us else 0
  ndp_rid_length_us m (NdpFrame.block_ack b) = 0
  ndp_rid_length_us m (NdpFrame.cts c) = 0
  ndp_rid_length_us m (NdpFrame.other t body) =
      if t == 1 || t == 7
      then ndp_tx_time_us + sifs_us
      else if t == 5
      then m.cfg.long_tx_time_us + sifs_us
      else 0
