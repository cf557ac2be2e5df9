-- ===== src/Mac/Engine/Receive.antt =====
-- engine.rs: what is received: MPDUs and the acknowledgments they ask for.
use s2g.Base.{
  ℕ, ◌+◌, ◌-◌, ◌%◌, ◌^◌, max, min, List, [], ◌∷◌, ◌++◌, Bool, true, false, Option, none, some, ltb,
  ◌==◌, ◌&&◌, not, if◌then◌else◌, bit_and, bit_or,
}
use s2g.Base.Floats.{Floats}
use s2g.Mac.Addr.{MacAddr}
use s2g.Mac.Eth
use s2g.Mac.Ident.{parse_ident}
use s2g.Mac.Frame.{ParsedFrame, DataFrame, parse, build_ack}
use s2g.Mac.Frame.Pv1.{ok, err, Pv1Addr, mac, sid, Pv1Frame, type_qos_data_mac}
use s2g.Mac.Ndp.{NdpFrame, NdpBlockAck, to_body, ack_id_for_mpdu, block_ack_id, ocb_partial_aid}
use s2g.Mac.Filter.{check}
use s2g.Mac.Filter.Policy.{Verdict, pass, dropped, unfinished}
use s2g.Mac.Rate.Types.{mac_eq}
use s2g.Mac.Rate.Select.{observe_snr, observe_cfo, observe_delay_spread}
use s2g.Mac.Engine.Types.{
  Mac, TxState, idle, backoff, await_response, Expect, expect_ack, expect_ndp_ack,
  expect_ndp_block_ack, expect_ndp_cts, MacEvent, eth_received, ident_received, filtered, Response,
  ndp_body, frame_psdu, is_group, sifs_us, ndp_tx_time_us,
}
use s2g.Mac.Engine.Queue.{note_duplicate}
use s2g.Mac.Engine.Timing.{note_response, note_late_response}
use s2g.Mac.Engine.Access.{resolve_attempt}
use s2g.Phy.Vector.{RxVector, no_response, ndp_response, normal_response, long_response}

-- What a single MPDU is acknowledged with.
unfoldable pub ack_response : RxVector → List ℕ → MacAddr → List Response
ack_response rxv mpdu src = elim rxv.response_indication [
  | ndp_response ↦
      ndp_body (
        to_body (
          NdpFrame.ack (record {
            ack_id = ack_id_for_mpdu rxv.scrambler_seed mpdu;
            more_data = false;
            idle_indication = false;
            duration = 0;
            relayed_frame = false;
          })))
      ∷ []
  | normal_response ↦ frame_psdu (build_ack src) ∷ []
  | no_response ↦ []
  | long_response ↦ []
]

-- `s.wrapping_sub(ssn) & 0x0fff`
unfoldable pub seq_distance : ℕ → ℕ → ℕ
seq_distance ssn s = (s + 65536 - ssn) % 65536 % 4096

-- The bitmap with a bit for every sequence number less than sixteen places behind the first.
unfoldable pub block_ack_bitmap : ℕ → ℕ → List ℕ → ℕ
unfolding seq_distance
block_ack_bitmap ssn bits [] = bits
block_ack_bitmap ssn bits (s ∷ seqs) =
    let d = seq_distance ssn s in
    block_ack_bitmap ssn (if ltb d 16 then bit_or bits (2 ^ d) else bits) seqs

unfoldable pub block_ack_response : RxVector → MacAddr → List ℕ → List Response
block_ack_response rxv src [] = []
block_ack_response rxv src (ssn ∷ seqs) = elim rxv.response_indication [
  | ndp_response ↦
      ndp_body (
        to_body (
          NdpFrame.block_ack (record {
            block_ack_id = block_ack_id rxv.scrambler_seed;
            starting_sequence = ssn;
            bitmap = block_ack_bitmap ssn 0 (ssn ∷ seqs);
          })))
      ∷ []
  | normal_response ↦ frame_psdu (build_ack src) ∷ []
  | no_response ↦ []
  | long_response ↦ []
]

-- Whether an acknowledgment covers a sequence number.
unfoldable pub is_acked : NdpBlockAck → ℕ → Bool
unfolding seq_distance
is_acked b seq =
    let d = seq_distance b.starting_sequence seq in ltb d 16 && not (bit_and b.bitmap (2 ^ d) == 0)

abbrev pub awaits_ack : TxState → Bool
awaits_ack idle = false
awaits_ack (backoff until) = false
awaits_ack (await_response t expect_ack) = true
awaits_ack (await_response t (expect_ndp_ack i)) = false
awaits_ack (await_response t (expect_ndp_block_ack i)) = false
awaits_ack (await_response t (expect_ndp_cts i)) = false

abbrev pub late_ack : Option (Expect × ℕ) → Bool
late_ack none = false
late_ack (some (expect_ack, t)) = true
late_ack (some (expect_ndp_ack i, t)) = false
late_ack (some (expect_ndp_block_ack i, t)) = false
late_ack (some (expect_ndp_cts i, t)) = false

module _ (fl : Floats) where
  unfoldable pub queue_ack : RxVector → List ℕ → MacAddr → Mac fl → Mac fl
  queue_ack rxv mpdu src m = record m { responses = m.responses ++ ack_response rxv mpdu src }

  unfoldable pub queue_block_ack : RxVector → MacAddr → List ℕ → Mac fl → Mac fl
  queue_block_ack rxv src seqs m = record m {
    responses = m.responses ++ block_ack_response rxv src seqs;
  }

  -- The NAV of a frame for another station.
  unfoldable pub extend_nav : ℕ → ℕ → Mac fl → Mac fl
  extend_nav now duration m = record m {
    nav_until_us = if ltb 0 duration then max m.nav_until_us (now + duration) else m.nav_until_us;
  }

  -- What rate control learns of a sender.
  unfoldable pub observe : MacAddr → fl.F32 → Mac fl → Mac fl
  observe a snr m = record m {
    rate =
        observe_delay_spread fl (observe_cfo fl (observe_snr fl m.rate a snr) a m.rx_cfo_hz) a
          m.rx_delay_spread_us;
  }

  -- What the filter's verdict makes of a frame from the air.
  unfoldable pub deliver_frame : Verdict → List ℕ → Mac fl → Mac fl × List MacEvent
  deliver_frame pass frame m = (m, eth_received frame ∷ [])
  deliver_frame (dropped r) frame m =
      (record m { filtered_ingress = m.filtered_ingress + 1 }, filtered r ∷ [])
  deliver_frame unfinished frame m = (m, [])

  -- The body of a data frame, which is not a duplicate.
  unfoldable pub deliver : MacAddr → MacAddr → List ℕ → Mac fl → Mac fl × List MacEvent
  unfolding deliver_frame
  deliver dest src body m = elim (parse_ident body) [
    | some text ↦ (m, ident_received src text ∷ [])
    | none ↦ (elim (Eth.body_to_ethernet dest src body) [
      | none ↦ (m, [])
      | some frame ↦
          deliver_frame (if m.cfg.filter.ingress then check m.cfg.filter frame else pass) frame m
    ])
  ]

  -- A data MPDU as its header gives it, with what surrounds it.
  pub record Received : Type 0 where
    pub dest : MacAddr
    pub src : MacAddr
    pub seq : ℕ
    pub duration_us : ℕ
    pub no_ack : Bool
    pub body : List ℕ
    pub rxv : RxVector
    pub snr_db : fl.F32
    pub in_aggregate : Bool
    pub mpdu : List ℕ

  -- This station is the responder.
  unfoldable pub respond : Received → Mac fl → Mac fl
  unfolding queue_ack
  respond r m =
      let m' = record m { rid_until_us = 0 } in
      if (m.cfg.ack_enabled && not r.no_ack) && not r.in_aggregate
      then queue_ack r.rxv r.mpdu r.src m'
      else m'

  abbrev pub wants_block_ack : Mac fl → Received → Option (MacAddr × ℕ)
  wants_block_ack m r =
      if mac_eq r.dest m.cfg.addr && (m.cfg.ack_enabled && not r.no_ack) && r.in_aggregate
      then some (r.src, r.seq)
      else none

  -- The state, the events, and what a BlockAck has to cover.
  unfoldable pub on_data : ℕ → Received → Mac fl → (Mac fl × List MacEvent) × Option (MacAddr × ℕ)
  unfolding observe respond deliver
  on_data now r m =
      let seen = observe r.src r.snr_db m in
      let answered = if mac_eq r.dest m.cfg.addr then respond r seen else seen in
      let dup = note_duplicate fl answered r.src r.seq in
      if mac_eq r.src m.cfg.addr
      then ((m, []), none)
      else if not (mac_eq r.dest m.cfg.addr) && not (is_group r.dest)
      then ((extend_nav now r.duration_us seen, []), none)
      else if dup.0
      then ((dup.1, []), wants_block_ack m r)
      else (deliver r.dest r.src r.body dup.1, wants_block_ack m r)

  unfoldable pub on_ack : ℕ → MacAddr → Mac fl → Mac fl × List MacEvent
  on_ack now ra m =
      if not (mac_eq ra m.cfg.addr)
      then (m, [])
      else if awaits_ack m.state
      then resolve_attempt fl (λ seq. true) now (note_response fl now m)
      else if late_ack m.late_expect
      then (note_late_response fl now m, [])
      else (m, [])

  -- The NDP CTS that answers an RTS.
  unfoldable pub cts_for : MacAddr → ℕ → Response
  cts_for ta duration = ndp_body (
      to_body (
        NdpFrame.cts (record {
          address_indicator = false;
          ra_pbssid = ocb_partial_aid ta;
          duration_us = min (duration - (sifs_us + ndp_tx_time_us)) 0x7fff;
          early_sector_indicator = false;
          bandwidth = 1;
        })))

  unfoldable pub on_rts : ℕ → MacAddr → MacAddr → ℕ → fl.F32 → Mac fl → Mac fl
  unfolding extend_nav
  on_rts now ra ta duration snr m =
      if mac_eq ra m.cfg.addr
      then record m {
        rate = observe_snr fl m.rate ta snr;
        rid_until_us = 0;
        responses = m.responses ++ cts_for ta duration ∷ [];
      }
      else extend_nav now duration m

  -- A PV1 frame is a data MPDU when its type is QoS Data with both addresses in full.
  unfoldable pub pv1_received : Pv1Frame → RxVector → fl.F32 → Bool → List ℕ → Option Received
  pv1_received f rxv' snr agg mpdu' = pv1_parts f.ptype f.a1 f.a2 f.seq
    where
      pv1_parts : ℕ → Pv1Addr → Pv1Addr → Option ℕ → Option Received
      pv1_parts t (mac dest') (mac src') (some seq') =
          if t == type_qos_data_mac
          then some (record {
            dest = dest';
            src = src';
            seq = seq';
            duration_us = 0;
            no_ack = f.no_ack;
            body = f.body;
            rxv = rxv';
            snr_db = snr;
            in_aggregate = agg;
            mpdu = mpdu';
          })
          else none
      pv1_parts t (mac dest') (mac src') none = none
      pv1_parts t (mac dest') (sid s) q = none
      pv1_parts t (sid s) b q = none

  abbrev data_received : DataFrame → RxVector → fl.F32 → Bool → List ℕ → Received
  data_received f rxv' snr agg mpdu' = record {
    dest = f.dest;
    src = f.src;
    seq = f.seq;
    duration_us = f.duration_us;
    no_ack = false;
    body = f.body;
    rxv = rxv';
    snr_db = snr;
    in_aggregate = agg;
    mpdu = mpdu';
  }

  -- A frame that is parsed.
  unfoldable pub on_frame :
      ℕ
      → ParsedFrame
      → RxVector
      → fl.F32
      → Bool
      → List ℕ
      → Mac fl
      → (Mac fl × List MacEvent) × Option (MacAddr × ℕ)
  unfolding on_ack on_rts extend_nav
  on_frame now (ParsedFrame.data_frame f) rxv' snr agg mpdu' m =
      on_data now (data_received f rxv' snr agg mpdu') m
  on_frame now (ParsedFrame.pv1 f) rxv' snr agg mpdu' m = elim (pv1_received f rxv' snr agg mpdu') [
    | some r ↦ on_data now r m
    | none ↦ ((m, []), none)
  ]
  on_frame now (ParsedFrame.ack ra) rxv' snr agg mpdu' m = (on_ack now ra m, none)
  on_frame now (ParsedFrame.rts ra ta duration) rxv' snr agg mpdu' m =
      ((on_rts now ra ta duration snr m, []), none)
  on_frame now (ParsedFrame.other fc0 fc1 duration) rxv' snr agg mpdu' m =
      ((extend_nav now duration m, []), none)

  unfoldable pub on_mpdu :
      ℕ
      → RxVector
      → fl.F32
      → Bool
      → List ℕ
      → Mac fl
      → (Mac fl × List MacEvent) × Option (MacAddr × ℕ)
  on_mpdu now rxv' snr agg mpdu' m = elim (parse mpdu') [
    | err e ↦ ((m, []), none)
    | ok f ↦ on_frame now f rxv' snr agg mpdu' (record m { eifs_pending = false })
  ]
