-- ===== src/Mac/Engine/Events.antt =====
-- engine.rs: the events of the PHY (`on_phy_event`) and NDP CMAC frames (`on_ndp`).
use s2g.Base.{
  ℕ, ◌+◌, ◌-◌, max, List, [], ◌∷◌, ◌++◌, Bool, true, false, Option, none, some, ltb, ◌==◌, ◌&&◌,
  not, if◌then◌else◌,
}
use s2g.Base.Floats.{Floats}
use s2g.Mac.Addr.{MacAddr}
use s2g.Mac.Ampdu.{split_psdu}
use s2g.Mac.Ndp
use s2g.Mac.Ndp.{NdpFrame, NdpAck, NdpBlockAck, NdpCts, ocb_partial_aid}
use s2g.Mac.Rate.Select.{observe_snr}
use s2g.Mac.Engine.Types.{
  Mac, TxState, idle, backoff, await_response, Expect, expect_ack, expect_ndp_ack,
  expect_ndp_block_ack, expect_ndp_cts, MacEvent, ndp_received, CurrentTx,
}
use s2g.Mac.Engine.Timing.{
  note_response, note_late_response, extend_rid, rid_length_us, ndp_rid_length_us,
}
use s2g.Mac.Engine.Access.{resolve_attempt}
use s2g.Mac.Engine.Receive.{observe, extend_nav, is_acked, on_mpdu, queue_block_ack}
use s2g.Phy.Params.{t_preamble_us}
use s2g.Phy.Vector.{RxVector, rx_duration_us}

-- The tests of the response that is awaited, and of the one that timed out.
unfoldable pub expects_ndp_ack : Expect → ℕ → Bool
expects_ndp_ack (expect_ndp_ack i) id = i == id
expects_ndp_ack expect_ack id = false
expects_ndp_ack (expect_ndp_block_ack i) id = false
expects_ndp_ack (expect_ndp_cts i) id = false

unfoldable pub expects_block_ack : Expect → ℕ → Bool
expects_block_ack (expect_ndp_block_ack i) id = i == id
expects_block_ack expect_ack id = false
expects_block_ack (expect_ndp_ack i) id = false
expects_block_ack (expect_ndp_cts i) id = false

unfoldable pub expects_cts : Expect → Bool
expects_cts (expect_ndp_cts i) = true
expects_cts expect_ack = false
expects_cts (expect_ndp_ack i) = false
expects_cts (expect_ndp_block_ack i) = false

abbrev pub awaiting : TxState → (Expect → Bool) → Bool
awaiting idle test = false
awaiting (backoff until) test = false
awaiting (await_response deadline expect) test = test expect

abbrev pub was_late : Option (Expect × ℕ) → (Expect → Bool) → Bool
was_late none test = false
was_late (some (expect, end)) test = test expect

-- The batch may be sent, without another RTS.
abbrev pub allow_data : Option CurrentTx → Option CurrentTx
allow_data none = none
allow_data (some c) = some (record c { cts_ok = true })

-- What the PHY measures of a reception, as far as the engine reads it.
pub record RxMetrics (fl : Floats) : Type 0 where
  pub snr_db : fl.F32
  pub cfo_hz : fl.F32
  pub delay_spread_us : fl.F32

pub data RxEndStatus : Type 0 where
  no_error format_violation carrier_lost unsupported_rate truncated : RxEndStatus

-- The SNR that an RXVECTOR reports stands beside it.
pub data RxEvent (fl : Floats) : Type 0 where
  cca : (busy : Bool) (hold_us : ℕ) → RxEvent fl
  ppdu_start : RxEvent fl
  rx_start : RxVector → RxEvent fl
  ndp_event : (body : ℕ) → RxMetrics fl → RxEvent fl
  psdu_event : RxVector → (snr_db : fl.F32) → (psdu : List ℕ) → RxMetrics fl → RxEvent fl
  rx_end : RxEndStatus → RxEvent fl

module _ (fl : Floats) where
  -- `if let Some(c) = &self.cur`
  abbrev pub for_peer : Option CurrentTx → (MacAddr → Mac fl → Mac fl) → Mac fl → Mac fl
  for_peer none f m = m
  for_peer (some c) f m = f c.dest m

  unfoldable pub observe_peer_snr : fl.F32 → MacAddr → Mac fl → Mac fl
  observe_peer_snr snr a m = record m { rate = observe_snr fl m.rate a snr }

  unfoldable pub on_ndp_ack : ℕ → NdpAck → fl.F32 → Mac fl → Mac fl × List MacEvent
  unfolding extend_nav observe
  on_ndp_ack now a snr m =
      let done : Mac fl × List MacEvent =
        if awaiting m.state (λ e. expects_ndp_ack e a.ack_id)
        then resolve_attempt fl (λ seq. true) now
            (for_peer m.cur (λ dest. observe fl dest snr) (note_response fl now m))
        else if was_late m.late_expect (λ e. expects_ndp_ack e a.ack_id)
        then (note_late_response fl now m, [])
        else (m, []) in
      (if not a.idle_indication then extend_nav fl now a.duration done.0 else done.0, done.1)

  unfoldable pub on_block_ack : ℕ → NdpBlockAck → fl.F32 → Mac fl → Mac fl × List MacEvent
  unfolding observe_peer_snr
  on_block_ack now b snr m =
      if awaiting m.state (λ e. expects_block_ack e b.block_ack_id)
      then resolve_attempt fl (is_acked b) now
          (for_peer m.cur (observe_peer_snr snr) (note_response fl now m))
      else if was_late m.late_expect (λ e. expects_block_ack e b.block_ack_id)
      then (note_late_response fl now m, [])
      else (m, [])

  -- The CTS that was awaited: the data goes out at once.
  unfoldable pub on_cts_for_us : ℕ → fl.F32 → Mac fl → Mac fl
  unfolding observe_peer_snr
  on_cts_for_us now snr m =
      let seen = for_peer m.cur (observe_peer_snr snr) m in
      if awaiting m.state expects_cts
      then (let answered = note_response fl now seen in
          record answered { cur = allow_data answered.cur; state = backoff now })
      else if was_late m.late_expect expects_cts
      then note_late_response fl now seen
      else seen

  unfoldable pub on_cts : ℕ → NdpCts → fl.F32 → Mac fl → Mac fl
  unfolding on_cts_for_us extend_nav
  on_cts now c snr m =
      if not c.address_indicator && c.ra_pbssid == ocb_partial_aid m.cfg.addr
      then on_cts_for_us now snr m
      else extend_nav fl now c.duration_us m

  -- The match on the frame, after its RID.
  unfoldable pub on_ndp_frame : ℕ → NdpFrame → fl.F32 → Mac fl → Mac fl × List MacEvent
  unfolding on_ndp_ack on_block_ack on_cts
  on_ndp_frame now (NdpFrame.ack a) snr m = on_ndp_ack now a snr m
  on_ndp_frame now (NdpFrame.block_ack b) snr m = on_block_ack now b snr m
  on_ndp_frame now (NdpFrame.cts c) snr m = (on_cts now c snr m, [])
  on_ndp_frame now (NdpFrame.other t body) snr m = (m, [])

  unfoldable pub on_ndp : ℕ → NdpFrame → fl.F32 → Mac fl → Mac fl × List MacEvent
  on_ndp now f snr m =
      let rid = ndp_rid_length_us fl m f in
      on_ndp_frame now f snr (if ltb 0 rid then extend_rid fl (now + rid) m else m)

  -- The MPDUs of a PSDU, in order: the state, the events, and the sender and sequence numbers that a
  -- BlockAck has to cover.
  unfoldable pub on_mpdus :
      ℕ
      → RxVector
      → fl.F32
      → Bool
      → List (List ℕ × Bool)
      → Mac fl
      → (Mac fl × List MacEvent) × List (MacAddr × ℕ)
  on_mpdus now rxv snr agg [] m = ((m, []), [])
  on_mpdus now rxv snr agg ((mpdu, eof) ∷ mpdus) m =
      let first = on_mpdu fl now rxv snr agg mpdu m in
      let rest = on_mpdus now rxv snr agg mpdus (first.0).0 in
      (
        ((rest.0).0, (first.0).1 ++ (rest.0).1),
        elim first.1 [ none ↦ rest.1 | some covered ↦ covered ∷ rest.1 ],
      )

  abbrev pub seqs_covered : List (MacAddr × ℕ) → List ℕ
  seqs_covered [] = []
  seqs_covered ((a, seq) ∷ rest) = seq ∷ seqs_covered rest

  -- The sender of the last MPDU is the one that is answered.
  abbrev pub last_sender : MacAddr → List (MacAddr × ℕ) → MacAddr
  last_sender a [] = a
  last_sender a ((b, seq) ∷ rest) = last_sender b rest

  unfoldable pub answer_aggregate : RxVector → List (MacAddr × ℕ) → Mac fl → Mac fl
  answer_aggregate rxv [] m = m
  answer_aggregate rxv ((a, seq) ∷ rest) m =
      queue_block_ack fl rxv (last_sender a rest) (seqs_covered ((a, seq) ∷ rest)) m

  -- `mpdus.len() == 1 && mpdus[0].1`
  abbrev pub is_single_eof : List (List ℕ × Bool) → Bool
  is_single_eof [] = false
  is_single_eof ((mpdu, eof) ∷ []) = eof
  is_single_eof (x ∷ y ∷ mpdus) = false

  unfoldable pub on_psdu : ℕ → RxVector → fl.F32 → List ℕ → Mac fl → Mac fl × List MacEvent
  on_psdu now rxv snr psdu m =
      let mpdus = split_psdu psdu rxv.aggregation in
      let s_mpdu = rxv.aggregation && is_single_eof mpdus in
      let all = on_mpdus now rxv snr (rxv.aggregation && not s_mpdu) mpdus m in
      (answer_aggregate rxv all.1 (all.0).0, (all.0).1)

  abbrev pub with_metrics : RxMetrics fl → Mac fl → Mac fl
  with_metrics metrics m = record m {
    rx_cfo_hz = metrics.cfo_hz;
    rx_delay_spread_us = metrics.delay_spread_us;
  }

  -- The SIG is known 240 microseconds into the PPDU.
  unfoldable pub on_rx_start : ℕ → RxVector → Mac fl → Mac fl
  on_rx_start now rxv m =
      let end = now + (rx_duration_us rxv - t_preamble_us) in
      let rid = rid_length_us fl m rxv in
      let m' = record m { busy_until_us = max m.busy_until_us end; last_ppdu_end_us = end } in
      if ltb 0 rid then extend_rid fl (end + rid) m' else m'

  unfoldable pub on_phy_event : ℕ → RxEvent fl → Mac fl → Mac fl × List MacEvent
  unfolding on_rx_start on_psdu
  on_phy_event now (cca busy hold) m = (
    record m {
      cca_busy = busy;
      busy_until_us =
          if busy && ltb 0 hold then max m.busy_until_us (now + hold) else m.busy_until_us;
    },
    [],
  )
  on_phy_event now ppdu_start m =
      (record m { busy_until_us = max m.busy_until_us (now + t_preamble_us) }, [])
  on_phy_event now (rx_start rxv) m = (on_rx_start now rxv m, [])
  on_phy_event now (ndp_event body metrics) m =
      let f = Ndp.parse body in
      let r = on_ndp now f metrics.snr_db (with_metrics metrics m) in
      (r.0, r.1 ++ ndp_received f ∷ [])
  on_phy_event now (rx_end format_violation) m = (record m { eifs_pending = true }, [])
  on_phy_event now (rx_end no_error) m = (m, [])
  on_phy_event now (rx_end carrier_lost) m = (m, [])
  on_phy_event now (rx_end unsupported_rate) m = (m, [])
  on_phy_event now (rx_end truncated) m = (m, [])
  on_phy_event now (psdu_event rxv snr psdu metrics) m =
      on_psdu now rxv snr psdu (with_metrics metrics m)
