-- ===== src/Mac/Engine/Valid/Events.antt =====
-- engine.rs: the events of the PHY keep the state well-formed.
use s2g.Base.{
  ℕ, ◌≡◌, List, [], ◌∷◌, Bool, true, false, Option, none, some, ◌&&◌, ◌==◌, not, if◌then◌else◌,
  refl, sym, subst, arith, Bool-cases, inl, inr,
}
use s2g.Base.Floats.{Floats}
use s2g.Mac.Addr.{MacAddr}
use s2g.Mac.Ampdu.{split_psdu}
use s2g.Mac.Ndp
use s2g.Mac.Ndp.{NdpFrame, NdpAck, NdpBlockAck, NdpCts, ocb_partial_aid}
use s2g.Mac.Rate.Bounds.Control.{observe_snr_kept}
use s2g.Mac.Engine.Types.{Mac, TxState, idle, backoff, await_response, CurrentTx}
use s2g.Mac.Engine.Timing.{note_response, extend_rid, update_response_delay, smooth_delay}
use s2g.Mac.Engine.Receive.{extend_nav, observe, queue_block_ack, is_acked}
use s2g.Mac.Engine.Events.{
  RxEvent, cca, ppdu_start, rx_start, ndp_event, psdu_event, rx_end, format_violation, no_error,
  carrier_lost, unsupported_rate, truncated, awaiting, was_late, expects_ndp_ack, expects_block_ack,
  expects_cts, for_peer, observe_peer_snr, on_ndp_ack, on_block_ack, on_cts_for_us, on_cts,
  on_ndp_frame, on_ndp, on_mpdus, answer_aggregate, on_psdu, on_rx_start, on_phy_event,
  with_metrics, allow_data,
}
use s2g.Mac.Engine.Valid.Types.{BatchMatches, MacIsValid}
use s2g.Mac.Engine.Valid.Access.{
  with_rate, resolve_attempt_valid, note_response_valid, note_late_response_valid,
}
use s2g.Mac.Engine.Valid.Receive.{observe_valid, on_mpdu_valid}
use s2g.Phy.Vector.{RxVector}

allow_data_matches :
    (limit t : ℕ) (s : TxState) (cur : Option CurrentTx)
    → awaiting s expects_cts ≡ true
    → BatchMatches limit s cur
    → BatchMatches limit (backoff t) (allow_data cur)
allow_data_matches limit t idle cur e b = absurd (ground arith)
allow_data_matches limit t (backoff u) cur e b = absurd (ground arith)
allow_data_matches limit t (await_response u x) none e b = absurd b
allow_data_matches limit t (await_response u x) (some c) e b = record {
  not_empty = b.not_empty;
  mpdus_valid = b.mpdus_valid;
}

module _ (fl : Floats) where
  observe_peer_snr_valid :
      (snr : fl.F32) (a : MacAddr) (m : Mac fl)
      → MacIsValid fl m
      → MacIsValid fl (observe_peer_snr fl snr a m)
  unfolding observe_peer_snr
  observe_peer_snr_valid snr a m k = record {
    core = with_rate fl m _ (observe_snr_kept fl m.rate a snr k.core.rate_bounded) k.core;
    batch = k.batch;
  }

  for_peer_valid :
      (o : Option CurrentTx) (f : MacAddr → Mac fl → Mac fl) (m : Mac fl)
      → ((a : MacAddr) (n : Mac fl) → MacIsValid fl n → MacIsValid fl (f a n))
      → MacIsValid fl m
      → MacIsValid fl (for_peer fl o f m)
  for_peer_valid none f m h k = k
  for_peer_valid (some c) f m h k = h c.dest m k

  nav_valid :
      (now d : ℕ) (b : Bool) (m : Mac fl)
      → MacIsValid fl m
      → MacIsValid fl (if b then extend_nav fl now d m else m)
  unfolding extend_nav
  nav_valid now d true m k = k
  nav_valid now d false m k = k

  on_ndp_ack_valid :
      (now : ℕ) (a : NdpAck) (snr : fl.F32) (m : Mac fl)
      → MacIsValid fl m
      → MacIsValid fl (on_ndp_ack fl now a snr m).0
  unfolding on_ndp_ack
  on_ndp_ack_valid now a snr m k =
      elim (Bool-cases (awaiting m.state (λ e. expects_ndp_ack e a.ack_id))) [
        | inl e ↦ rw e (
            nav_valid now a.duration _ _ (
              resolve_attempt_valid fl (λ seq. true) now _
                (for_peer_valid m.cur (λ dest. observe fl dest snr) _
                  (λ dest. observe_valid fl dest snr) (note_response_valid fl now m k))))
        | inr e ↦
            rw e (elim (Bool-cases (was_late m.late_expect (λ e. expects_ndp_ack e a.ack_id))) [
              | inl f ↦ rw f (nav_valid now a.duration _ _ (note_late_response_valid fl now m k))
              | inr f ↦ rw f (nav_valid now a.duration _ m k)
            ])
      ]

  on_block_ack_valid :
      (now : ℕ) (b : NdpBlockAck) (snr : fl.F32) (m : Mac fl)
      → MacIsValid fl m
      → MacIsValid fl (on_block_ack fl now b snr m).0
  unfolding on_block_ack
  on_block_ack_valid now b snr m k =
      elim (Bool-cases (awaiting m.state (λ e. expects_block_ack e b.block_ack_id))) [
        | inl e ↦ rw e (
            resolve_attempt_valid fl (is_acked b) now _ (
              for_peer_valid m.cur (observe_peer_snr fl snr) _ (observe_peer_snr_valid snr)
                (note_response_valid fl now m k)))
        | inr e ↦
            rw e
              (elim (Bool-cases
                (was_late m.late_expect (λ e. expects_block_ack e b.block_ack_id))) [
                  | inl f ↦ rw f (note_late_response_valid fl now m k)
                  | inr f ↦ rw f k
                ])
      ]

  -- What is observed of the peer leaves the transmission alone.
  for_peer_state :
      (o : Option CurrentTx) (snr : fl.F32) (m : Mac fl)
      → (for_peer fl o (observe_peer_snr fl snr) m).state ≡ m.state
  unfolding observe_peer_snr
  for_peer_state none snr m = refl
  for_peer_state (some c) snr m = refl

  noted_awaiting :
      (now : ℕ) (snr : fl.F32) (m : Mac fl)
      → awaiting m.state expects_cts ≡ true
      → awaiting
          (note_response fl now (for_peer fl m.cur (observe_peer_snr fl snr) m)).state
          expects_cts
        ≡ true
  unfolding note_response update_response_delay smooth_delay
  noted_awaiting now snr m e =
      subst (λ (s : TxState). awaiting s expects_cts ≡ true) (sym (for_peer_state m.cur snr m)) e

  allowed_valid :
      (now : ℕ) (m : Mac fl)
      → awaiting m.state expects_cts ≡ true
      → MacIsValid fl m
      → MacIsValid fl (record m { cur = allow_data m.cur; state = backoff now })
  allowed_valid now m e k = record {
    core = k.core;
    batch = allow_data_matches m.cfg.max_retries now m.state m.cur e k.batch;
  }

  on_cts_for_us_valid :
      (now : ℕ) (snr : fl.F32) (m : Mac fl)
      → MacIsValid fl m
      → MacIsValid fl (on_cts_for_us fl now snr m)
  unfolding on_cts_for_us
  on_cts_for_us_valid now snr m k =
      let seen = for_peer fl m.cur (observe_peer_snr fl snr) m in
      let seen_valid =
        for_peer_valid m.cur (observe_peer_snr fl snr) m (observe_peer_snr_valid snr) k in
      elim (Bool-cases (awaiting m.state expects_cts)) [
        | inl e ↦ rw e (
            allowed_valid now (note_response fl now seen) (noted_awaiting now snr m e)
              (note_response_valid fl now seen seen_valid))
        | inr e ↦ rw e (elim (Bool-cases (was_late m.late_expect expects_cts)) [
          | inl f ↦ rw f (note_late_response_valid fl now seen seen_valid)
          | inr f ↦ rw f seen_valid
        ])
      ]

  on_ndp_frame_valid :
      (now : ℕ) (f : NdpFrame) (snr : fl.F32) (m : Mac fl)
      → MacIsValid fl m
      → MacIsValid fl (on_ndp_frame fl now f snr m).0
  unfolding on_ndp_frame on_cts extend_nav
  on_ndp_frame_valid now (NdpFrame.ack a) snr m k = on_ndp_ack_valid now a snr m k
  on_ndp_frame_valid now (NdpFrame.block_ack b) snr m k = on_block_ack_valid now b snr m k
  on_ndp_frame_valid now (NdpFrame.cts c) snr m k =
      elim (Bool-cases (not c.address_indicator && c.ra_pbssid == ocb_partial_aid m.cfg.addr)) [
        | inl e ↦ rw e (on_cts_for_us_valid now snr m k)
        | inr e ↦ rw e k
      ]
  on_ndp_frame_valid now (NdpFrame.other t body) snr m k = k

  rid_valid :
      (until : ℕ) (b : Bool) (m : Mac fl)
      → MacIsValid fl m
      → MacIsValid fl (if b then extend_rid fl until m else m)
  unfolding extend_rid
  rid_valid until true m k = k
  rid_valid until false m k = k

  on_ndp_valid :
      (now : ℕ) (f : NdpFrame) (snr : fl.F32) (m : Mac fl)
      → MacIsValid fl m
      → MacIsValid fl (on_ndp fl now f snr m).0
  unfolding on_ndp
  on_ndp_valid now f snr m k = on_ndp_frame_valid now f snr _ (rid_valid _ _ m k)

  on_mpdus_valid :
      (now : ℕ) (rxv : RxVector) (snr : fl.F32) (agg : Bool) (mpdus : List (List ℕ × Bool))
      (m : Mac fl)
      → MacIsValid fl m
      → MacIsValid fl ((on_mpdus fl now rxv snr agg mpdus m).0).0
  unfolding on_mpdus
  on_mpdus_valid now rxv snr agg [] m k = k
  on_mpdus_valid now rxv snr agg ((mpdu, eof) ∷ mpdus) m k =
      on_mpdus_valid now rxv snr agg mpdus _ (on_mpdu_valid fl now rxv snr agg mpdu m k)

  answer_aggregate_valid :
      (rxv : RxVector) (covered : List (MacAddr × ℕ)) (m : Mac fl)
      → MacIsValid fl m
      → MacIsValid fl (answer_aggregate fl rxv covered m)
  unfolding answer_aggregate queue_block_ack
  answer_aggregate_valid rxv [] m k = k
  answer_aggregate_valid rxv ((a, seq) ∷ rest) m k = k

  on_psdu_valid :
      (now : ℕ) (rxv : RxVector) (snr : fl.F32) (psdu : List ℕ) (m : Mac fl)
      → MacIsValid fl m
      → MacIsValid fl (on_psdu fl now rxv snr psdu m).0
  unfolding on_psdu
  on_psdu_valid now rxv snr psdu m k =
      answer_aggregate_valid rxv _ _
        (on_mpdus_valid now rxv snr _ (split_psdu psdu rxv.aggregation) m k)

  pub on_phy_event_valid :
      (now : ℕ) (ev : RxEvent fl) (m : Mac fl)
      → MacIsValid fl m
      → MacIsValid fl (on_phy_event fl now ev m).0
  unfolding on_phy_event on_rx_start
  on_phy_event_valid now (cca busy hold) m k = k
  on_phy_event_valid now ppdu_start m k = k
  on_phy_event_valid now (rx_start rxv) m k = rid_valid _ _ _ k
  on_phy_event_valid now (ndp_event body metrics) m k =
      on_ndp_valid now (Ndp.parse body) metrics.snr_db (with_metrics fl metrics m) k
  on_phy_event_valid now (rx_end format_violation) m k = k
  on_phy_event_valid now (rx_end no_error) m k = k
  on_phy_event_valid now (rx_end carrier_lost) m k = k
  on_phy_event_valid now (rx_end unsupported_rate) m k = k
  on_phy_event_valid now (rx_end truncated) m k = k
  on_phy_event_valid now (psdu_event rxv snr psdu metrics) m k =
      on_psdu_valid now rxv snr psdu (with_metrics fl metrics m) k
