-- ===== src/Mac/Engine/Valid/Receive.antt =====
-- engine.rs: what is received keeps the state well-formed.
use s2g.Base.{
  ℕ, ◌≤◌, ◌≡◌, List, [], ◌∷◌, ◌++◌, Bool, true, false, ltb, ◌&&◌, not, if◌then◌else◌, length,
  length-append, length-drop, refl, arith, All, Bool-cases, Option-cases, inl, inr,
}
use s2g.Base.Floats.{Floats}
use s2g.Mac.Addr.{MacAddr}
use s2g.Mac.Eth
use s2g.Mac.Ident.{parse_ident}
use s2g.Mac.Frame.{ParsedFrame, parse}
use s2g.Mac.Frame.Pv1.{Result, ok, err}
use s2g.Mac.Filter.Policy.{Verdict, pass, dropped, unfinished, contains}
use s2g.Mac.Rate.Types.{mac_eq}
use s2g.Mac.Rate.Bounds.Control.{observe_snr_kept, observe_cfo_kept, observe_delay_spread_kept}
use s2g.Mac.Engine.Types.{Mac, is_group}
use s2g.Mac.Engine.Queue.{note_duplicate, push_seq, seqs_of, put_seqs}
use s2g.Mac.Engine.Receive.{
  extend_nav, observe, deliver, deliver_frame, Received, respond, queue_ack, on_data, on_ack,
  on_rts, on_frame, on_mpdu, pv1_received, awaits_ack, late_ack,
}
use s2g.Mac.Engine.Valid.Types.{MacIsValid}
use s2g.Mac.Engine.Valid.Access.{
  with_rate, resolve_attempt_valid, note_response_valid, note_late_response_valid,
}
use s2g.Phy.Vector.{RxVector}

push_seq-le : (seq : ℕ) (seqs : List ℕ) → length seqs ≤ 64 → length (push_seq seq seqs) ≤ 64
unfolding push_seq
push_seq-le seq seqs h = elim (Bool-cases (ltb 64 (length (seqs ++ seq ∷ [])))) [
  | inl e ↦ rw e (omega (arith, length-drop 1 (seqs ++ seq ∷ []), length-append seqs (seq ∷ [])))
  | inr e ↦ rw e (ground (arith, e))
]

seqs_of-le :
    (a : MacAddr) (d : List (MacAddr × List ℕ))
    → All (λ e. length e.1 ≤ 64) d
    → length (seqs_of a d) ≤ 64
unfolding seqs_of
seqs_of-le a [] h = omega arith
seqs_of-le a ((b, seqs) ∷ d) (h, k) = ground (arith, seqs_of-le a d k)

put_seqs_le :
    (a : MacAddr) (seqs : List ℕ) (d : List (MacAddr × List ℕ))
    → length seqs ≤ 64
    → All (λ e. length e.1 ≤ 64) d
    → All (λ e. length e.1 ≤ 64) (put_seqs a seqs d)
unfolding put_seqs
put_seqs_le a seqs [] p h = (p, tt)
put_seqs_le a seqs ((b, old) ∷ d) p (h, k) = elim (Bool-cases (mac_eq b a)) [
  | inl e ↦ rw e (p, k)
  | inr e ↦ rw e (h, put_seqs_le a seqs d p k)
]

module _ (fl : Floats) where
  note_duplicate_valid :
      (m : Mac fl) (a : MacAddr) (seq : ℕ)
      → MacIsValid fl m
      → MacIsValid fl (note_duplicate fl m a seq).1
  unfolding note_duplicate
  note_duplicate_valid m a seq k =
      let c = k.core in
      let old = seqs_of-le a m.dedup c.dedup_le in
      elim (Bool-cases (contains (seqs_of a m.dedup) seq)) [
        | inl e ↦ rw e (with_dedup (put_seqs_le a _ m.dedup old c.dedup_le))
        | inr e ↦ rw e (with_dedup (put_seqs_le a _ m.dedup (push_seq-le seq _ old) c.dedup_le))
      ]
    where
      with_dedup :
          {d : List (MacAddr × List ℕ)}
          → All (λ e. length e.1 ≤ 64) d
          → MacIsValid fl (record m { dedup = d })
      with_dedup h =
          let c = k.core in
          record {
            core = record {
              cw_range = c.cw_range;
              cw_least = c.cw_least;
              cw_most = c.cw_most;
              seq_lt = c.seq_lt;
              queue_le = c.queue_le;
              dedup_le = h;
              rate_bounded = c.rate_bounded;
            };
            batch = k.batch;
          }

  pub observe_valid :
      (a : MacAddr) (snr : fl.F32) (m : Mac fl)
      → MacIsValid fl m
      → MacIsValid fl (observe fl a snr m)
  unfolding observe
  observe_valid a snr m k = record {
    core =
        with_rate fl m _
          (observe_delay_spread_kept fl _ a m.rx_delay_spread_us (
            observe_cfo_kept fl _ a m.rx_cfo_hz
              (observe_snr_kept fl m.rate a snr k.core.rate_bounded)))
          k.core;
    batch = k.batch;
  }

  deliver_frame_valid :
      (v : Verdict) (frame : List ℕ) (m : Mac fl)
      → MacIsValid fl m
      → MacIsValid fl (deliver_frame fl v frame m).0
  unfolding deliver_frame
  deliver_frame_valid pass frame m k = k
  deliver_frame_valid (dropped r) frame m k = k
  deliver_frame_valid unfinished frame m k = k

  deliver_valid :
      (dest src : MacAddr) (body : List ℕ) (m : Mac fl)
      → MacIsValid fl m
      → MacIsValid fl (deliver fl dest src body m).0
  unfolding deliver
  deliver_valid dest src body m k = elim (Option-cases (parse_ident body)) [
    | inr (text, e) ↦ rw (e, deliver) k
    | inl e ↦
        rw (e, deliver)
          (elim (Option-cases (Eth.body_to_ethernet dest src body)) [
            | inl f ↦ rw f k
            | inr (frame, f) ↦ rw f (deliver_frame_valid _ frame m k)
          ])
  ]

  respond_valid : (r : Received fl) (m : Mac fl) → MacIsValid fl m → MacIsValid fl (respond fl r m)
  unfolding respond queue_ack
  respond_valid r m k =
      elim (Bool-cases ((m.cfg.ack_enabled && not r.no_ack) && not r.in_aggregate)) [
        | inl e ↦ rw e k
        | inr e ↦ rw e k
      ]

  answered_valid :
      (r : Received fl) (m : Mac fl) (b : Bool)
      → MacIsValid fl m
      → MacIsValid fl (if b then respond fl r m else m)
  answered_valid r m true k = respond_valid r m k
  answered_valid r m false k = k

  on_data_valid :
      (now : ℕ) (r : Received fl) (m : Mac fl)
      → MacIsValid fl m
      → MacIsValid fl ((on_data fl now r m).0).0
  unfolding on_data extend_nav
  on_data_valid now r m k =
      let seen = observe fl r.src r.snr_db m in
      let seen_valid = observe_valid r.src r.snr_db m k in
      let answered = if mac_eq r.dest m.cfg.addr then respond fl r seen else seen in
      let dup_valid =
        note_duplicate_valid answered r.src r.seq (answered_valid r seen _ seen_valid) in
      elim (Bool-cases (mac_eq r.src m.cfg.addr)) [
        | inl e ↦ rw e k
        | inr e ↦
            rw e (elim (Bool-cases (not (mac_eq r.dest m.cfg.addr) && not (is_group r.dest))) [
              | inl f ↦ rw f seen_valid
              | inr f ↦ rw f (elim (Bool-cases (note_duplicate fl answered r.src r.seq).0) [
                | inl d ↦ rw d dup_valid
                | inr d ↦ rw d (deliver_valid r.dest r.src r.body _ dup_valid)
              ])
            ])
      ]

  on_ack_valid :
      (now : ℕ) (ra : MacAddr) (m : Mac fl) → MacIsValid fl m → MacIsValid fl (on_ack fl now ra m).0
  unfolding on_ack
  on_ack_valid now ra m k = elim (Bool-cases (not (mac_eq ra m.cfg.addr))) [
    | inl e ↦ rw e k
    | inr e ↦ rw e (elim (Bool-cases (awaits_ack m.state)) [
      | inl f ↦ rw f (resolve_attempt_valid fl (λ seq. true) now _ (note_response_valid fl now m k))
      | inr f ↦ rw f (elim (Bool-cases (late_ack m.late_expect)) [
        | inl g ↦ rw g (note_late_response_valid fl now m k)
        | inr g ↦ rw g k
      ])
    ])
  ]

  on_rts_valid :
      (now : ℕ) (ra ta : MacAddr) (d : ℕ) (snr : fl.F32) (m : Mac fl)
      → MacIsValid fl m
      → MacIsValid fl (on_rts fl now ra ta d snr m)
  unfolding on_rts extend_nav
  on_rts_valid now ra ta d snr m k = elim (Bool-cases (mac_eq ra m.cfg.addr)) [
    | inl e ↦ rw e (record {
      core = with_rate fl m _ (observe_snr_kept fl m.rate ta snr k.core.rate_bounded) k.core;
      batch = k.batch;
    })
    | inr e ↦ rw e k
  ]

  on_frame_valid :
      (now : ℕ) (f : ParsedFrame) (rxv : RxVector) (snr : fl.F32) (agg : Bool) (mpdu : List ℕ)
      (m : Mac fl)
      → MacIsValid fl m
      → MacIsValid fl ((on_frame fl now f rxv snr agg mpdu m).0).0
  unfolding on_frame extend_nav
  on_frame_valid now (ParsedFrame.data_frame f) rxv snr agg mpdu m k = on_data_valid now _ m k
  on_frame_valid now (ParsedFrame.pv1 f) rxv snr agg mpdu m k =
      elim (Option-cases (pv1_received fl f rxv snr agg mpdu)) [
        | inl e ↦ rw (e, on_frame) k
        | inr (r, e) ↦ rw (e, on_frame) (on_data_valid now r m k)
      ]
  on_frame_valid now (ParsedFrame.ack ra) rxv snr agg mpdu m k = on_ack_valid now ra m k
  on_frame_valid now (ParsedFrame.rts ra ta d) rxv snr agg mpdu m k =
      on_rts_valid now ra ta d snr m k
  on_frame_valid now (ParsedFrame.other a b d) rxv snr agg mpdu m k = k

  pub on_mpdu_valid :
      (now : ℕ) (rxv : RxVector) (snr : fl.F32) (agg : Bool) (mpdu : List ℕ) (m : Mac fl)
      → MacIsValid fl m
      → MacIsValid fl ((on_mpdu fl now rxv snr agg mpdu m).0).0
  unfolding on_mpdu
  on_mpdu_valid now rxv snr agg mpdu m k = by_cases (parse mpdu) refl
    where
      by_cases :
          (r : Result ParsedFrame)
          → parse mpdu ≡ r
          → MacIsValid fl ((on_mpdu fl now rxv snr agg mpdu m).0).0
      by_cases (ok f) e =
          rw (e, on_mpdu)
            (on_frame_valid now f rxv snr agg mpdu (record m { eifs_pending = false }) k)
      by_cases (err x) e = rw (e, on_mpdu) k
