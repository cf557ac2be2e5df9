-- ===== src/Mac/Engine/Valid/Access.antt =====
-- engine.rs: the backoff and the end of an attempt keep the state well-formed.
use s2g.Base.{
  ℕ, suc, ◌+◌, ◌-◌, ◌*◌, ◌≤◌, ◌<◌, ◌≡◌, List, [], ◌∷◌, Bool, true, false, Option, none, some, ltb,
  leb, ◌&&◌, length, refl, arith, All, Bool-cases, Option-cases, inl, inr, subst,
}
use s2g.Base.Floats.{Floats}
use s2g.Mac.Addr.{MacAddr}
use s2g.Mac.Rate.Types.{RateControl}
use s2g.Mac.Rate.Bounds.Control.{ControlIsBounded, report_kept, set_fail_cost_us_kept}
use s2g.Mac.Engine.Types.{
  Mac, TxState, idle, backoff, await_response, Expect, PendingMpdu, CurrentTx,
}
use s2g.Mac.Engine.Queue.{rand_u32}
use s2g.Mac.Engine.Timing.{smooth_delay, update_response_delay, note_response, note_late_response}
use s2g.Mac.Engine.Access.{
  Resolved, resolve_one, resolve_mpdus, retry_all, start_backoff, finish_batch, continue_batch,
  resolve_batch, resolve_attempt, fail_rts, fail_attempt, is_cts, is_empty, hdr_len,
}
use s2g.Mac.Engine.Valid.Types.{MpduIsValid, BatchIsValid, BatchMatches, CoreIsValid, MacIsValid}

-- What is kept of a batch is within its retries again.
resolve_one_valid :
    (dest : MacAddr) (mcs hdr limit : ℕ) (flown acked : Bool) (m : PendingMpdu) (r : Resolved)
    → MpduIsValid limit m
    → All (MpduIsValid limit) r.kept
    → All (MpduIsValid limit) (resolve_one dest mcs hdr limit flown acked m r).kept
unfolding resolve_one
resolve_one_valid dest mcs hdr limit true true m r h k = k
resolve_one_valid dest mcs hdr limit true false m r h k =
    elim (Bool-cases (ltb limit (m.retries + 1))) [
      | inl e ↦ rw e k
      | inr e ↦ rw e ((ground arith, h.1), k)
    ]
resolve_one_valid dest mcs hdr limit false acked m r h k = (h, k)

resolve_mpdus_valid :
    (dest : MacAddr) (mcs hdr limit : ℕ) (flying : List ℕ) (acked : ℕ → Bool) (i : ℕ)
    (ms : List PendingMpdu)
    → All (MpduIsValid limit) ms
    → All (MpduIsValid limit) (resolve_mpdus dest mcs hdr limit flying acked i ms).kept
unfolding resolve_mpdus
resolve_mpdus_valid dest mcs hdr limit flying acked i [] h = tt
resolve_mpdus_valid dest mcs hdr limit flying acked i (m ∷ ms) (h, k) =
    resolve_one_valid dest mcs hdr limit _ _ m _ h
      (resolve_mpdus_valid dest mcs hdr limit flying acked (suc i) ms k)

retry_all_valid :
    (dest : MacAddr) (limit : ℕ) (ms : List PendingMpdu)
    → All (MpduIsValid limit) ms
    → All (MpduIsValid limit) (retry_all dest limit ms).0
unfolding retry_all
retry_all_valid dest limit [] h = tt
retry_all_valid dest limit (m ∷ ms) (h, k) = elim (Bool-cases (ltb limit (m.retries + 1))) [
  | inl e ↦ rw e (retry_all_valid dest limit ms k)
  | inr e ↦ rw e ((ground arith, h.1), retry_all_valid dest limit ms k)
]

module _ (fl : Floats) where
  pub start_backoff_valid :
      (now : ℕ) (m : Mac fl) (c : CurrentTx)
      → m.cur ≡ some c
      → BatchIsValid m.cfg.max_retries c
      → CoreIsValid fl m
      → MacIsValid fl (start_backoff fl now m)
  unfolding start_backoff rand_u32
  start_backoff_valid now m c e b k = record { core = k; batch = rw e b }

  pub with_rate :
      (m : Mac fl) (r : RateControl fl)
      → ControlIsBounded fl r
      → CoreIsValid fl m
      → CoreIsValid fl (record m { rate = r })
  with_rate m r b k = record {
    cw_range = k.cw_range;
    cw_least = k.cw_least;
    cw_most = k.cw_most;
    seq_lt = k.seq_lt;
    queue_le = k.queue_le;
    dedup_le = k.dedup_le;
    rate_bounded = b;
  }

  -- A new contention window.
  with_window :
      (m : Mac fl) (w : ℕ)
      → m.cfg.cw_min_exp ≤ w
      → w ≤ m.cfg.cw_max_exp
      → CoreIsValid fl m
      → CoreIsValid fl (record m { cw_exp = w })
  with_window m w p q k = record {
    cw_range = k.cw_range;
    cw_least = p;
    cw_most = q;
    seq_lt = k.seq_lt;
    queue_le = k.queue_le;
    dedup_le = k.dedup_le;
    rate_bounded = k.rate_bounded;
  }

  finish_batch_valid : (m : Mac fl) → CoreIsValid fl m → MacIsValid fl (finish_batch fl m)
  unfolding finish_batch
  finish_batch_valid m k = record {
    core = record {
      cw_range = k.cw_range;
      cw_least = omega arith;
      cw_most = k.cw_range;
      seq_lt = k.seq_lt;
      queue_le = k.queue_le;
      dedup_le = k.dedup_le;
      rate_bounded = k.rate_bounded;
    };
    batch = tt;
  }

  continue_batch_valid :
      (now : ℕ) (failed success : Bool) (c : CurrentTx) (m : Mac fl)
      → BatchIsValid m.cfg.max_retries c
      → CoreIsValid fl m
      → MacIsValid fl (continue_batch fl now failed success c m)
  unfolding continue_batch
  continue_batch_valid now failed success c m b k =
      start_backoff_valid now _ _ refl
        (record { not_empty = b.not_empty; mpdus_valid = b.mpdus_valid })
        (with_window m _ (ground arith) (ground arith) k)

  is_empty-false : (ms : List PendingMpdu) → is_empty fl ms ≡ false → 0 < length ms
  is_empty-false [] e = ground arith
  is_empty-false (m ∷ ms) e = omega arith

  resolve_batch_valid :
      (acked : ℕ → Bool) (now : ℕ) (c : CurrentTx) (m : Mac fl)
      → BatchIsValid m.cfg.max_retries c
      → CoreIsValid fl m
      → MacIsValid fl (resolve_batch fl acked now c m).0
  unfolding resolve_batch
  resolve_batch_valid acked now c m b k =
      let r =
        resolve_mpdus c.dest c.choice.mcs (hdr_len c.qos) m.cfg.max_retries c.in_flight acked 0
          c.mpdus in
      let kept_valid =
        resolve_mpdus_valid c.dest c.choice.mcs (hdr_len c.qos) m.cfg.max_retries c.in_flight acked
          0 c.mpdus b.mpdus_valid in
      let k' =
        with_rate m _
          (report_kept fl m.rate c.dest c.choice
            (ltb 0 r.delivered && leb c.lower_octets r.delivered) k.rate_bounded)
          k in
      elim (Bool-cases (is_empty fl r.kept)) [
        | inl e ↦ rw e (finish_batch_valid _ k')
        | inr e ↦ rw e (
            continue_batch_valid now _ _ _ _
              (record { not_empty = is_empty-false r.kept e; mpdus_valid = kept_valid }) k')
      ]

  pub current_valid :
      (limit : ℕ) (s : TxState) (cur' : Option CurrentTx) (c : CurrentTx)
      → BatchMatches limit s cur'
      → cur' ≡ some c
      → BatchIsValid limit c
  current_valid limit idle none c b e = absurd (ground arith)
  current_valid limit idle (some d) c b e = absurd b
  current_valid limit (backoff t) none c b e = absurd b
  current_valid limit (backoff t) (some d) c b e = subst (BatchIsValid limit) (cc) b
  current_valid limit (await_response t x) none c b e = absurd b
  current_valid limit (await_response t x) (some d) c b e = subst (BatchIsValid limit) (cc) b

  pub resolve_attempt_valid :
      (acked : ℕ → Bool) (now : ℕ) (m : Mac fl)
      → MacIsValid fl m
      → MacIsValid fl (resolve_attempt fl acked now m).0
  unfolding resolve_attempt
  resolve_attempt_valid acked now m k = elim (Option-cases m.cur) [
    | inl e ↦ rw (e, resolve_attempt) k
    | inr (c, e) ↦
        rw (e, resolve_attempt)
          (resolve_batch_valid acked now c m (current_valid _ m.state m.cur c k.batch e) k.core)
  ]

  fail_rts_valid :
      (now : ℕ) (c : CurrentTx) (m : Mac fl)
      → BatchIsValid m.cfg.max_retries c
      → CoreIsValid fl m
      → MacIsValid fl (fail_rts fl now c m).0
  unfolding fail_rts
  fail_rts_valid now c m b k =
      elim (Bool-cases (is_empty fl (retry_all c.dest m.cfg.max_retries c.mpdus).0)) [
        | inl e ↦ rw e (finish_batch_valid m k)
        | inr e ↦ rw e (
            start_backoff_valid now _ _ refl
              (record {
                not_empty = is_empty-false _ e;
                mpdus_valid = retry_all_valid c.dest m.cfg.max_retries c.mpdus b.mpdus_valid;
              })
              (with_window m _ (omega arith) (omega arith) k))
      ]

  update_response_delay_valid :
      (sample : ℕ) (m : Mac fl)
      → MacIsValid fl m
      → MacIsValid fl (update_response_delay fl sample m)
  unfolding update_response_delay smooth_delay
  update_response_delay_valid sample m k = record {
    core = with_rate m _ (set_fail_cost_us_kept fl m.rate _ k.core.rate_bounded) k.core;
    batch = k.batch;
  }

  pub note_response_valid :
      (now : ℕ) (m : Mac fl) → MacIsValid fl m → MacIsValid fl (note_response fl now m)
  unfolding note_response
  note_response_valid now m = update_response_delay_valid (now - m.sent_end_us) m

  pub note_late_response_valid :
      (now : ℕ) (m : Mac fl) → MacIsValid fl m → MacIsValid fl (note_late_response fl now m)
  unfolding note_late_response
  note_late_response_valid now m k = elim (Option-cases m.late_expect) [
    | inl e ↦ rw (e, note_late_response) k
    | inr (late, e) ↦
        rw (e, note_late_response)
          (elim (Bool-cases (leb (now - late.1) (2 * m.cfg.ack_timeout_us))) [
            | inl t ↦
                rw t
                  (update_response_delay_valid (now - late.1) (record m { late_expect = none }) k)
            | inr f ↦ rw f k
          ])
  ]

  fail_awaited_valid :
      (now deadline : ℕ) (x : Expect) (m : Mac fl)
      → m.state ≡ await_response deadline x
      → MacIsValid fl m
      → MacIsValid fl (fail_attempt fl now m).0
  unfolding fail_attempt
  fail_awaited_valid now deadline x m s k =
      rw (s, fail_attempt)
        (elim (Bool-cases (is_cts fl x)) [
          | inl t ↦ rw t (elim (Option-cases m.cur) [
            | inl e ↦ rw e k
            | inr (c, e) ↦
                rw e (fail_rts_valid now c _ (current_valid _ m.state m.cur c k.batch e) k.core)
          ])
          | inr f ↦ rw f (
              resolve_attempt_valid (λ seq. false) now
                (record m { late_expect = some (x, m.sent_end_us) }) k)
        ])

  pub fail_attempt_valid :
      (now : ℕ) (m : Mac fl) → MacIsValid fl m → MacIsValid fl (fail_attempt fl now m).0
  unfolding fail_attempt
  fail_attempt_valid now m k = by_cases m.state refl
    where
      by_cases : (s : TxState) → m.state ≡ s → MacIsValid fl (fail_attempt fl now m).0
      by_cases idle e = rw (e, fail_attempt) (resolve_attempt_valid (λ seq. false) now m k)
      by_cases (backoff t) e = rw (e, fail_attempt) (resolve_attempt_valid (λ seq. false) now m k)
      by_cases (await_response t x) e = fail_awaited_valid now t x m e k
