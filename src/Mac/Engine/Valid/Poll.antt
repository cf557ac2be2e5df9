-- ===== src/Mac/Engine/Valid/Poll.antt =====
-- engine.rs: queueing and polling keep the state well-formed.
use s2g.Base.{
  ℕ, zero, suc, ◌+◌, ◌-◌, ◌≤◌, ◌<◌, ◌≡◌, List, [], ◌∷◌, Option, none, some, ltb, leb, ◌&&◌, length,
  length-append, refl, arith, All, Bool-cases, Option-cases, inl, inr, subst, if_both,
}
use s2g.Base.Bits.{bit_and_mask}
use s2g.Base.Floats.{Floats}
use s2g.Mac.Addr.{MacAddr}
use s2g.Mac.Eth
use s2g.Mac.Eth.{Ethernet}
use s2g.Mac.Frame.{qos_data_hdr_len}
use s2g.Mac.Filter.Policy.{Verdict, pass, dropped, unfinished}
use s2g.Mac.Rate.Types.{TxChoice, RateControl, mac_eq}
use s2g.Mac.Rate.Bounds.Control.{ControlIsBounded, select_kept, new_control_kept}
use s2g.Mac.Engine.Types.{
  Mac, MacConfig, TxState, idle, backoff, await_response, CurrentTx, MacEvent, Queued, Attempt,
  Response, succ_seq, new_mac,
}
use s2g.Mac.Engine.Queue.{enqueue_eth, enqueue_verdict, enqueue_passed, too_big, pick_seed}
use s2g.Mac.Engine.Timing.{medium_busy}
use s2g.Mac.Engine.Access.{start_backoff}
use s2g.Mac.Engine.Plan.{AttemptResult, attempt_ok, attempt_err, gather}
use s2g.Mac.Engine.Poll.{
  Polled, pull, pull_batch, pull_queued, ident_batch, ident_due, batch_max, send_rts, send_data,
  send_planned, send_attempt, sent_unanswered, choose_rate, send, access, expire, poll, poll_with,
  needs_rts, wants_ack, is_idle, is_none,
}
use s2g.Mac.Engine.Valid.Types.{MpduIsValid, BatchIsValid, BatchMatches, CoreIsValid, MacIsValid}
use s2g.Mac.Engine.Valid.Access.{with_rate, start_backoff_valid, fail_attempt_valid}

succ_seq_lt : (s : ℕ) → succ_seq s < 4096
unfolding succ_seq
succ_seq_lt s = omega (arith, bit_and_mask 12 (s + 1))

-- What is gathered is valid, and the queue only shrinks.
gather_valid :
    (limit room : ℕ) (dest src : MacAddr) (s : ℕ) (queue : List Queued)
    → s < 4096
    → All (MpduIsValid limit) (gather room dest src s queue).mpdus
      × ((gather room dest src s queue).next < 4096)
      × (length (gather room dest src s queue).rest ≤ length queue)
unfolding gather
gather_valid limit zero dest src s queue h = (tt, h, omega arith)
gather_valid limit (suc room) dest src s [] h = (tt, h, omega arith)
gather_valid limit (suc room) dest src s (q ∷ queue) h =
    let (a, b, c) = gather_valid limit room dest src (succ_seq s) queue (succ_seq_lt s) in
    elim (Bool-cases (mac_eq q.dest dest && mac_eq q.src src)) [
      | inl e ↦ rw e (((omega arith, h), a), b, omega arith)
      | inr e ↦ rw e (tt, h, omega arith)
    ]

module _ (fl : Floats) where
  with_queue :
      (m : Mac fl) (q : List Queued) (s : ℕ)
      → length q ≤ m.cfg.queue_limit
      → s < 4096
      → CoreIsValid fl m
      → CoreIsValid fl (record m { queue = q; seq = s })
  with_queue m q s p h k = record {
    cw_range = k.cw_range;
    cw_least = k.cw_least;
    cw_most = k.cw_most;
    seq_lt = h;
    queue_le = p;
    dedup_le = k.dedup_le;
    rate_bounded = k.rate_bounded;
  }

  pub new_mac_valid :
      (c : MacConfig fl) → c.cw_min_exp ≤ c.cw_max_exp → MacIsValid fl (new_mac fl c)
  unfolding new_mac
  new_mac_valid c h = record {
    core = record {
      cw_range = h;
      cw_least = omega arith;
      cw_most = h;
      seq_lt = omega arith;
      queue_le = omega arith;
      dedup_le = tt;
      rate_bounded = new_control_kept fl _;
    };
    batch = tt;
  }

  enqueue_passed_valid :
      (m : Mac fl) (frame : List ℕ) → MacIsValid fl m → MacIsValid fl (enqueue_passed fl m frame).1
  unfolding enqueue_passed
  enqueue_passed_valid m frame k = elim (Option-cases (Eth.parse_ethernet frame)) [
    | inl e ↦ rw (e, enqueue_passed) k
    | inr (f, e) ↦
        rw (e, enqueue_passed)
          (elim (Bool-cases (leb m.cfg.queue_limit (length m.queue))) [
            | inl full ↦ rw full k
            | inr room ↦
                rw room
                  (elim (Bool-cases (
                    too_big fl m
                      (qos_data_hdr_len + length (Eth.to_body f.ethertype f.payload) + 4))) [
                        | inl big ↦ rw big k
                        | inr small ↦ rw small (record {
                          core =
                              with_queue m _ m.seq
                                (ground (
                                  arith,
                                  room,
                                  length-append m.queue (
                                      record {
                                        dest = f.dest;
                                        src = f.src;
                                        body = Eth.to_body f.ethertype f.payload;
                                      }
                                      ∷ []),
                                ))
                                k.core.seq_lt k.core;
                          batch = k.batch;
                        })
                      ])
          ])
  ]

  enqueue_verdict_valid :
      (v : Verdict) (m : Mac fl) (frame : List ℕ)
      → MacIsValid fl m
      → MacIsValid fl (enqueue_verdict fl v m frame).1
  unfolding enqueue_verdict
  enqueue_verdict_valid (dropped r) m frame k = k
  enqueue_verdict_valid pass m frame k = enqueue_passed_valid m frame k
  enqueue_verdict_valid unfinished m frame k = enqueue_passed_valid m frame k

  pub enqueue_eth_valid :
      (m : Mac fl) (frame : List ℕ) → MacIsValid fl m → MacIsValid fl (enqueue_eth fl m frame).1
  unfolding enqueue_eth
  enqueue_eth_valid m frame = enqueue_verdict_valid _ m frame

  pull_batch_valid :
      (now : ℕ) (q : Queued) (qs : List Queued) (m : Mac fl)
      → length (q ∷ qs) ≤ m.cfg.queue_limit
      → CoreIsValid fl m
      → MacIsValid fl (start_backoff fl now (pull_batch fl q qs m))
  unfolding pull_batch
  pull_batch_valid now q qs m h k =
      let (a, b, c) =
        gather_valid m.cfg.max_retries (batch_max fl m q.dest - 1) q.dest q.src (succ_seq m.seq) qs
          (succ_seq_lt m.seq) in
      start_backoff_valid fl now _ _ refl
        (record { not_empty = omega arith; mpdus_valid = ((omega arith, k.seq_lt), a) })
        (with_queue m _ _ (omega arith) b k)

  pull_queued_valid :
      (now : ℕ) (queue : List Queued) (m : Mac fl)
      → length queue ≤ m.cfg.queue_limit
      → MacIsValid fl m
      → MacIsValid fl (pull_queued fl now queue m)
  unfolding pull_queued
  pull_queued_valid now [] m h k = k
  pull_queued_valid now (q ∷ qs) m h k = pull_batch_valid now q qs m h k.core

  ident_pulled_valid :
      (now : ℕ) (m : Mac fl)
      → CoreIsValid fl m
      → MacIsValid fl
          (start_backoff fl now (record m { seq = succ_seq m.seq; cur = some (ident_batch fl m) }))
  unfolding ident_batch
  ident_pulled_valid now m k =
      start_backoff_valid fl now _ _ refl
        (record { not_empty = omega arith; mpdus_valid = ((omega arith, k.seq_lt), tt) })
        (with_queue m m.queue _ k.queue_le (succ_seq_lt m.seq) k)

  pull_valid : (now : ℕ) (m : Mac fl) → MacIsValid fl m → MacIsValid fl (pull fl now m)
  unfolding pull
  pull_valid now m k = elim (Bool-cases (is_idle m.state && is_none m.cur)) [
    | inr e ↦ rw e k
    | inl e ↦ rw e (elim (Bool-cases (ident_due fl m now)) [
      | inl f ↦ rw f (ident_pulled_valid now m k.core)
      | inr f ↦ rw f (pull_queued_valid now m.queue m k.core.queue_le k)
    ])
  ]

  choose_rate_bounded :
      (c : CurrentTx) (m : Mac fl)
      → ControlIsBounded fl m.rate
      → ControlIsBounded fl (choose_rate fl c m).1
  unfolding choose_rate
  choose_rate_bounded c m k =
      let P : TxChoice × RateControl fl → Type 0 = λ r. ControlIsBounded fl r.1 in
      if_both P c.ident k (
        if_both P (wants_ack fl m c && m.cfg.rate.enabled)
          (select_kept fl m.rate c.dest c.rate_failures _ k) k)

  -- The engine that a poll leaves.
  abbrev LeavesValid : Polled fl → Type 0
  LeavesValid r = MacIsValid fl r.mac

  sent_unanswered_valid :
      (now : ℕ) (ch : TxChoice) (c : CurrentTx) (m : Mac fl)
      → CoreIsValid fl m
      → MacIsValid fl (sent_unanswered fl now ch c m).0
  unfolding sent_unanswered
  sent_unanswered_valid now ch c m k =
      let P : Mac fl × List MacEvent → Type 0 = λ r. MacIsValid fl r.0 in
      if_both P c.ident (record { core = k; batch = tt }) (record { core = k; batch = tt })

  send_attempt_valid :
      (now : ℕ) (ch : TxChoice) (duration : ℕ) (c : CurrentTx) (a : Attempt) (m : Mac fl)
      → BatchIsValid m.cfg.max_retries c
      → CoreIsValid fl m
      → MacIsValid fl (send_attempt fl now ch duration c a m).mac
  unfolding send_attempt
  send_attempt_valid now ch duration c a m b k =
      let P : Mac fl × List MacEvent → Type 0 = λ r. MacIsValid fl r.0 in
      if_both P (wants_ack fl m c)
        (record {
          core = k;
          batch = record { not_empty = b.not_empty; mpdus_valid = b.mpdus_valid };
        })
        (sent_unanswered_valid now ch c (record m { rng = ((pick_seed fl m).1).rng }) k)

  send_planned_valid :
      (r : AttemptResult) (now : ℕ) (ch : TxChoice) (duration : ℕ) (c : CurrentTx) (m : Mac fl)
      → BatchIsValid m.cfg.max_retries c
      → CoreIsValid fl m
      → MacIsValid fl (send_planned fl r now ch duration c m).mac
  unfolding send_planned
  send_planned_valid (attempt_ok a) now ch duration c m b k =
      send_attempt_valid now ch duration c a m b k
  send_planned_valid (attempt_err x) now ch duration c m b k = record { core = k; batch = tt }

  send_data_valid :
      (now : ℕ) (c : CurrentTx) (m : Mac fl)
      → BatchIsValid m.cfg.max_retries c
      → CoreIsValid fl m
      → MacIsValid fl (send_data fl now c m).mac
  unfolding send_data
  send_data_valid now c m b k =
      send_planned_valid _ now _ _ c _ b
        (with_rate fl m _ (choose_rate_bounded c m k.rate_bounded) k)

  send_rts_valid :
      (now : ℕ) (c : CurrentTx) (m : Mac fl)
      → m.cur ≡ some c
      → BatchIsValid m.cfg.max_retries c
      → CoreIsValid fl m
      → MacIsValid fl (send_rts fl now c m).mac
  unfolding send_rts
  send_rts_valid now c m e b k = record { core = k; batch = rw e b }

  send_valid :
      (now : ℕ) (cur' : Option CurrentTx) (m : Mac fl) (until : ℕ)
      → m.cur ≡ cur'
      → BatchMatches m.cfg.max_retries (backoff until) cur'
      → CoreIsValid fl m
      → MacIsValid fl (send fl now cur' m).mac
  unfolding send
  send_valid now none m until e b k = absurd b
  send_valid now (some c) m until e b k =
      if_both LeavesValid (needs_rts fl m c) (send_rts_valid now c m e b k)
        (send_data_valid now c m b k)

  backoff_again :
      (now until : ℕ) (cur' : Option CurrentTx) (m : Mac fl)
      → m.cur ≡ cur'
      → BatchMatches m.cfg.max_retries (backoff until) cur'
      → CoreIsValid fl m
      → MacIsValid fl (start_backoff fl now m)
  backoff_again now until none m e b k = absurd b
  backoff_again now until (some c) m e b k = start_backoff_valid fl now m c e b k

  access_valid :
      (s : TxState) (now : ℕ) (m : Mac fl)
      → m.state ≡ s
      → MacIsValid fl m
      → MacIsValid fl (access fl s now m).mac
  unfolding access
  access_valid idle now m e k = k
  access_valid (await_response t x) now m e k = k
  access_valid (backoff until) now m e k =
      let b : BatchMatches m.cfg.max_retries (backoff until) m.cur =
        subst (λ (s : TxState). BatchMatches m.cfg.max_retries s m.cur) e k.batch in
      if_both LeavesValid (ltb now until) k (
        if_both LeavesValid (medium_busy fl m now) (backoff_again now until m.cur m refl b k.core)
          (send_valid now m.cur m until refl b k.core))

  expire_valid :
      (s : TxState) (now : ℕ) (m : Mac fl) → MacIsValid fl m → MacIsValid fl (expire fl s now m).0
  unfolding expire
  expire_valid idle now m k = k
  expire_valid (backoff until) now m k = k
  expire_valid (await_response deadline x) now m k =
      let P : Mac fl × List MacEvent → Type 0 = λ r. MacIsValid fl r.0 in
      if_both P (leb deadline now) (fail_attempt_valid fl now m k) k

  poll_with_valid :
      (r : List Response) (now : ℕ) (m : Mac fl)
      → MacIsValid fl m
      → MacIsValid fl (poll_with fl r now m).mac
  unfolding poll_with
  poll_with_valid (r ∷ rs) now m k = k
  poll_with_valid [] now m k =
      access_valid _ now _ refl (pull_valid now _ (expire_valid m.state now m k))

  pub poll_valid : (now : ℕ) (m : Mac fl) → MacIsValid fl m → MacIsValid fl (poll fl now m).mac
  unfolding poll
  poll_valid now m = poll_with_valid m.responses now m
