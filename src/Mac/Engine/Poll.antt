-- ===== src/Mac/Engine/Poll.antt =====
-- engine.rs: `poll`, in the order of its four steps.
use s2g.Base.{
  ℕ, ◌+◌, ◌-◌, max, min, List, [], ◌∷◌, ◌++◌, Bool, true, false, Option, none, some, ltb, leb, ◌==◌,
  ◌&&◌, not, if◌then◌else◌, length, drop,
}
use s2g.Base.Floats.{Floats}
use s2g.Mac.Addr.{MacAddr, all_ones}
use s2g.Mac.Frame.{build_rts}
use s2g.Mac.Ident.{ident_body}
use s2g.Mac.Ndp.{ack_id_for_mpdu, block_ack_id, ocb_partial_aid}
use s2g.Mac.Rate.Types.{TxChoice, RateControl, next_lower, is_short_gi}
use s2g.Mac.Rate.Select.{select, current}
use s2g.Mac.Engine.Types.{
  Mac, TxState, idle, backoff, await_response, Expect, expect_ack, expect_ndp_ack,
  expect_ndp_block_ack, expect_ndp_cts, MacEvent, tx_complete, tx_dropped, build_failed, ident_sent,
  MacAction, transmit, transmit_ndp, Response, ndp_body, frame_psdu, PendingMpdu, CurrentTx,
  Attempt, Queued, ampdu_max, is_group, succ_seq, sifs_us, ndp_tx_time_us,
}
use s2g.Mac.Engine.Queue.{pick_seed}
use s2g.Mac.Engine.Timing.{response_timeout_us, medium_busy, fixed_choice, normal_tx_time_us}
use s2g.Mac.Engine.Access.{start_backoff, fail_attempt}
use s2g.Mac.Engine.Plan.{
  plan_attempt, AttemptResult, attempt_ok, attempt_err, batch_octets, octets_of, gather,
}
use s2g.Phy.Vector.{
  default_txvector, long_gi, bcc, no_response, ndp_response, normal_response, ResponseIndication,
}
use s2g.Phy.Tx.{txtime_us, planned_or}

abbrev pub robust : TxChoice
robust = record { mcs = 0; gi = long_gi; fec_coding = bcc }

-- `o.is_none_or(|d| d >= limit)`
abbrev pub none_or_from : Option ℕ → ℕ → ℕ → Bool
none_or_from none now limit = true
none_or_from (some t) now limit = leb limit (now - t)

abbrev pub is_none {ℓ} : {A : Type ℓ} → Option A → Bool
is_none none = true
is_none (some a) = false

abbrev pub exceeds : Option ℕ → ℕ → Bool
exceeds none n = false
exceeds (some t) n = ltb t n

abbrev pub is_idle : TxState → Bool
is_idle idle = true
is_idle (backoff until) = false
is_idle (await_response t e) = false

-- The dropped or completed MPDUs of a batch.
unfoldable pub all_dropped : MacAddr → List PendingMpdu → List MacEvent
all_dropped dest [] = []
all_dropped dest (m ∷ ms) = tx_dropped dest build_failed ∷ all_dropped dest ms

unfoldable pub all_complete : MacAddr → ℕ → List PendingMpdu → List MacEvent
all_complete dest mcs [] = []
all_complete dest mcs (m ∷ ms) = tx_complete dest false m.retries mcs ∷ all_complete dest mcs ms

unfoldable pub first_body : List PendingMpdu → List ℕ
first_body [] = []
first_body (m ∷ ms) = m.body

module _ (fl : Floats) where
  pub record Polled : Type 0 where
    pub action : Option MacAction
    pub mac : Mac fl
    pub events : List MacEvent

  unfoldable pub ident_due : Mac fl → ℕ → Bool
  ident_due m now = elim m.cfg.ident.callsign [
    | none ↦ false
    | some call ↦ (elim m.queue [
      | [] ↦
          m.sent_since_ident
          && leb m.cfg.ident.end_idle_us (now - m.last_data_tx_us)
          && none_or_from m.last_ident_us now 60000000
      | q ∷ qs ↦ none_or_from m.last_ident_us now m.cfg.ident.interval_us
    ])
  ]

  -- A batch that nothing has been sent of.
  abbrev pub new_batch :
      MacAddr → MacAddr → List PendingMpdu → TxChoice → (qos ident : Bool) → CurrentTx
  new_batch dest' src' mpdus' c qos' ident' = record {
    dest = dest';
    src = src';
    mpdus = mpdus';
    in_flight = [];
    attempts = 0;
    rate_failures = 0;
    cts_ok = false;
    choice = c;
    lower_octets = 0;
    qos = qos';
    ident = ident';
  }

  unfoldable pub ident_batch : Mac fl → CurrentTx
  ident_batch m =
      let call : List ℕ = elim m.cfg.ident.callsign [ none ↦ [] | some c ↦ c ] in
      new_batch all_ones m.cfg.addr
        (record { seq = m.seq; body = ident_body call m.cfg.ident.info; retries = 0 } ∷ []) robust
        false true

  -- The most MPDUs of a batch.
  unfoldable pub batch_max : Mac fl → MacAddr → ℕ
  batch_max m dest =
      if (m.cfg.ack_enabled && m.cfg.ndp_ack) && not (is_group dest)
      then min (max m.cfg.ampdu_max_mpdus 1) ampdu_max
      else 1

  abbrev pub is_several {ℓ} : {A : Type ℓ} → List A → Bool
  is_several [] = false
  is_several (x ∷ []) = false
  is_several (x ∷ y ∷ xs) = true

  -- A batch from the queue, whose head is `q`.
  unfoldable pub pull_batch : Queued → List Queued → Mac fl → Mac fl
  pull_batch q qs m =
      let g = gather (batch_max m q.dest - 1) q.dest q.src (succ_seq m.seq) qs in
      let mpdus = record { seq = m.seq; body = q.body; retries = 0 } ∷ g.mpdus in
      record m {
        queue = g.rest;
        seq = g.next;
        cur = some (new_batch q.dest q.src mpdus (fixed_choice fl m) (is_several mpdus) false);
      }

  unfoldable pub pull_queued : ℕ → List Queued → Mac fl → Mac fl
  unfolding pull_batch
  pull_queued now [] m = m
  pull_queued now (q ∷ qs) m = start_backoff fl now (pull_batch q qs m)

  -- Step 3: new work.
  unfoldable pub pull : ℕ → Mac fl → Mac fl
  unfolding pull_queued ident_batch
  pull now m =
      if is_idle m.state && is_none m.cur
      then (if ident_due m now
          then start_backoff fl now (record m { seq = succ_seq m.seq; cur = some (ident_batch m) })
          else pull_queued now m.queue m)
      else m

  abbrev pub wants_ack : Mac fl → CurrentTx → Bool
  wants_ack m c = (m.cfg.ack_enabled && not (is_group c.dest)) && not c.ident

  abbrev pub response_time : Mac fl → ℕ
  response_time m = if m.cfg.ndp_ack then ndp_tx_time_us else normal_tx_time_us fl 14

  unfoldable pub needs_rts : Mac fl → CurrentTx → Bool
  needs_rts m c =
      (wants_ack m c && not c.cts_ok) && exceeds m.cfg.rts_threshold (batch_octets c.qos c.mpdus)

  -- The Duration of an RTS: CTS, data and response.
  unfoldable pub rts_duration : Mac fl → CurrentTx → ℕ
  rts_duration m c =
      let total = batch_octets c.qos c.mpdus in
      let est : TxChoice =
        if m.cfg.rate.enabled
        then (elim (current fl m.rate c.dest) [ none ↦ fixed_choice fl m | some e ↦ e ])
        else fixed_choice fl m in
      let txv = record default_txvector {
        mcs = est.mcs;
        gi = est.gi;
        fec_coding = est.fec_coding;
        aggregation = ltb 511 total;
      } in
      let data_time = planned_or (txtime_us fl txv (min total 511)) 10000 in
      sifs_us + ndp_tx_time_us + sifs_us + data_time + sifs_us + response_time m

  unfoldable pub send_rts : ℕ → CurrentTx → Mac fl → Polled
  send_rts now c m =
      let psdu = build_rts c.dest c.src (min (rts_duration m c) 0x7fff) in
      let seed = pick_seed fl m in
      let txv = record default_txvector {
        response_indication = ndp_response;
        scrambler_seed = some seed.0;
      } in
      let airtime = planned_or (txtime_us fl txv (length psdu)) 1000 in
      record {
        action = some (transmit txv psdu);
        mac = record m {
          rng = (seed.1).rng;
          sent_end_us = now + airtime;
          state =
              await_response (now + airtime + response_timeout_us fl m)
                (expect_ndp_cts (ocb_partial_aid m.cfg.addr));
        };
        events = [];
      }

  -- What rate control or the settings choose, and the controller after it.
  unfoldable pub choose_rate : CurrentTx → Mac fl → TxChoice × RateControl fl
  choose_rate c m =
      if c.ident
      then (robust, m.rate)
      else if wants_ack m c && m.cfg.rate.enabled
      then select fl m.rate c.dest c.rate_failures (batch_octets c.qos c.mpdus)
      else (fixed_choice fl m, m.rate)

  unfoldable pub airtime_of : TxChoice → Attempt → ℕ
  airtime_of ch a =
      let txv = record default_txvector {
        mcs = ch.mcs;
        gi = ch.gi;
        fec_coding = ch.fec_coding;
        aggregation = a.aggregated;
      } in
      planned_or (txtime_us fl txv (length a.psdu)) 10000

  -- Octets at the lower rate, scaled by the ratio of the two attempts' times.
  unfoldable pub bar : ℕ → ℕ → ℕ → ℕ → ℕ
  bar turnaround lower lower_airtime airtime = fl.double.to_nat (
      fl.double.ceil (
        fl.double.div
          (fl.double.mul (fl.double.of_nat lower) (fl.double.of_nat (airtime + turnaround)))
          (fl.double.of_nat (lower_airtime + turnaround))))

  unfoldable pub lower_octets_of : Mac fl → CurrentTx → TxChoice → Attempt → ℕ → ℕ
  unfolding bar airtime_of
  lower_octets_of m c ch a duration =
      let turnaround : ℕ = elim m.resp_srtt_us [ none ↦ m.cfg.ack_timeout_us | some s ↦ s ] in
      let carried = octets_of c a.in_flight in
      let lower = max (next_lower ch.mcs) m.cfg.rate.min_mcs in
      let airtime = airtime_of ch a in
      if is_short_gi ch.gi
      then bar turnaround carried (airtime_of (record ch { gi = long_gi }) a) airtime
      else if lower == ch.mcs
      then carried
      else (elim (plan_attempt fl c lower ch.fec_coding duration) [
        | attempt_err e ↦ carried
        | attempt_ok b ↦
            bar turnaround (octets_of c b.in_flight) (airtime_of (record ch { mcs = lower }) b)
              airtime
      ])

  unfoldable pub expect_for : Mac fl → ℕ → Attempt → Expect
  expect_for m seed a =
      if m.cfg.ndp_ack
      then (elim a.single [
        | some mpdu ↦ expect_ndp_ack (ack_id_for_mpdu seed mpdu)
        | none ↦ expect_ndp_block_ack (block_ack_id seed)
      ])
      else expect_ack

  unfoldable pub indication_for : Mac fl → CurrentTx → ResponseIndication
  indication_for m c =
      if wants_ack m c
      then (if m.cfg.ndp_ack then ndp_response else normal_response)
      else no_response

  -- After an attempt that nothing answers.
  unfoldable pub sent_unanswered : ℕ → TxChoice → CurrentTx → Mac fl → Mac fl × List MacEvent
  sent_unanswered now ch c m =
      if c.ident
      then (
        record m { cur = none; state = idle; last_ident_us = some now; sent_since_ident = false },
        ident_sent (drop 8 (first_body c.mpdus)) ∷ [],
      )
      else (
        record m { cur = none; state = idle; sent_since_ident = true; last_data_tx_us = now },
        all_complete c.dest ch.mcs c.mpdus,
      )

  -- The attempt goes on the air; `m` has the controller after the choice.
  unfoldable pub send_attempt : ℕ → TxChoice → ℕ → CurrentTx → Attempt → Mac fl → Polled
  unfolding sent_unanswered
  send_attempt now ch duration c a m =
      let seed = pick_seed fl m in
      let txv = record default_txvector {
        mcs = ch.mcs;
        gi = ch.gi;
        fec_coding = ch.fec_coding;
        traveling_pilots = m.cfg.traveling_pilots;
        aggregation = a.aggregated;
        response_indication = indication_for m c;
        scrambler_seed = some seed.0;
      } in
      let airtime = airtime_of ch a in
      let sent = record m { rng = (seed.1).rng } in
      let flying = record c {
        choice = ch;
        in_flight = a.in_flight;
        lower_octets = min (lower_octets_of m c ch a duration) (octets_of c a.in_flight);
      } in
      let after : Mac fl × List MacEvent =
        if wants_ack m c
        then (
          record sent {
            cur = some flying;
            sent_end_us = now + airtime;
            state =
                await_response (now + airtime + response_timeout_us fl m) (expect_for m seed.0 a);
            sent_since_ident = true;
            last_data_tx_us = now;
          },
          [],
        )
        else sent_unanswered now ch c sent in
      record { action = some (transmit txv a.psdu); mac = after.0; events = after.1 }

  -- What became of the plan; without one the batch is dropped.
  unfoldable pub send_planned : AttemptResult → ℕ → TxChoice → ℕ → CurrentTx → Mac fl → Polled
  unfolding send_attempt
  send_planned (attempt_ok a) now ch duration c m = send_attempt now ch duration c a m
  send_planned (attempt_err e) now ch duration c m = record {
    action = none;
    mac = record m { cur = none; state = idle };
    events = all_dropped c.dest c.mpdus;
  }

  unfoldable pub send_data : ℕ → CurrentTx → Mac fl → Polled
  unfolding send_planned choose_rate
  send_data now c m =
      let chosen = choose_rate c m in
      let ch = chosen.0 in
      let duration = if wants_ack m c then min (sifs_us + response_time m) 0x7fff else 0 in
      send_planned (plan_attempt fl c ch.mcs ch.fec_coding duration) now ch duration c
        (record m { rate = chosen.1 })

  abbrev pub quiet : Mac fl → Polled
  quiet m = record { action = none; mac = m; events = [] }

  -- A backoff without a batch stands for the failed `expect`.
  unfoldable pub send : ℕ → Option CurrentTx → Mac fl → Polled
  unfolding send_data send_rts needs_rts
  send now none m = quiet m
  send now (some c) m = if needs_rts m c then send_rts now c m else send_data now c m

  -- Step 4: the end of the backoff.
  unfoldable pub access : TxState → ℕ → Mac fl → Polled
  access idle now m = quiet m
  access (await_response t e) now m = quiet m
  access (backoff until) now m =
      if ltb now until
      then quiet m
      else if medium_busy fl m now
      then quiet (start_backoff fl now m)
      else send now m.cur m

  -- Step 2: the response timeout.
  unfoldable pub expire : TxState → ℕ → Mac fl → Mac fl × List MacEvent
  expire idle now m = (m, [])
  expire (backoff until) now m = (m, [])
  expire (await_response deadline e) now m =
      if leb deadline now then fail_attempt fl now m else (m, [])

  abbrev pub respond_with : Response → MacAction
  respond_with (ndp_body body) = transmit_ndp body
  respond_with (frame_psdu psdu) = transmit default_txvector psdu

  -- Step 1: a response that is queued goes first.
  unfoldable pub poll_with : List Response → ℕ → Mac fl → Polled
  unfolding expire
  poll_with (r ∷ rs) now m = record {
    action = some (respond_with r);
    mac = record m { responses = rs };
    events = [];
  }
  poll_with [] now m =
      let expired = expire m.state now m in
      let ready = pull now expired.0 in
      let polled = access ready.state now ready in
      record polled { events = expired.1 ++ polled.events }

  unfoldable pub poll : ℕ → Mac fl → Polled
  unfolding poll_with
  poll now m = poll_with m.responses now m
