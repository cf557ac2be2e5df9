-- ===== src/Mac/Engine/Progress.antt =====
-- engine.rs: without responses, every attempt brings the end of its batch nearer.
use s2g.Base.{
  ℕ, suc, ◌+◌, ◌-◌, ◌≤◌, ◌<◌, ◌≡◌, List, [], ◌∷◌, Bool, true, false, Option, none, some, leb, ◌||◌,
  length, refl, sym, arith, All, Bool-cases, inl, inr, subst, if_both,
}
use s2g.Base.Floats.{Floats}
use s2g.Mac.Addr.{MacAddr}
use s2g.Mac.Filter.Policy.{contains}
use s2g.Phy.Vector.{Coding}
use s2g.Phy.Tx.{Planned, planned, refused}
use s2g.Mac.Rate.Types.{TxChoice}
use s2g.Mac.Engine.Types.{
  Mac, TxState, idle, backoff, await_response, Expect, PendingMpdu, CurrentTx, MacEvent, MacError,
  Attempt,
}
use s2g.Mac.Engine.Queue.{rand_u32, pick_seed}
use s2g.Mac.Engine.Access.{
  resolve_one, resolve_mpdus, retry_all, start_backoff, finish_batch, continue_batch, resolve_batch,
  resolve_attempt, fail_rts, fail_attempt, is_cts, is_empty, hdr_len,
}
use s2g.Mac.Engine.Plan.{AttemptResult, attempt_ok, attempt_err, choose, pack, plan_attempt}
use s2g.Mac.Engine.Poll.{
  Polled, send, send_rts, send_data, send_planned, send_attempt, sent_unanswered, needs_rts,
  wants_ack, expire,
}
use s2g.Mac.Engine.Valid.Types.{MpduIsValid, BatchIsValid}

-- The attempts that the MPDUs of a batch have left.
unfoldable pub attempts_left : ℕ → List PendingMpdu → ℕ
attempts_left limit [] = 0
attempts_left limit (m ∷ ms) = (suc limit - m.retries) + attempts_left limit ms

unfoldable pub left_in : ℕ → Option CurrentTx → ℕ
unfolding attempts_left
left_in limit none = 0
left_in limit (some c) = attempts_left limit c.mpdus

resolve_mpdus_le :
    (dest : MacAddr) (mcs hdr limit : ℕ) (flying : List ℕ) (acked : ℕ → Bool) (i : ℕ)
    (ms : List PendingMpdu)
    → attempts_left limit (resolve_mpdus dest mcs hdr limit flying acked i ms).kept
      ≤ attempts_left limit ms
unfolding resolve_mpdus resolve_one attempts_left
resolve_mpdus_le dest mcs hdr limit flying acked i [] = omega arith
resolve_mpdus_le dest mcs hdr limit flying acked i (m ∷ ms) =
    ground (arith, resolve_mpdus_le dest mcs hdr limit flying acked (suc i) ms)

-- The first MPDU was on the air.
resolve_mpdus_lt :
    (dest : MacAddr) (mcs hdr limit : ℕ) (flying : List ℕ) (acked : ℕ → Bool)
    (ms : List PendingMpdu)
    → contains flying 0 ≡ true
    → 0 < length ms
    → All (MpduIsValid limit) ms
    → attempts_left limit (resolve_mpdus dest mcs hdr limit flying acked 0 ms).kept
      < attempts_left limit ms
unfolding resolve_mpdus resolve_one attempts_left
resolve_mpdus_lt dest mcs hdr limit flying acked [] f h k = absurd (omega arith)
resolve_mpdus_lt dest mcs hdr limit flying acked (m ∷ ms) f h ((r, s), k) =
    ground (arith, resolve_mpdus_le dest mcs hdr limit flying acked 1 ms)

retry_all_le :
    (dest : MacAddr) (limit : ℕ) (ms : List PendingMpdu)
    → attempts_left limit (retry_all dest limit ms).0 ≤ attempts_left limit ms
unfolding retry_all attempts_left
retry_all_le dest limit [] = omega arith
retry_all_le dest limit (m ∷ ms) = ground (arith, retry_all_le dest limit ms)

retry_all_lt :
    (dest : MacAddr) (limit : ℕ) (ms : List PendingMpdu)
    → 0 < length ms
    → All (MpduIsValid limit) ms
    → attempts_left limit (retry_all dest limit ms).0 < attempts_left limit ms
unfolding retry_all attempts_left
retry_all_lt dest limit [] h k = absurd (omega arith)
retry_all_lt dest limit (m ∷ ms) h ((r, s), k) = ground (arith, retry_all_le dest limit ms)

attempts_left_positive :
    (limit : ℕ) (ms : List PendingMpdu)
    → 0 < length ms
    → All (MpduIsValid limit) ms
    → 0 < attempts_left limit ms
unfolding attempts_left
attempts_left_positive limit [] h k = absurd (omega arith)
attempts_left_positive limit (m ∷ ms) h ((r, s), k) = omega arith

module _ (fl : Floats) where
  resolve_batch_lt :
      (acked : ℕ → Bool) (now : ℕ) (c : CurrentTx) (m : Mac fl)
      → contains c.in_flight 0 ≡ true
      → BatchIsValid m.cfg.max_retries c
      → left_in m.cfg.max_retries (resolve_batch fl acked now c m).0.cur
        < left_in m.cfg.max_retries (some c)
  unfolding resolve_batch finish_batch continue_batch start_backoff rand_u32 left_in
  resolve_batch_lt acked now c m f b =
      let lt =
        resolve_mpdus_lt c.dest c.choice.mcs (hdr_len c.qos) m.cfg.max_retries c.in_flight acked
          c.mpdus f b.not_empty b.mpdus_valid in
      elim (Bool-cases (
        is_empty fl
          (resolve_mpdus c.dest c.choice.mcs (hdr_len c.qos) m.cfg.max_retries c.in_flight acked 0
            c.mpdus).kept)) [ inl e ↦ rw e (omega arith) | inr e ↦ rw e lt ]

  fail_rts_lt :
      (now : ℕ) (c : CurrentTx) (m : Mac fl)
      → BatchIsValid m.cfg.max_retries c
      → left_in m.cfg.max_retries (fail_rts fl now c m).0.cur < left_in m.cfg.max_retries (some c)
  unfolding fail_rts finish_batch start_backoff rand_u32 left_in
  fail_rts_lt now c m b =
      let lt = retry_all_lt c.dest m.cfg.max_retries c.mpdus b.not_empty b.mpdus_valid in
      elim (Bool-cases (is_empty fl (retry_all c.dest m.cfg.max_retries c.mpdus).0)) [
        | inl e ↦ rw e (omega arith)
        | inr e ↦ rw e lt
      ]

  -- A batch whose response does not come: an RTS, or an attempt with the first MPDU.
  fail_attempt_lt :
      (now t : ℕ) (x : Expect) (c : CurrentTx) (m : Mac fl)
      → m.state ≡ await_response t x
      → m.cur ≡ some c
      → is_cts fl x || contains c.in_flight 0 ≡ true
      → BatchIsValid m.cfg.max_retries c
      → left_in m.cfg.max_retries (fail_attempt fl now m).0.cur < left_in m.cfg.max_retries (some c)
  unfolding fail_attempt resolve_attempt
  fail_attempt_lt now t x c m s e f b =
      rw (s, fail_attempt)
        (elim (Bool-cases (is_cts fl x)) [
          | inl y ↦ rw (y, e) (fail_rts_lt now c _ b)
          | inr n ↦ rw (n, e, resolve_attempt) (resolve_batch_lt _ now c _ (ground (arith, f, n)) b)
        ])

  -- An attempt that was planned has the first MPDU of its batch.
  abbrev FliesFirst : AttemptResult → Type 0
  FliesFirst (attempt_err e) = Unit {0}
  FliesFirst (attempt_ok a) = contains a.in_flight 0 ≡ true

  planned_first :
      (r : Planned ℕ) (attempt : ℕ → Attempt)
      → ((n : ℕ) → contains (attempt n).in_flight 0 ≡ true)
      → FliesFirst
          (elim r [ refused e ↦ attempt_err (MacError.phy e) | planned n ↦ attempt_ok (attempt n) ])
  planned_first (planned n) attempt h = h n
  planned_first (refused e) attempt h = tt

  -- The attempt that is packed for MPDUs that were taken.
  unfoldable PacksFirst : ℕ → Coding → List (ℕ × List ℕ) → Type 0
  PacksFirst mcs coding chosen = FliesFirst (pack fl mcs coding chosen)

  pack-PacksFirst :
      (mcs : ℕ) (coding : Coding) (mpdu : List ℕ) (chosen : List (ℕ × List ℕ))
      → PacksFirst mcs coding ((0, mpdu) ∷ chosen)
  unfolding pack contains PacksFirst
  pack-PacksFirst mcs coding mpdu [] =
      if_both FliesFirst (leb (length mpdu) 511) refl (planned_first _ _ (λ n. refl))
  pack-PacksFirst mcs coding mpdu (next ∷ chosen) = planned_first _ _ (λ n. refl)

  none_chosen : (mcs : ℕ) (coding : Coding) → PacksFirst mcs coding []
  unfolding pack PacksFirst
  none_chosen mcs coding = tt

  choose-PacksFirst :
      (c : CurrentTx) (mcs : ℕ) (coding : Coding) (duration : ℕ) (ms : List PendingMpdu)
      → PacksFirst mcs coding (choose fl c mcs coding duration 0 [] ms)
  unfolding choose
  choose-PacksFirst c mcs coding duration [] = none_chosen mcs coding
  choose-PacksFirst c mcs coding duration (m ∷ ms) =
      if_both (λ (chosen : List (ℕ × List ℕ)). PacksFirst mcs coding chosen) _
        (pack-PacksFirst mcs coding _ _) (none_chosen mcs coding)

  plan_attempt-FliesFirst :
      (c : CurrentTx) (mcs : ℕ) (coding : Coding) (duration : ℕ)
      → FliesFirst (plan_attempt fl c mcs coding duration)
  unfolding plan_attempt PacksFirst
  plan_attempt-FliesFirst c mcs coding duration = choose-PacksFirst c mcs coding duration c.mpdus

  -- Whether a state is over at some time without a response.
  unfoldable pub is_over : ℕ → TxState → Bool
  is_over now idle = true
  is_over now (backoff until) = false
  is_over now (await_response deadline x) = leb deadline now

  -- Of a state that is over, what is left of the batch after the timeout.
  unfoldable pub CostsAttempt : ℕ → ℕ → CurrentTx → Mac fl → Type 0
  CostsAttempt limit later c m =
      is_over later m.state ≡ true
      → left_in limit (expire fl m.state later m).0.cur < left_in limit (some c)

  finished_spends :
      (limit later : ℕ) (c : CurrentTx) (m : Mac fl)
      → m.state ≡ idle
      → m.cur ≡ none
      → BatchIsValid limit c
      → CostsAttempt limit later c m
  unfolding CostsAttempt expire left_in
  finished_spends limit later c m s e b h =
      rw (s, expire, e) (attempts_left_positive limit c.mpdus b.not_empty b.mpdus_valid)

  awaiting_spends :
      (limit later t : ℕ) (x : Expect) (c d : CurrentTx) (m : Mac fl)
      → m.cfg.max_retries ≡ limit
      → m.state ≡ await_response t x
      → m.cur ≡ some d
      → d.mpdus ≡ c.mpdus
      → is_cts fl x || contains d.in_flight 0 ≡ true
      → BatchIsValid limit c
      → CostsAttempt limit later c m
  unfolding CostsAttempt expire left_in is_over
  awaiting_spends limit later t x c d m l s e same f b h =
      let over : leb t later ≡ true = subst (λ (z : TxState). is_over later z ≡ true) s h in
      let b' : BatchIsValid m.cfg.max_retries d = record {
        not_empty = subst (λ (ms : List PendingMpdu). 0 < length ms) (sym same) b.not_empty;
        mpdus_valid =
            subst (λ (k : ℕ). All (MpduIsValid k) d.mpdus) (sym l)
              (subst (λ (ms : List PendingMpdu). All (MpduIsValid limit) ms) (sym same)
                b.mpdus_valid);
      } in
      subst (λ (k : ℕ). left_in k (expire fl m.state later m).0.cur < left_in k (some c)) l
        (subst
          (λ (z : TxState).
            left_in m.cfg.max_retries (expire fl z later m).0.cur
            < left_in m.cfg.max_retries (some c))
          (sym s)
          (subst
            (λ (ms : List PendingMpdu).
              left_in m.cfg.max_retries (expire fl (await_response t x) later m).0.cur
              < attempts_left m.cfg.max_retries ms)
            same (rw over (fail_attempt_lt later t x d m s e f b'))))

  send_rts_spends :
      (now later : ℕ) (c : CurrentTx) (m : Mac fl)
      → m.cur ≡ some c
      → BatchIsValid m.cfg.max_retries c
      → CostsAttempt m.cfg.max_retries later c (send_rts fl now c m).mac
  unfolding send_rts is_cts
  send_rts_spends now later c m e b = awaiting_spends _ later _ _ c c _ refl refl e refl refl b

  sent_unanswered_spends :
      (now later : ℕ) (ch : TxChoice) (c : CurrentTx) (m : Mac fl)
      → BatchIsValid m.cfg.max_retries c
      → CostsAttempt m.cfg.max_retries later c (sent_unanswered fl now ch c m).0
  unfolding sent_unanswered
  sent_unanswered_spends now later ch c m b =
      if_both (λ (s : Mac fl × List MacEvent). CostsAttempt m.cfg.max_retries later c s.0) c.ident
        (finished_spends _ later c _ refl refl b) (finished_spends _ later c _ refl refl b)

  send_attempt_spends :
      (now later : ℕ) (ch : TxChoice) (duration : ℕ) (c : CurrentTx) (a : Attempt) (m : Mac fl)
      → contains a.in_flight 0 ≡ true
      → BatchIsValid m.cfg.max_retries c
      → CostsAttempt m.cfg.max_retries later c (send_attempt fl now ch duration c a m).mac
  unfolding send_attempt
  send_attempt_spends now later ch duration c a m f b =
      if_both (λ (s : Mac fl × List MacEvent). CostsAttempt m.cfg.max_retries later c s.0)
        (wants_ack fl m c)
        (awaiting_spends _ later _ _ c _ _ refl refl refl refl (ground (arith, f)) b)
        (sent_unanswered_spends now later ch c (record m { rng = ((pick_seed fl m).1).rng }) b)

  send_planned_spends :
      (r : AttemptResult) (now later : ℕ) (ch : TxChoice) (duration : ℕ) (c : CurrentTx)
      (m : Mac fl)
      → FliesFirst r
      → BatchIsValid m.cfg.max_retries c
      → CostsAttempt m.cfg.max_retries later c (send_planned fl r now ch duration c m).mac
  unfolding send_planned
  send_planned_spends (attempt_ok a) now later ch duration c m f b =
      send_attempt_spends now later ch duration c a m f b
  send_planned_spends (attempt_err e) now later ch duration c m f b =
      finished_spends _ later c _ refl refl b

  -- Suppose an engine sends for a valid batch and no response comes until a time that is at or after the
  -- deadline it then has, if it has one. After the timeout, the attempts that the MPDUs of the batch have
  -- left are fewer than before.
  pub send_unanswered_lt :
      (now later : ℕ) (c : CurrentTx) (m : Mac fl)
      → m.cur ≡ some c
      → BatchIsValid m.cfg.max_retries c
      → is_over later ((send fl now (some c) m).mac).state ≡ true
      → left_in m.cfg.max_retries
          (expire fl ((send fl now (some c) m).mac).state later (send fl now (some c) m).mac).0.cur
        < left_in m.cfg.max_retries (some c)
  unfolding send send_data CostsAttempt
  send_unanswered_lt now later c m e b =
      if_both (λ (p : Polled fl). CostsAttempt m.cfg.max_retries later c p.mac) (needs_rts fl m c)
        (send_rts_spends now later c m e b)
        (send_planned_spends _ now later _ _ c _ (plan_attempt-FliesFirst c _ _ _) b)
