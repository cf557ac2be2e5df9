-- ===== src/Mac/Engine/Access.antt =====
-- engine.rs: the backoff, and the end of an attempt by a response or without one.
use s2g.Base.{
  ℕ, suc, ◌+◌, ◌*◌, ◌%◌, ◌^◌, max, min, List, [], ◌∷◌, Bool, true, false, none, some, ltb, leb,
  ◌&&◌, if◌then◌else◌, length,
}
use s2g.Base.Floats.{Floats}
use s2g.Mac.Addr.{MacAddr}
use s2g.Mac.Frame.{data_hdr_len, qos_data_hdr_len}
use s2g.Mac.Filter.Policy.{contains}
use s2g.Mac.Rate.Report.{report}
use s2g.Mac.Engine.Types.{
  Mac, idle, backoff, await_response, Expect, expect_ack, expect_ndp_ack, expect_ndp_block_ack,
  expect_ndp_cts, PendingMpdu, CurrentTx, MacEvent, tx_complete, tx_dropped, retry_limit,
}
use s2g.Mac.Engine.Queue.{rand_u32}
use s2g.Mac.Engine.Timing.{eifs_us}

-- What the drained batch came to.
pub record Resolved : Type 0 where
  pub kept : List PendingMpdu
  pub delivered : ℕ
  pub n_acked : ℕ
  pub events : List MacEvent

abbrev nothing_resolved : Resolved
nothing_resolved = record { kept = []; delivered = 0; n_acked = 0; events = [] }

abbrev pub hdr_len : Bool → ℕ
hdr_len qos' = if qos' then qos_data_hdr_len else data_hdr_len

-- One MPDU of the batch, before the rest of it.
unfoldable pub resolve_one :
    (dest : MacAddr) (mcs hdr max_retries : ℕ) (flown acked : Bool)
    → PendingMpdu
    → Resolved
    → Resolved
resolve_one dest mcs' hdr max_retries flown acked m r =
    if flown && acked
    then record {
      kept = r.kept;
      delivered = hdr + length m.body + 4 + r.delivered;
      n_acked = r.n_acked + 1;
      events = tx_complete dest true m.retries mcs' ∷ r.events;
    }
    else if flown
    then (if ltb max_retries (m.retries + 1)
        then record r { events = tx_dropped dest retry_limit ∷ r.events }
        else record r { kept = record m { retries = m.retries + 1 } ∷ r.kept })
    else record r { kept = m ∷ r.kept }

-- The loop over the batch, from the index `i` on.
unfoldable pub resolve_mpdus :
    (dest : MacAddr) (mcs hdr max_retries : ℕ) (in_flight : List ℕ) (acked : ℕ → Bool)
    → ℕ
    → List PendingMpdu
    → Resolved
resolve_mpdus dest mcs' hdr max_retries flying acked i [] = nothing_resolved
resolve_mpdus dest mcs' hdr max_retries flying acked i (m ∷ ms) =
    resolve_one dest mcs' hdr max_retries (contains flying i) (acked m.seq) m
      (resolve_mpdus dest mcs' hdr max_retries flying acked (suc i) ms)

-- Every MPDU of a batch whose RTS went unanswered burns a retry.
unfoldable pub retry_all : MacAddr → ℕ → List PendingMpdu → List PendingMpdu × List MacEvent
retry_all dest max_retries [] = ([], [])
retry_all dest max_retries (m ∷ ms) =
    let rest = retry_all dest max_retries ms in
    if ltb max_retries (m.retries + 1)
    then (rest.0, tx_dropped dest retry_limit ∷ rest.1)
    else (record m { retries = m.retries + 1 } ∷ rest.0, rest.1)

module _ (fl : Floats) where
  unfoldable pub start_backoff : ℕ → Mac fl → Mac fl
  start_backoff now m =
      let r = rand_u32 fl m in
      let slots = r.0 % 2 ^ m.cw_exp in
      let idle_at = max (max (max now m.busy_until_us) m.nav_until_us) m.rid_until_us in
      let ifs = if m.eifs_pending then eifs_us fl m else m.cfg.difs_us in
      record m {
        rng = (r.1).rng;
        eifs_pending = false;
        state = backoff (idle_at + ifs + slots * m.cfg.slot_us);
      }

  -- No batch is left.
  unfoldable pub finish_batch : Mac fl → Mac fl
  finish_batch m = record m { cur = none; state = idle; cw_exp = m.cfg.cw_min_exp }

  -- The batch goes on: `failed` when something on the air was not acknowledged.
  unfoldable pub continue_batch : ℕ → (failed success : Bool) → CurrentTx → Mac fl → Mac fl
  continue_batch now failed success cur' m =
      let next = record cur' {
        cts_ok = false;
        rate_failures = if success then 0 else cur'.rate_failures + 1;
        attempts = if failed then cur'.attempts + 1 else cur'.attempts;
      } in
      start_backoff now (record m {
        cur = some next;
        cw_exp = if failed then min (m.cw_exp + 1) m.cfg.cw_max_exp else m.cfg.cw_min_exp;
      })

  abbrev pub is_empty {ℓ} : {A : Type ℓ} → List A → Bool
  is_empty [] = true
  is_empty (x ∷ xs) = false

  -- The end of the attempt of a batch, of which `acked` was acknowledged.
  unfoldable pub resolve_batch : (ℕ → Bool) → ℕ → CurrentTx → Mac fl → Mac fl × List MacEvent
  resolve_batch acked now cur' m =
      let r =
        resolve_mpdus cur'.dest cur'.choice.mcs (hdr_len cur'.qos) m.cfg.max_retries cur'.in_flight
          acked 0 cur'.mpdus in
      let success = ltb 0 r.delivered && leb cur'.lower_octets r.delivered in
      let m' = record m { rate = report fl m.rate cur'.dest cur'.choice success } in
      (
        if is_empty r.kept
            then finish_batch m'
            else continue_batch now (ltb r.n_acked (length cur'.in_flight)) success
                (record cur' { mpdus = r.kept; in_flight = [] }) m',
        r.events,
      )

  unfoldable pub resolve_attempt : (ℕ → Bool) → ℕ → Mac fl → Mac fl × List MacEvent
  resolve_attempt acked now m = elim m.cur [
    | none ↦ (m, [])
    | some cur' ↦ resolve_batch acked now cur' m
  ]

  -- An RTS went unanswered.
  unfoldable pub fail_rts : ℕ → CurrentTx → Mac fl → Mac fl × List MacEvent
  fail_rts now cur' m =
      let (still, events') = retry_all cur'.dest m.cfg.max_retries cur'.mpdus in
      (
        if is_empty still
            then finish_batch m
            else start_backoff now (record m {
              cur = some (record cur' {
                mpdus = still;
                in_flight = [];
                cts_ok = false;
                attempts = cur'.attempts + 1;
              });
              cw_exp = min (m.cw_exp + 1) m.cfg.cw_max_exp;
            }),
        events',
      )

  unfoldable pub is_cts : Expect → Bool
  is_cts expect_ack = false
  is_cts (expect_ndp_ack i) = false
  is_cts (expect_ndp_block_ack i) = false
  is_cts (expect_ndp_cts a) = true

  -- An attempt whose response did not come in time.
  unfoldable pub fail_attempt : ℕ → Mac fl → Mac fl × List MacEvent
  fail_attempt now m = elim m.state [
    | idle ↦ resolve_attempt (λ seq. false) now m
    | backoff until ↦ resolve_attempt (λ seq. false) now m
    | await_response deadline expect ↦
        let m' = record m { late_expect = some (expect, m.sent_end_us) } in
        if is_cts expect
        then (elim m.cur [ none ↦ (m', []) | some cur' ↦ fail_rts now cur' m' ])
        else resolve_attempt (λ seq. false) now m'
  ]
