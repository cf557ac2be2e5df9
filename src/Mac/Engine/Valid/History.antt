-- ===== src/Mac/Engine/Valid/History.antt =====
-- engine.rs: the calls of an engine, in any order and at any times, and what holds after all of them.
use s2g.Base.{ℕ, ◌≤◌, ◌<◌, ◌≡◌, List, Option, none, some, length, refl, subst}
use s2g.Base.Floats.{Floats}
use s2g.Mac.Engine.Types.{Mac, MacConfig, CurrentTx, TxState, backoff, new_mac}
use s2g.Mac.Engine.Queue.{enqueue_eth}
use s2g.Mac.Engine.Events.{RxEvent, on_phy_event}
use s2g.Mac.Engine.Poll.{poll}
use s2g.Mac.Engine.Valid.Types.{BatchMatches, MacIsValid}
use s2g.Mac.Engine.Valid.Events.{on_phy_event_valid}
use s2g.Mac.Engine.Valid.Poll.{new_mac_valid, enqueue_eth_valid, poll_valid}

module _ (fl : Floats) where
  -- One call of the engine; the clock may run as it likes.
  pub data Step (m : Mac fl) : Mac fl → Type 0 where
    enqueued : (frame : List ℕ) → Step m (enqueue_eth fl m frame).1
    received : (now : ℕ) (ev : RxEvent fl) → Step m (on_phy_event fl now ev m).0
    polled : (now : ℕ) → Step m (poll fl now m).mac

  pub data Reach (cfg : MacConfig fl) : Mac fl → Type 0 where
    start : Reach cfg (new_mac fl cfg)
    next : {m n : Mac fl} → Reach cfg m → Step m n → Reach cfg n

  Step-valid : {m n : Mac fl} → Step m n → MacIsValid fl m → MacIsValid fl n
  Step-valid {m} (enqueued frame) k = enqueue_eth_valid fl m frame k
  Step-valid {m} (received now ev) k = on_phy_event_valid fl now ev m k
  Step-valid {m} (polled now) k = poll_valid fl now m k

  -- An engine whose contention window may grow, after any frames queued, PHY events and polls, and
  -- whatever the floating-point arithmetic returns: it has a batch exactly when it is not idle, every
  -- batch has an MPDU, every MPDU has at most `max_retries` retries and a sequence number of 12 bits,
  -- and the contention window, the next sequence number, the queue, the lists of duplicates and the
  -- rate controller are in their bounds.
  pub Reach-MacIsValid :
      (cfg : MacConfig fl) (m : Mac fl)
      → cfg.cw_min_exp ≤ cfg.cw_max_exp
      → Reach cfg m
      → MacIsValid fl m
  Reach-MacIsValid cfg _ h start = new_mac_valid fl cfg h
  Reach-MacIsValid cfg _ h (next {m} r s) = Step-valid s (Reach-MacIsValid cfg m h r)

  batch_present :
      (limit until : ℕ) (cur : Option CurrentTx)
      → BatchMatches limit (backoff until) cur
      → (c : CurrentTx) × (cur ≡ some c) × (0 < length c.mpdus)
  batch_present limit until (some c) b = (c, refl, b.not_empty)
  batch_present limit until none b = absurd b

  -- Wherever such an engine is in a backoff it has a batch with an MPDU, so that the `expect`s of
  -- `poll` do not fail.
  pub backoff_implies_cur :
      (cfg : MacConfig fl) (m : Mac fl) (until : ℕ)
      → cfg.cw_min_exp ≤ cfg.cw_max_exp
      → Reach cfg m
      → m.state ≡ backoff until
      → (c : CurrentTx) × (m.cur ≡ some c) × (0 < length c.mpdus)
  backoff_implies_cur cfg m until h r e = batch_present m.cfg.max_retries until m.cur (
      subst (λ (s : TxState). BatchMatches m.cfg.max_retries s m.cur) e
        (Reach-MacIsValid cfg m h r).batch)
