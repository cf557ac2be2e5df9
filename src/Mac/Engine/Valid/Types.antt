-- ===== src/Mac/Engine/Valid/Types.antt =====
-- engine.rs: the well-formed states of the engine.
use s2g.Base.{ℕ, ◌≤◌, ◌<◌, List, Option, none, some, All, length}
use s2g.Base.Floats.{Floats}
use s2g.Mac.Addr.{MacAddr}
use s2g.Mac.Rate.Types.{RateControl}
use s2g.Mac.Rate.Bounds.Control.{ControlIsBounded}
use s2g.Mac.Engine.Types.{
  Mac, MacConfig, TxState, idle, backoff, await_response, PendingMpdu, CurrentTx, Queued,
}

-- A batch has an MPDU, and every MPDU has burnt at most the retries allowed and has a sequence number
-- of 12 bits.
abbrev pub MpduIsValid : ℕ → PendingMpdu → Type 0
MpduIsValid max_retries m = (m.retries ≤ max_retries) × (m.seq < 4096)

pub record BatchIsValid (max_retries : ℕ) (c : CurrentTx) : Type 0 where
  pub not_empty : 0 < length c.mpdus
  pub mpdus_valid : All (MpduIsValid max_retries) c.mpdus

-- The engine has a batch exactly when it is not idle.
abbrev pub BatchMatches : ℕ → TxState → Option CurrentTx → Type 0
BatchMatches max_retries idle none = Unit {0}
BatchMatches max_retries idle (some c) = ⊥
BatchMatches max_retries (backoff until) none = ⊥
BatchMatches max_retries (backoff until) (some c) = BatchIsValid max_retries c
BatchMatches max_retries (await_response t e) none = ⊥
BatchMatches max_retries (await_response t e) (some c) = BatchIsValid max_retries c

module _ (fl : Floats) where
  -- The contention window, sequence number, queue, duplicate lists and rate controller in their
  -- bounds: of the components that they are about, so that writing another one changes nothing.
  pub record CoreOf (cfg : MacConfig fl) (cw seq : ℕ) (queue : List Queued)
      (dedup : List (MacAddr × List ℕ)) (rate : RateControl fl) : Type 0 where
    pub cw_range : cfg.cw_min_exp ≤ cfg.cw_max_exp
    pub cw_least : cfg.cw_min_exp ≤ cw
    pub cw_most : cw ≤ cfg.cw_max_exp
    pub seq_lt : seq < 4096
    pub queue_le : length queue ≤ cfg.queue_limit
    pub dedup_le : All (λ e. length e.1 ≤ 64) dedup
    pub rate_bounded : ControlIsBounded fl rate

  abbrev pub CoreIsValid : Mac fl → Type 0
  CoreIsValid m = CoreOf m.cfg m.cw_exp m.seq m.queue m.dedup m.rate

  -- And a valid batch exactly when the engine is not idle.
  pub record ValidOf (cfg : MacConfig fl) (cw seq : ℕ) (queue : List Queued)
      (dedup : List (MacAddr × List ℕ)) (rate : RateControl fl) (state : TxState)
      (cur : Option CurrentTx) : Type 0 where
    pub core : CoreOf cfg cw seq queue dedup rate
    pub batch : BatchMatches cfg.max_retries state cur

  abbrev pub MacIsValid : Mac fl → Type 0
  MacIsValid m = ValidOf m.cfg m.cw_exp m.seq m.queue m.dedup m.rate m.state m.cur
