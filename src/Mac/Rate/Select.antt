-- ===== src/Mac/Rate/Select.antt =====
-- rate.rs: a new controller, a new peer, what is observed of a peer, and the choice for an attempt.
use s2g.Base.{
  ℕ, ◌+◌, ◌-◌, ◌*◌, max, min, List, [], ◌∷◌, Bool, true, false, Option, none, some, ◌==◌, ◌&&◌,
  ◌||◌, not, ltb, leb, if◌then◌else◌, replicate, bit_of,
}
use s2g.Base.Floats.{Floats}
use s2g.Mac.Addr.{MacAddr}
use s2g.Phy.Vector.{GuardInterval, long_gi, short_gi, Coding, bcc, ldpc}
use s2g.Mac.Rate.Types.{
  RateConfig, RateControl, Peer, Stat, stat_default, stat_at, find_peer, put_peer, Adapt, auto,
  fixed, TxChoice, Probe, mcs_probe, short_gi_probe, ldpc_probe, Failed, ladder_index, ladder_mcs,
  is_short_gi, is_ldpc,
}
use s2g.Mac.Rate.Hints.{snr_allows, snr_required, airtime_saving_us, p_flawless, greatest}

abbrev pub override_intervals : ℕ
override_intervals = 4

abbrev pub index_or : Option ℕ → ℕ → ℕ
index_or none d = d
index_or (some i) d = i

-- The setting that a per-peer switch gives, unless it is fixed.
unfoldable pub adapt_gi : Adapt GuardInterval → Bool → GuardInterval
adapt_gi (fixed g) uses_short = g
adapt_gi auto uses_short = if uses_short then short_gi else long_gi

unfoldable pub adapt_fec : Adapt Coding → Bool → Coding
adapt_fec (fixed c) uses_ldpc = c
adapt_fec auto uses_ldpc = if uses_ldpc then ldpc else bcc

abbrev pub is_auto : {T : Type 0} → Adapt T → Bool
is_auto auto = true
is_auto (fixed t) = false

module _ (fl : Floats) where
  unfoldable pub new_control : RateConfig fl → RateControl fl
  new_control cfg' =
      let lo' = index_or (ladder_index cfg'.min_mcs) 0 in
      record {
        cfg = cfg';
        lo = lo';
        hi = max (index_or (ladder_index cfg'.max_mcs) 9) lo';
        peers = [];
      }

  unfoldable pub set_fail_cost_us : ℕ → RateControl fl → RateControl fl
  set_fail_cost_us us rc = record rc { cfg = record rc.cfg { fail_cost_us = us } }

  -- Without a hint the configured start, clamped to the range.
  unfoldable pub start_index : RateControl fl → Option fl.F32 → ℕ
  start_index rc none = min (max (index_or (ladder_index rc.cfg.start_mcs) rc.lo) rc.lo) rc.hi
  start_index rc (some snr) =
      index_or
        (greatest (λ i. snr_allows fl rc.cfg.snr_margin_db (some snr) i false) rc.lo
          (rc.hi - rc.lo))
        rc.lo

  unfoldable pub new_peer : RateControl fl → Peer fl
  unfolding start_index stat_default
  new_peer rc = record {
    stats = replicate 10 (stat_default fl, stat_default fl);
    cur = start_index rc none;
    uses_short_gi = false;
    uses_ldpc = false;
    since_probe = 0;
    mcs_backoff = 0;
    gi_backoff = 0;
    fec_backoff = 0;
    probing = none;
    last_probe = none;
    failed = none;
    octets = 0;
    probe_fail_snr_db = none;
    snr_db = none;
    cfo_hz = none;
    delay_spread_us = none;
  }

  -- The peer that `peer_mut` finds or makes, and its return to the map.
  unfoldable pub peer_of : RateControl fl → MacAddr → Peer fl
  peer_of rc a = elim (find_peer fl a rc.peers) [ none ↦ new_peer rc | some p ↦ p ]

  unfoldable pub with_peer : RateControl fl → MacAddr → Peer fl → RateControl fl
  with_peer rc a p = record rc { peers = put_peer fl a p rc.peers }

  -- The smoothing of a measurement.
  unfoldable pub smooth : Option fl.F32 → fl.F32 → fl.F32
  smooth none x = x
  smooth (some s) x = fl.single.add s (fl.single.mul (fl.single.ratio 3 10) (fl.single.sub x s))

  abbrev pub untried : List (Stat fl × Stat fl) → Bool
  untried [] = true
  untried ((l, s) ∷ rest) = (l.attempts == 0 && s.attempts == 0) && untried rest

  -- A clear rise in the SNR arms the probes again.
  unfoldable pub rearm : RateControl fl → fl.F32 → Peer fl → Peer fl
  rearm rc snr p = elim p.probe_fail_snr_db [
    | none ↦ p
    | some f ↦
        if fl.single.le (fl.single.add f rc.cfg.probe_rearm_snr_db) snr
        then record p { mcs_backoff = 0; probe_fail_snr_db = none }
        else p
  ]

  unfoldable pub open_rate : RateControl fl → fl.F32 → Peer fl → Peer fl
  open_rate rc snr p = if untried p.stats then record p { cur = start_index rc (some snr) } else p

  unfoldable pub observe_snr : RateControl fl → MacAddr → fl.F32 → RateControl fl
  unfolding rearm open_rate
  observe_snr rc a x =
      let p = peer_of rc a in
      let snr = smooth p.snr_db x in
      if fl.single.is_finite x
      then with_peer rc a (open_rate rc snr (rearm rc snr (record p { snr_db = some snr })))
      else rc

  unfoldable pub observe_cfo : RateControl fl → MacAddr → fl.F32 → RateControl fl
  observe_cfo rc a x =
      let p = peer_of rc a in
      if fl.single.is_finite x
      then with_peer rc a (record p { cfo_hz = some (smooth p.cfo_hz x) })
      else rc

  unfoldable pub observe_delay_spread : RateControl fl → MacAddr → fl.F32 → RateControl fl
  observe_delay_spread rc a x =
      let p = peer_of rc a in
      if fl.single.is_finite x
      then with_peer rc a (record p { delay_spread_us = some (smooth p.delay_spread_us x) })
      else rc

  abbrev pub choice : ℕ → GuardInterval → Coding → TxChoice
  choice idx g c = record { mcs = ladder_mcs idx; gi = g; fec_coding = c }

  unfoldable pub current : RateControl fl → MacAddr → Option TxChoice
  current rc a = elim (find_peer fl a rc.peers) [
    | none ↦ none
    | some p ↦ some (
        choice p.cur (adapt_gi rc.cfg.gi p.uses_short_gi) (adapt_fec rc.cfg.fec_coding p.uses_ldpc))
  ]

  -- The attempt that the retries of a batch go down from.
  unfoldable pub retry_from : RateControl fl → Peer fl → Failed
  retry_from rc p = elim p.failed [
    | some f ↦ f
    | none ↦ record {
      idx = p.cur;
      gi_step = is_short_gi (adapt_gi rc.cfg.gi p.uses_short_gi) && is_auto rc.cfg.gi;
      was_ldpc_probe = false;
    }
  ]

  unfoldable pub select_retry : RateControl fl → Peer fl → ℕ → TxChoice
  select_retry rc p retry =
      let f = retry_from rc p in
      choice (max (f.idx - (retry - bit_of f.gi_step)) rc.lo) (adapt_gi rc.cfg.gi false)
        (if f.was_ldpc_probe then bcc else adapt_fec rc.cfg.fec_coding p.uses_ldpc)

  -- Whether a probe of the next MCS is due, and then whether the hint allows it.
  unfoldable pub mcs_due : RateControl fl → Peer fl → ℕ → Option Bool
  mcs_due rc p octets' =
      let gi_in_use = adapt_gi rc.cfg.gi p.uses_short_gi in
      let with_ldpc = is_ldpc (adapt_fec rc.cfg.fec_coding p.uses_ldpc) in
      let pessimistic : Bool = elim p.snr_db [
        | none ↦ false
        | some s ↦ fl.single.lt s (snr_required fl p.cur with_ldpc)
      ] in
      let allowed =
        pessimistic || snr_allows fl rc.cfg.snr_margin_db p.snr_db (p.cur + 1) with_ldpc in
      let saving =
        airtime_saving_us fl p.cur (p.cur + 1) octets'
        * (override_intervals * rc.cfg.probe_interval) in
      let flawless : Bool = elim ((stat_at fl p p.cur (is_short_gi gi_in_use)).p) [
        | none ↦ false
        | some v ↦ fl.single.le (p_flawless fl) v
      ] in
      if ltb rc.hi (p.cur + 1)
      then none
      else if allowed
      then (if leb (rc.cfg.probe_interval + p.mcs_backoff) p.since_probe then some true else none)
      else if leb (override_intervals * rc.cfg.probe_interval + p.mcs_backoff) p.since_probe
          && flawless
          && leb rc.cfg.fail_cost_us saving
      then some false
      else none

  unfoldable pub start_probe : ℕ → Probe → Peer fl → Peer fl
  start_probe idx kind p = record p {
    since_probe = 0;
    probing = some (idx, kind);
    last_probe = some kind;
  }

  abbrev pub is_clean : RateControl fl → Option fl.F32 → Bool
  is_clean rc none = true
  is_clean rc (some d) = fl.single.le d rc.cfg.sgi_max_delay_spread_us

  -- The choice and the peer after it, given whether a probe of the next MCS is due.
  unfoldable pub select_due : RateControl fl → Peer fl → Option Bool → TxChoice × Peer fl
  unfolding start_probe
  select_due rc p (some allowed) =
      let gi_in_use = adapt_gi rc.cfg.gi p.uses_short_gi in
      let fec_in_use = adapt_fec rc.cfg.fec_coding p.uses_ldpc in
      (choice (p.cur + 1) gi_in_use fec_in_use, start_probe (p.cur + 1) (mcs_probe (not allowed)) p)
  select_due rc p none =
      let gi_in_use = adapt_gi rc.cfg.gi p.uses_short_gi in
      let fec_in_use = adapt_fec rc.cfg.fec_coding p.uses_ldpc in
      if (is_auto rc.cfg.fec_coding && not p.uses_ldpc)
        && leb (rc.cfg.probe_interval + p.fec_backoff) p.since_probe
      then (choice p.cur gi_in_use ldpc, start_probe p.cur ldpc_probe p)
      else if (is_auto rc.cfg.gi && not p.uses_short_gi)
          && (is_clean rc p.delay_spread_us
              && leb (rc.cfg.probe_interval + p.gi_backoff) p.since_probe)
      then (choice p.cur short_gi fec_in_use, start_probe p.cur short_gi_probe p)
      else (choice p.cur gi_in_use fec_in_use, p)

  -- A fresh attempt, of a peer whose counters have been advanced: a probe that is due, or the rate in
  -- use.
  unfoldable pub select_fresh : RateControl fl → Peer fl → ℕ → TxChoice × Peer fl
  unfolding select_due
  select_fresh rc p octets' = select_due rc p (mcs_due rc p octets')

  unfoldable pub select : RateControl fl → MacAddr → ℕ → ℕ → TxChoice × RateControl fl
  select rc a retry octets' =
      let p = record (peer_of rc a) { probing = none; octets = octets' } in
      let fresh =
        select_fresh rc (record p { failed = none; since_probe = p.since_probe + 1 }) octets' in
      if ltb 0 retry
      then (select_retry rc p retry, with_peer rc a p)
      else (fresh.0, with_peer rc a fresh.1)
