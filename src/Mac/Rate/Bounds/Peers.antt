-- ===== src/Mac/Rate/Bounds/Peers.antt =====
-- rate.rs: what the controller keeps true of a peer, whatever the floating-point arithmetic does.
use s2g.Base.{
  ℕ, ◌+◌, ◌-◌, ◌≤◌, ◌<◌, Bool, true, false, Option, none, some, length, ◌≡◌, refl, arith,
  length-set, Option-cases, inl, inr,
}
use s2g.Base.Floats.{Floats}
use s2g.Mac.Rate.Types.{
  Peer, Stat, RateControl, Probe, mcs_probe, short_gi_probe, ldpc_probe, Failed, set_stat, TxChoice,
  is_short_gi,
}
use s2g.Mac.Rate.Select.{new_peer, start_index, index_or}
use s2g.Mac.Rate.Report.{
  note_sample, note_failed, note_probe, end_probe, check_gi, move_rate, note_outcome, raise_to,
  fits_probe, filter_option, known_good, fall_back, good,
}
use s2g.Mac.Rate.Hints.{floor_mcs, greatest, snr_allows}
use s2g.Mac.Rate.Bounds.Ladder.{greatest_bounds}

abbrev pub ProbedBelow : ℕ → Option (ℕ × Probe) → Type 0
ProbedBelow hi none = Unit {0}
ProbedBelow hi (some (i, kind)) = i ≤ hi

abbrev pub FailedOnLadder : Option Failed → Type 0
FailedOnLadder none = Unit {0}
FailedOnLadder (some f) = f.idx < 10

pub index_or_bounds :
    (lo n d : ℕ) (test : ℕ → Bool)
    → lo ≤ d
    → d ≤ lo + n
    → (lo ≤ index_or (greatest test lo n) d) × (index_or (greatest test lo n) d ≤ lo + n)
index_or_bounds lo n d test p q = elim (Option-cases (greatest test lo n)) [
  | inl e ↦ rw e (p, q)
  | inr (i, e) ↦ rw e (ground (arith, greatest_bounds test lo n i e))
]

module _ (fl : Floats) where
  -- The rate in use and the probed one in the range, the backoffs at most `limit`, and statistics
  -- for every index of the ladder.
  pub record PeerIsBounded (lo hi limit : ℕ) (p : Peer fl) : Type 0 where
    pub lo_le : lo ≤ p.cur
    pub le_hi : p.cur ≤ hi
    pub mcs_le : p.mcs_backoff ≤ limit
    pub gi_le : p.gi_backoff ≤ limit
    pub fec_le : p.fec_backoff ≤ limit
    pub probed : ProbedBelow hi p.probing
    pub failed_lt : FailedOnLadder p.failed
    pub stats_length : length p.stats ≡ 10

  abbrev pub InBounds : RateControl fl → Peer fl → Type 0
  InBounds rc p = PeerIsBounded rc.lo rc.hi rc.cfg.probe_backoff_max p

  pub start_index_bounds :
      (rc : RateControl fl) (snr : Option fl.F32)
      → rc.lo ≤ rc.hi
      → (rc.lo ≤ start_index fl rc snr) × (start_index fl rc snr ≤ rc.hi)
  unfolding start_index
  start_index_bounds rc none h = ground arith
  start_index_bounds rc (some snr) h = ground (
    arith,
    index_or_bounds rc.lo (rc.hi - rc.lo) rc.lo
        (λ (i : ℕ). snr_allows fl rc.cfg.snr_margin_db (some snr) i false),
  )

  pub new_peer_kept : (rc : RateControl fl) → rc.lo ≤ rc.hi → InBounds rc (new_peer fl rc)
  unfolding new_peer
  new_peer_kept rc h =
      let b = start_index_bounds rc none h in
      record {
        lo_le = b.0;
        le_hi = b.1;
        mcs_le = omega arith;
        gi_le = omega arith;
        fec_le = omega arith;
        probed = tt;
        failed_lt = tt;
        stats_length = refl;
      }

  set_stat_kept :
      (lo hi limit : ℕ) (idx : ℕ) (g : Bool) (st : Stat fl) (p : Peer fl)
      → PeerIsBounded lo hi limit p
      → PeerIsBounded lo hi limit (set_stat fl idx g st p)
  unfolding set_stat
  set_stat_kept lo hi limit idx g st p k = grind (arith, length-set)

  note_sample_kept :
      (rc : RateControl fl) (idx : ℕ) (g success : Bool) (p : Peer fl)
      → InBounds rc p
      → InBounds rc (note_sample fl rc idx g success p)
  unfolding note_sample
  note_sample_kept rc idx g success p = set_stat_kept rc.lo rc.hi rc.cfg.probe_backoff_max idx g _ p

  note_failed_kept :
      (rc : RateControl fl) (idx : ℕ) (g l success : Bool) (p : Peer fl)
      → idx < 10
      → InBounds rc p
      → InBounds rc (note_failed fl rc idx g l success p)
  unfolding note_failed
  note_failed_kept rc idx g l success p h k = ground arith

  raise_to_kept :
      (lo hi limit idx : ℕ) (g : Bool) (f : fl.F32) (p : Peer fl)
      → PeerIsBounded lo hi limit p
      → PeerIsBounded lo hi limit (raise_to fl idx g f p)
  unfolding raise_to
  raise_to_kept lo hi limit idx g f p = set_stat_kept lo hi limit idx g _ p

  note_probe_kept :
      (rc : RateControl fl) (g success : Bool) (i : ℕ) (kind : Probe) (p : Peer fl)
      → InBounds rc p
      → InBounds rc (note_probe fl rc g success i kind p)
  unfolding note_probe
  note_probe_kept rc g true i (mcs_probe above) p k =
      let k' =
        raise_to_kept rc.lo rc.hi rc.cfg.probe_backoff_max i g
          (floor_mcs fl p rc.cfg.p_min rc.cfg.fail_cost_us i g) p k in
      ground arith
  note_probe_kept rc g false i (mcs_probe above) p k = ground arith
  note_probe_kept rc g true i short_gi_probe p k =
      raise_to_kept rc.lo rc.hi rc.cfg.probe_backoff_max i true _ _ (ground arith)
  note_probe_kept rc g false i short_gi_probe p k = ground arith
  note_probe_kept rc g true i ldpc_probe p k = ground arith
  note_probe_kept rc g false i ldpc_probe p k = ground arith

  end_probe_kept :
      (rc : RateControl fl) (g success : Bool) (probe : Option (ℕ × Probe)) (p : Peer fl)
      → InBounds rc p
      → InBounds rc (end_probe fl rc g success probe p)
  unfolding end_probe
  end_probe_kept rc g success none p k = k
  end_probe_kept rc g success (some (i, kind)) p k =
      note_probe_kept rc g success i kind _ (ground arith)

  check_gi_kept :
      (rc : RateControl fl) (p : Peer fl) → InBounds rc p → InBounds rc (check_gi fl rc p)
  unfolding check_gi
  check_gi_kept rc p k = ground arith

  fall_back_bounds :
      (rc : RateControl fl) (p : Peer fl)
      → InBounds rc p
      → (rc.lo ≤ fall_back fl rc p) × (fall_back fl rc p ≤ p.cur)
  unfolding fall_back known_good
  fall_back_bounds rc p k = elim (Option-cases (greatest (good fl rc p) rc.lo (rc.hi - rc.lo))) [
    | inl e ↦ rw e (ground arith)
    | inr (i, e) ↦ rw e (ground (arith, greatest_bounds (good fl rc p) rc.lo (rc.hi - rc.lo) i e))
  ]

  known_good_bounds :
      (rc : RateControl fl) (p : Peer fl)
      → InBounds rc p
      → (rc.lo ≤ index_or (known_good fl rc p) p.cur)
        × (index_or (known_good fl rc p) p.cur ≤ rc.hi)
  unfolding known_good
  known_good_bounds rc p k =
      ground (arith, index_or_bounds rc.lo (rc.hi - rc.lo) p.cur (good fl rc p))

  move_rate_kept :
      (rc : RateControl fl) (p : Peer fl) → InBounds rc p → InBounds rc (move_rate fl rc p)
  unfolding move_rate
  move_rate_kept rc p k = ground (arith, fall_back_bounds rc p, known_good_bounds rc p)

  pub note_outcome_kept :
      (rc : RateControl fl) (idx : ℕ) (c : TxChoice) (success : Bool) (p : Peer fl)
      → idx < 10
      → InBounds rc p
      → InBounds rc (note_outcome fl rc idx c success p)
  unfolding note_outcome
  note_outcome_kept rc idx c success p h k =
      let g = is_short_gi c.gi in
      let probe = filter_option (fits_probe idx c) p.probing in
      move_rate_kept rc _ (
        check_gi_kept rc _ (
          end_probe_kept rc g success probe _
            (note_failed_kept rc idx g _ success _ h (note_sample_kept rc idx g success p k))))
