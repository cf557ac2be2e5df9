-- ===== src/Mac/Rate/Report.antt =====
-- rate.rs: the outcome of an attempt (`report`), in the order of its parts.
use s2g.Base.{
  ℕ, ◌+◌, ◌-◌, ◌*◌, max, min, Bool, true, false, Option, none, some, ◌==◌, ◌&&◌, not, ltb, bit_of,
  if◌then◌else◌,
}
use s2g.Base.Floats.{Floats}
use s2g.Mac.Addr.{MacAddr}
use s2g.Mac.Rate.Types.{
  RateControl, Peer, stat_at, set_stat, auto, fixed, TxChoice, Probe, mcs_probe, short_gi_probe,
  ldpc_probe, ladder_index, is_short_gi, is_ldpc,
}
use s2g.Mac.Rate.Hints.{floor_mcs, floor_gi, value_or, whole, greatest}
use s2g.Mac.Rate.Select.{peer_of, with_peer, is_auto, override_intervals, index_or}

-- `backed_off`, and the same from another base
unfoldable pub backed_off : ℕ → ℕ → ℕ → ℕ
backed_off base limit b = min (max b base * 2) limit

-- Whether the probe under way is the attempt that is reported.
unfoldable pub fits_probe : ℕ → TxChoice → ℕ × Probe → Bool
fits_probe idx c (i, mcs_probe above) = i == idx
fits_probe idx c (i, short_gi_probe) = i == idx && is_short_gi c.gi
fits_probe idx c (i, ldpc_probe) = i == idx && is_ldpc c.fec_coding

abbrev pub filter_option {ℓ} : {T : Type ℓ} → (T → Bool) → Option T → Option T
filter_option test none = none
filter_option test (some t) = if test t then some t else none

abbrev pub is_ldpc_probe : Option (ℕ × Probe) → Bool
is_ldpc_probe (some (i, ldpc_probe)) = true
is_ldpc_probe (some (i, mcs_probe above)) = false
is_ldpc_probe (some (i, short_gi_probe)) = false
is_ldpc_probe none = false

abbrev pub is_mcs_probe : Option Probe → Bool
is_mcs_probe (some (mcs_probe above)) = true
is_mcs_probe (some short_gi_probe) = false
is_mcs_probe (some ldpc_probe) = false
is_mcs_probe none = false

module _ (fl : Floats) where
  -- The sample enters the statistics of its index and guard interval.
  unfoldable pub note_sample : RateControl fl → ℕ → Bool → Bool → Peer fl → Peer fl
  note_sample rc idx g success p =
      let st = stat_at fl p idx g in
      let sample = whole fl (bit_of success) in
      set_stat fl idx g
        (record {
          attempts = st.attempts + 1;
          successes = st.successes + bit_of success;
          p = elim st.p [
            | none ↦ some sample
            | some v ↦ some (fl.single.add v (fl.single.mul rc.cfg.alpha (fl.single.sub sample v)))
          ];
        })
        p

  -- The first failure of a batch is where its retries start.
  unfoldable pub note_failed : RateControl fl → ℕ → Bool → Bool → Bool → Peer fl → Peer fl
  note_failed rc idx g was_ldpc success p =
      if success then record p { failed = none } else (elim p.failed [
        | some f ↦ p
        | none ↦ record p {
          failed =
              some
                (record { idx = idx; gi_step = g && is_auto rc.cfg.gi; was_ldpc_probe = was_ldpc });
        }
      ])

  -- A statistic that starts at a floor: `p = Some(p.unwrap_or(0.0).max(floor))`
  unfoldable pub raise_to : ℕ → Bool → fl.F32 → Peer fl → Peer fl
  raise_to idx g floor' p =
      let st = stat_at fl p idx g in
      set_stat fl idx g
        (record st { p = some (fl.single.larger (value_or fl st.p (whole fl 0)) floor') }) p

  -- The probe's success or failure.
  unfoldable pub note_probe : RateControl fl → Bool → Bool → ℕ → Probe → Peer fl → Peer fl
  unfolding raise_to backed_off
  note_probe rc g true probed (mcs_probe above) p =
      record (raise_to probed g (floor_mcs fl p rc.cfg.p_min rc.cfg.fail_cost_us probed g) p) {
        mcs_backoff = 0;
        probe_fail_snr_db = none;
      }
  note_probe rc g false probed (mcs_probe above) p =
      let base =
        if above then override_intervals * rc.cfg.probe_interval else rc.cfg.probe_interval in
      record p {
        mcs_backoff = backed_off base rc.cfg.probe_backoff_max p.mcs_backoff;
        probe_fail_snr_db = p.snr_db;
      }
  note_probe rc g true probed short_gi_probe p =
      raise_to probed true (floor_gi fl p rc.cfg.p_min rc.cfg.fail_cost_us probed)
        (record p { uses_short_gi = true; gi_backoff = 0 })
  note_probe rc g false probed short_gi_probe p = record p {
    gi_backoff = backed_off rc.cfg.probe_interval rc.cfg.probe_backoff_max p.gi_backoff;
  }
  note_probe rc g true probed ldpc_probe p = record p { uses_ldpc = true; fec_backoff = 0 }
  note_probe rc g false probed ldpc_probe p = record p {
    fec_backoff = backed_off rc.cfg.probe_interval rc.cfg.probe_backoff_max p.fec_backoff;
  }

  unfoldable pub end_probe : RateControl fl → Bool → Bool → Option (ℕ × Probe) → Peer fl → Peer fl
  end_probe rc g success none p = p
  end_probe rc g success (some (probed, kind)) p =
      note_probe rc g success probed kind (record p { probing = none })

  -- A smoothed probability against its floor, with the slack of the comparison.
  unfoldable pub reaches : fl.F32 → fl.F32 → Bool
  reaches v floor' = fl.single.le floor' (fl.single.add v (fl.single.ratio 1 10000))

  unfoldable pub falls_short : fl.F32 → fl.F32 → Bool
  falls_short v floor' = fl.single.lt (fl.single.add v (fl.single.ratio 1 10000)) floor'

  -- The short guard interval in use is given up when it is failing.
  unfoldable pub check_gi : RateControl fl → Peer fl → Peer fl
  unfolding backed_off
  check_gi rc p =
      let failing : Bool = elim ((stat_at fl p p.cur true).p) [
        | none ↦ false
        | some v ↦ falls_short v (floor_gi fl p rc.cfg.p_min rc.cfg.fail_cost_us p.cur)
      ] in
      if (is_auto rc.cfg.gi && p.uses_short_gi) && failing
      then record p {
        uses_short_gi = false;
        gi_backoff = backed_off rc.cfg.probe_interval rc.cfg.probe_backoff_max p.gi_backoff;
      }
      else p

  unfoldable pub gi_used : RateControl fl → Peer fl → Bool
  gi_used rc p = elim rc.cfg.gi [ fixed g ↦ is_short_gi g | auto ↦ p.uses_short_gi ]

  unfoldable pub good : RateControl fl → Peer fl → ℕ → Bool
  good rc p i = elim ((stat_at fl p i (gi_used rc p)).p) [
    | none ↦ false
    | some v ↦ reaches v (floor_mcs fl p rc.cfg.p_min rc.cfg.fail_cost_us i (gi_used rc p))
  ]

  unfoldable pub known_good : RateControl fl → Peer fl → Option ℕ
  known_good rc p = greatest (good rc p) rc.lo (rc.hi - rc.lo)

  abbrev pub is_tried : Option fl.F32 → Bool
  is_tried none = false
  is_tried (some v) = true

  -- The rate below a failing one.
  unfoldable pub fall_back : RateControl fl → Peer fl → ℕ
  fall_back rc p =
      index_or (filter_option (λ k. ltb k p.cur) (known_good rc p)) (max (p.cur - 1) rc.lo)

  -- The rate in use after the sample: one that fails is left, and a better one that works is taken.
  unfoldable pub move_rate : RateControl fl → Peer fl → Peer fl
  unfolding backed_off
  move_rate rc p =
      let below = fall_back rc p in
      let best = max p.cur (index_or (known_good rc p) p.cur) in
      if is_tried ((stat_at fl p p.cur (gi_used rc p)).p) && not (good rc p p.cur)
      then (if ltb below p.cur
            && (ltb p.since_probe rc.cfg.probe_interval && is_mcs_probe p.last_probe)
          then record p {
            cur = below;
            mcs_backoff = backed_off rc.cfg.probe_interval rc.cfg.probe_backoff_max p.mcs_backoff;
            probe_fail_snr_db = p.snr_db;
          }
          else record p { cur = below })
      else record p { cur = best }

  unfoldable pub note_outcome : RateControl fl → ℕ → TxChoice → Bool → Peer fl → Peer fl
  note_outcome rc idx c success p =
      let g = is_short_gi c.gi in
      let probe = filter_option (fits_probe idx c) p.probing in
      move_rate rc (
        check_gi rc (
          end_probe rc g success probe
            (note_failed rc idx g (is_ldpc_probe probe) success (note_sample rc idx g success p))))

  unfoldable pub report : RateControl fl → MacAddr → TxChoice → Bool → RateControl fl
  unfolding note_outcome
  report rc a c success = elim (ladder_index c.mcs) [
    | none ↦ rc
    | some idx ↦ with_peer fl rc a (note_outcome rc idx c success (peer_of fl rc a))
  ]
