-- ===== src/Mac/Rate/Bounds/History.antt =====
-- rate.rs: the calls of a controller, in any order, and what holds after all of them.
use s2g.Base.{
  ℕ, ◌≤◌, ◌≡◌, max, Bool, Option, some, refl, ◌∙◌, ap, ap₂, Option-cases, inl, inr, ltb, arith,
  if_both,
}
use s2g.Base.Floats.{Floats}
use s2g.Mac.Addr.{MacAddr}
use s2g.Mac.Rate.Types.{RateConfig, RateControl, TxChoice, ladder_index}
use s2g.Mac.Rate.Select.{
  new_control, set_fail_cost_us, observe_snr, observe_cfo, observe_delay_spread, select, with_peer,
  index_or,
}
use s2g.Mac.Rate.Report.{report}
use s2g.Mac.Rate.Bounds.Ladder.{OnLadder, ladder_index-ladder_mcs, ladder_mcs_mono}
use s2g.Mac.Rate.Bounds.Control.{
  ControlIsBounded, set_fail_cost_us_kept, new_control_kept, observe_snr_kept, observe_cfo_kept,
  observe_delay_spread_kept, select_kept, report_kept, select_range, select_fresh_range,
}

module _ (fl : Floats) where
  -- One call of the controller.
  pub data ControlCall (rc : RateControl fl) : RateControl fl → Type 0 where
    cost : (us : ℕ) → ControlCall rc (set_fail_cost_us fl us rc)
    heard_snr : (a : MacAddr) (x : fl.F32) → ControlCall rc (observe_snr fl rc a x)
    heard_cfo : (a : MacAddr) (x : fl.F32) → ControlCall rc (observe_cfo fl rc a x)
    heard_delay : (a : MacAddr) (x : fl.F32) → ControlCall rc (observe_delay_spread fl rc a x)
    attempt : (a : MacAddr) (retry n : ℕ) → ControlCall rc ((select fl rc a retry n).1)
    outcome :
        (a : MacAddr) (c : TxChoice) (success : Bool) → ControlCall rc (report fl rc a c success)

  -- The controllers that calls make of a new one.
  pub data History (cfg : RateConfig fl) : RateControl fl → Type 0 where
    fresh : History cfg (new_control fl cfg)
    next : {rc rc' : RateControl fl} → History cfg rc → ControlCall rc rc' → History cfg rc'

  ControlCall-kept :
      {rc rc' : RateControl fl}
      → ControlCall rc rc'
      → ControlIsBounded fl rc
      → ControlIsBounded fl rc'
  ControlCall-kept {rc} (cost us) k = set_fail_cost_us_kept fl rc us k
  ControlCall-kept {rc} (heard_snr a x) k = observe_snr_kept fl rc a x k
  ControlCall-kept {rc} (heard_cfo a x) k = observe_cfo_kept fl rc a x k
  ControlCall-kept {rc} (heard_delay a x) k = observe_delay_spread_kept fl rc a x k
  ControlCall-kept {rc} (attempt a retry n) k = select_kept fl rc a retry n k
  ControlCall-kept {rc} (outcome a c success) k = report_kept fl rc a c success k

  -- After any calls of a new controller, whatever the floating-point arithmetic returns: the range
  -- of rates is on the ladder, and every peer has a rate in use and a probe in that range, backoffs
  -- of at most the configured maximum, statistics for every rate, and a failed attempt on the ladder.
  pub History-ControlIsBounded :
      (cfg : RateConfig fl) (rc : RateControl fl) → History cfg rc → ControlIsBounded fl rc
  History-ControlIsBounded cfg _ fresh = new_control_kept fl cfg
  History-ControlIsBounded cfg _ (next {rc} h c) =
      ControlCall-kept c (History-ControlIsBounded cfg rc h)

  -- Calls leave the range as it is.
  SameRange : RateControl fl → RateControl fl → Type 0
  SameRange rc rc' = (rc'.lo ≡ rc.lo) × (rc'.hi ≡ rc.hi)

  ControlCall-SameRange : {rc rc' : RateControl fl} → ControlCall rc rc' → SameRange rc rc'
  unfolding SameRange set_fail_cost_us observe_snr observe_cfo observe_delay_spread select report
      with_peer
  ControlCall-SameRange {rc} (cost us) = (refl, refl)
  ControlCall-SameRange {rc} (heard_snr a x) =
      if_both (SameRange rc) (fl.single.is_finite x) (refl, refl) (refl, refl)
  ControlCall-SameRange {rc} (heard_cfo a x) =
      if_both (SameRange rc) (fl.single.is_finite x) (refl, refl) (refl, refl)
  ControlCall-SameRange {rc} (heard_delay a x) =
      if_both (SameRange rc) (fl.single.is_finite x) (refl, refl) (refl, refl)
  ControlCall-SameRange {rc} (attempt a retry n) =
      if_both (λ (r : TxChoice × RateControl fl). SameRange rc r.1) (ltb 0 retry) (refl, refl)
        (refl, refl)
  ControlCall-SameRange {rc} (outcome a c success) = elim (Option-cases (ladder_index c.mcs)) [
    | inl e ↦ rw (e, report) (refl, refl)
    | inr (i, e) ↦ rw (e, report) (refl, refl)
  ]

  History-SameRange :
      (cfg : RateConfig fl) (rc : RateControl fl)
      → History cfg rc
      → SameRange (new_control fl cfg) rc
  unfolding SameRange
  History-SameRange cfg _ fresh = (refl, refl)
  History-SameRange cfg _ (next {rc} h c) =
      let (a, b) = History-SameRange cfg rc h in
      let (a', b') = ControlCall-SameRange c in (a' ∙ a, b' ∙ b)

  -- After any calls of a controller whose configuration has its lowest MCS at the ladder's index `l` and
  -- its highest at the index `h`, not below: the MCS chosen for a fresh attempt is the ladder's at an
  -- index from `l` to `h`, so that it is not below the lowest MCS configured nor above the highest; for
  -- a retry it is the ladder's at an index from `l` on, not below the lowest MCS configured.
  pub select-OnLadder :
      (cfg : RateConfig fl) (rc : RateControl fl) (a : MacAddr) (retry n l h : ℕ)
      → ladder_index cfg.min_mcs ≡ some l
      → ladder_index cfg.max_mcs ≡ some h
      → l ≤ h
      → History cfg rc
      → OnLadder l h (((select fl rc a 0 n).0).mcs)
        × OnLadder l 9 (((select fl rc a retry n).0).mcs)
        × (cfg.min_mcs ≤ ((select fl rc a 0 n).0).mcs)
        × (((select fl rc a 0 n).0).mcs ≤ cfg.max_mcs)
        × (cfg.min_mcs ≤ ((select fl rc a retry n).0).mcs)
  unfolding new_control SameRange
  select-OnLadder cfg rc a retry n l h low high le past =
      let k = History-ControlIsBounded cfg rc past in
      let (lo_is, hi_is) = History-SameRange cfg rc past in
      let is_l : rc.lo ≡ l = lo_is ∙ ap (λ (o : Option ℕ). index_or o 0) low in
      let is_h : rc.hi ≡ h =
        hi_is
        ∙ (ap₂ (λ (o o' : Option ℕ). max (index_or o 9) (index_or o' 0)) high low
            ∙ omega (arith, le)) in
      let (i, p, q, e) = select_fresh_range fl rc a n k in
      let (j, p', q', e') = select_range fl rc a retry n k in
      let (in_l, at_l) = ladder_index-ladder_mcs cfg.min_mcs l low in
      let (in_h, at_h) = ladder_index-ladder_mcs cfg.max_mcs h high in
      (
        (i, omega (arith, p, is_l), omega (arith, q, is_h), e),
        (j, omega (arith, p', is_l), q', e'),
        omega (
          arith,
          at_l,
          e,
          ladder_mcs_mono l i (omega (arith, p, is_l)) (omega (arith, q, is_h, in_h)),
        ),
        omega (arith, at_h, e, ladder_mcs_mono i h (omega (arith, q, is_h)) in_h),
        omega (arith, at_l, e', ladder_mcs_mono l j (omega (arith, p', is_l)) (omega (arith, q'))),
      )
