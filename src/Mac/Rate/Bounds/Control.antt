-- ===== src/Mac/Rate/Bounds/Control.antt =====
-- rate.rs: every history of calls keeps the controller in its ranges, and so its choices.
use s2g.Base.{
  ℕ, zero, suc, ◌+◌, ◌≤◌, ◌<◌, List, [], ◌∷◌, Bool, Option, none, some, ltb, ◌≡◌, refl, arith,
  Option-cases, inl, inr, All, Bool-cases, subst, lt→ltb,
}
use s2g.Base.Floats.{Floats}
use s2g.Mac.Addr.{MacAddr}
use s2g.Mac.Rate.Types.{
  Peer, RateConfig, RateControl, TxChoice, find_peer, put_peer, ladder_index, ladder_mcs, mac_eq,
}
use s2g.Mac.Rate.Select.{
  new_control, set_fail_cost_us, peer_of, with_peer, smooth, rearm, open_rate, observe_snr,
  observe_cfo, observe_delay_spread, select_retry, select_fresh, mcs_due, select, index_or, untried,
  select_due, retry_from,
}
use s2g.Mac.Rate.Report.{report}
use s2g.Mac.Rate.Bounds.Ladder.{ladder_index-ladder_mcs, OnLadder}
use s2g.Mac.Rate.Bounds.Peers.{InBounds, new_peer_kept, start_index_bounds, note_outcome_kept}

module _ (fl : Floats) where
  pub record ControlIsBounded (rc : RateControl fl) : Type 0 where
    pub lo_le_hi : rc.lo ≤ rc.hi
    pub hi_lt : rc.hi < 10
    pub peers_kept : All (λ e. InBounds fl rc e.1) rc.peers

  index_or_lt : (m d : ℕ) → d < 10 → index_or (ladder_index m) d < 10
  index_or_lt m d h = elim (Option-cases (ladder_index m)) [
    | inl e ↦ rw e h
    | inr (i, e) ↦ rw e ((ladder_index-ladder_mcs m i e).0)
  ]

  pub new_control_kept : (c : RateConfig fl) → ControlIsBounded (new_control fl c)
  unfolding new_control
  new_control_kept c = record {
    lo_le_hi = omega arith;
    hi_lt = omega (arith, index_or_lt c.max_mcs 9, index_or_lt c.min_mcs 0);
    peers_kept = tt;
  }

  pub set_fail_cost_us_kept :
      (rc : RateControl fl) (us : ℕ)
      → ControlIsBounded rc
      → ControlIsBounded (set_fail_cost_us fl us rc)
  unfolding set_fail_cost_us
  set_fail_cost_us_kept rc us k = record {
    lo_le_hi = k.lo_le_hi;
    hi_lt = k.hi_lt;
    peers_kept = k.peers_kept;
  }

  find_peer_kept :
      (rc : RateControl fl) (a : MacAddr) (ps : List (MacAddr × Peer fl)) (p : Peer fl)
      → All (λ e. InBounds fl rc e.1) ps
      → find_peer fl a ps ≡ some p
      → InBounds fl rc p
  unfolding find_peer
  find_peer_kept rc a [] p h e = ground arith
  find_peer_kept rc a ((b, q) ∷ ps) p (k, h) e = elim (Bool-cases (mac_eq b a)) [
    | inl t ↦ (let e' : some q ≡ some p = ground arith in subst (InBounds fl rc) (cc) k)
    | inr f ↦ find_peer_kept rc a ps p h (ground arith)
  ]

  put_peer_kept :
      (rc : RateControl fl) (a : MacAddr) (p : Peer fl) (ps : List (MacAddr × Peer fl))
      → InBounds fl rc p
      → All (λ e. InBounds fl rc e.1) ps
      → All (λ e. InBounds fl rc e.1) (put_peer fl a p ps)
  unfolding put_peer
  put_peer_kept rc a p [] k h = (k, tt)
  put_peer_kept rc a p ((b, q) ∷ ps) k (l, h) = elim (Bool-cases (mac_eq b a)) [
    | inl t ↦ rw t (k, h)
    | inr f ↦ rw f (l, put_peer_kept rc a p ps k h)
  ]

  peer_of_kept :
      (rc : RateControl fl) (a : MacAddr) → ControlIsBounded rc → InBounds fl rc (peer_of fl rc a)
  unfolding peer_of
  peer_of_kept rc a k = elim (Option-cases (find_peer fl a rc.peers)) [
    | inl e ↦ rw (e, peer_of) (new_peer_kept fl rc k.lo_le_hi)
    | inr (p, e) ↦ rw (e, peer_of) (find_peer_kept rc a rc.peers p k.peers_kept e)
  ]

  with_peer_kept :
      (rc : RateControl fl) (a : MacAddr) (p : Peer fl)
      → ControlIsBounded rc
      → InBounds fl rc p
      → ControlIsBounded (with_peer fl rc a p)
  unfolding with_peer
  with_peer_kept rc a p k h = record {
    lo_le_hi = k.lo_le_hi;
    hi_lt = k.hi_lt;
    peers_kept = put_peer_kept rc a p rc.peers h k.peers_kept;
  }

  rearm_kept :
      (rc : RateControl fl) (x : fl.F32) (p : Peer fl)
      → InBounds fl rc p
      → InBounds fl rc (rearm fl rc x p)
  unfolding rearm
  rearm_kept rc x p k = ground arith

  open_rate_kept :
      (rc : RateControl fl) (x : fl.F32) (p : Peer fl)
      → rc.lo ≤ rc.hi
      → InBounds fl rc p
      → InBounds fl rc (open_rate fl rc x p)
  unfolding open_rate
  open_rate_kept rc x p h k = elim (Bool-cases (untried fl p.stats)) [
    | inl e ↦ rw e (ground (arith, start_index_bounds fl rc (some x)))
    | inr e ↦ rw e k
  ]

  pub observe_snr_kept :
      (rc : RateControl fl) (a : MacAddr) (x : fl.F32)
      → ControlIsBounded rc
      → ControlIsBounded (observe_snr fl rc a x)
  unfolding observe_snr
  observe_snr_kept rc a x k =
      let k' = peer_of_kept rc a k in
      let snr = smooth fl (peer_of fl rc a).snr_db x in
      let p : Peer fl = record (peer_of fl rc a) { snr_db = some snr } in
      elim (Bool-cases (fl.single.is_finite x)) [
        | inl e ↦ rw e (
            with_peer_kept rc a _ k
              (open_rate_kept rc snr _ k.lo_le_hi (rearm_kept rc snr p (ground arith))))
        | inr e ↦ rw e k
      ]

  pub observe_cfo_kept :
      (rc : RateControl fl) (a : MacAddr) (x : fl.F32)
      → ControlIsBounded rc
      → ControlIsBounded (observe_cfo fl rc a x)
  unfolding observe_cfo
  observe_cfo_kept rc a x k =
      let k' = peer_of_kept rc a k in
      elim (Bool-cases (fl.single.is_finite x)) [
        | inl e ↦ rw e (with_peer_kept rc a _ k (ground arith))
        | inr e ↦ rw e k
      ]

  pub observe_delay_spread_kept :
      (rc : RateControl fl) (a : MacAddr) (x : fl.F32)
      → ControlIsBounded rc
      → ControlIsBounded (observe_delay_spread fl rc a x)
  unfolding observe_delay_spread
  observe_delay_spread_kept rc a x k =
      let k' = peer_of_kept rc a k in
      elim (Bool-cases (fl.single.is_finite x)) [
        | inl e ↦ rw e (with_peer_kept rc a _ k (ground arith))
        | inr e ↦ rw e k
      ]

  mcs_due-lt :
      (rc : RateControl fl) (p : Peer fl) (n : ℕ) (b : Bool)
      → mcs_due fl rc p n ≡ some b
      → p.cur + 1 ≤ rc.hi
  unfolding mcs_due
  mcs_due-lt rc p n b e = ground arith

  select_due_kept :
      (rc : RateControl fl) (p : Peer fl) (due : Option Bool)
      → ((b : Bool) → due ≡ some b → p.cur + 1 ≤ rc.hi)
      → InBounds fl rc p
      → InBounds fl rc ((select_due fl rc p due).1)
        × OnLadder rc.lo rc.hi (((select_due fl rc p due).0).mcs)
  unfolding select_due
  select_due_kept rc p none h k =
      let e : ((select_due fl rc p none).0).mcs ≡ ladder_mcs p.cur = ground arith in
      (ground arith, (p.cur, k.lo_le, k.le_hi, e))
  select_due_kept rc p (some b) h k =
      let d = h b refl in (ground arith, (p.cur + 1, omega arith, d, refl))

  select_fresh_kept :
      (rc : RateControl fl) (p : Peer fl) (n : ℕ)
      → InBounds fl rc p
      → InBounds fl rc ((select_fresh fl rc p n).1)
        × OnLadder rc.lo rc.hi (((select_fresh fl rc p n).0).mcs)
  unfolding select_fresh
  select_fresh_kept rc p n = select_due_kept rc p (mcs_due fl rc p n) (mcs_due-lt rc p n)

  pub select_kept :
      (rc : RateControl fl) (a : MacAddr) (retry n : ℕ)
      → ControlIsBounded rc
      → ControlIsBounded ((select fl rc a retry n).1)
  unfolding select
  select_kept rc a retry n k =
      let k' = peer_of_kept rc a k in
      let p : Peer fl = record (peer_of fl rc a) { probing = none; octets = n } in
      let q : Peer fl = record p { failed = none; since_probe = p.since_probe + 1 } in
      elim (Bool-cases (ltb 0 retry)) [
        | inl e ↦ rw e (with_peer_kept rc a p k (ground arith))
        | inr e ↦ rw e (with_peer_kept rc a _ k (select_fresh_kept rc q n (ground arith)).0)
      ]

  pub report_kept :
      (rc : RateControl fl) (a : MacAddr) (c : TxChoice) (success : Bool)
      → ControlIsBounded rc
      → ControlIsBounded (report fl rc a c success)
  unfolding report
  report_kept rc a c success k = elim (Option-cases (ladder_index c.mcs)) [
    | inl e ↦ rw (e, report) k
    | inr (i, e) ↦
        rw (e, report)
          (with_peer_kept rc a _ k (
            note_outcome_kept fl rc i c success _ ((ladder_index-ladder_mcs c.mcs i e).0)
              (peer_of_kept rc a k)))
  ]

  -- What a fresh attempt is sent at.
  pub select_fresh_range :
      (rc : RateControl fl) (a : MacAddr) (n : ℕ)
      → ControlIsBounded rc
      → OnLadder rc.lo rc.hi (((select fl rc a 0 n).0).mcs)
  unfolding select
  select_fresh_range rc a n k =
      let k' = peer_of_kept rc a k in
      (select_fresh_kept rc
        (record (peer_of fl rc a) {
          probing = none;
          octets = n;
          failed = none;
          since_probe = (peer_of fl rc a).since_probe + 1;
        })
        n (ground arith)).1

  retry_from-lt :
      (rc : RateControl fl) (p : Peer fl)
      → rc.hi < 10
      → InBounds fl rc p
      → (retry_from fl rc p).idx < 10
  unfolding retry_from
  retry_from-lt rc p h k = ground arith

  select_retry_range :
      (rc : RateControl fl) (p : Peer fl) (retry : ℕ)
      → rc.lo ≤ rc.hi
      → rc.hi < 10
      → InBounds fl rc p
      → OnLadder rc.lo 9 ((select_retry fl rc p retry).mcs)
  unfolding select_retry
  select_retry_range rc p retry h h' k =
      let lt = retry_from-lt rc p h' k in (_, omega arith, omega arith, refl)

  pub select_range :
      (rc : RateControl fl) (a : MacAddr) (retry n : ℕ)
      → ControlIsBounded rc
      → OnLadder rc.lo 9 (((select fl rc a retry n).0).mcs)
  unfolding select
  select_range rc a zero n k =
      let (i, p, q, e) = select_fresh_range rc a n k in (i, p, omega (arith, k.hi_lt), e)
  select_range rc a (suc r) n k =
      let k' = peer_of_kept rc a k in
      let p : Peer fl = record (peer_of fl rc a) { probing = none; octets = n } in
      rw (lt→ltb 0 (suc r) (omega arith))
        (select_retry_range rc p (suc r) k.lo_le_hi k.hi_lt (ground arith))
