-- ===== src/Mac/Engine/Delay.antt =====
-- engine.rs: the estimate of the response delay, and the wait for a response that follows from it.
use s2g.Base.{
  ℕ, ◌+◌, ◌-◌, ◌*◌, ◌/◌, ◌≤◌, ◌≡◌, max, min, List, [], ◌∷◌, true, none, some, All, refl, ap, ◌∙◌,
  subst, arith,
}
use s2g.Base.Floats.{Floats}
use s2g.Mac.Engine.Types.{Mac, MacConfig}
use s2g.Mac.Rate.Select.{set_fail_cost_us}
use s2g.Mac.Engine.Timing.{abs_diff, smooth_delay, response_timeout_us, update_response_delay}

-- A delay between two others.
abbrev pub Between : ℕ → ℕ → ℕ → Type 0
Between lo hi x = (lo ≤ x) × (x ≤ hi)

-- A variation of at most the half of the longest delay, or the spread of the delays.
abbrev pub variation : ℕ → ℕ → ℕ
variation lo hi = max (hi / 2) (hi - lo)

module _ (fl : Floats) where
  -- The engine after the samples, the first one first.
  unfoldable pub learn : List ℕ → Mac fl → Mac fl
  unfolding update_response_delay
  learn [] m = m
  learn (x ∷ xs) m = learn xs (update_response_delay fl x m)

  -- An estimate within the samples.
  record IsLearnt (lo hi : ℕ) (m : Mac fl) : Type 0 where
    srtt : ℕ
    has_srtt : m.resp_srtt_us ≡ some srtt
    at_least : lo ≤ srtt
    at_most : srtt ≤ hi
    varies : m.resp_rttvar_us ≤ variation lo hi

  first_sample :
      (lo hi x : ℕ) (m : Mac fl)
      → m.resp_srtt_us ≡ none
      → Between lo hi x
      → IsLearnt lo hi (update_response_delay fl x m)
  unfolding update_response_delay smooth_delay
  first_sample lo hi x m e (p, q) = record {
    srtt = x;
    has_srtt = rw e refl;
    at_least = p;
    at_most = q;
    varies = rw e (omega arith);
  }

  next_sample :
      (lo hi x : ℕ) (m : Mac fl)
      → IsLearnt lo hi m
      → Between lo hi x
      → IsLearnt lo hi (update_response_delay fl x m)
  unfolding update_response_delay smooth_delay abs_diff
  next_sample lo hi x m k (p, q) = record {
    srtt = (7 * k.srtt + x) / 8;
    has_srtt = rw k.has_srtt refl;
    at_least = omega (arith, k.at_least);
    at_most = omega (arith, k.at_most);
    varies = rw k.has_srtt (omega (arith, k.at_least, k.at_most, k.varies));
  }

  learn-IsLearnt :
      (lo hi : ℕ) (xs : List ℕ) (m : Mac fl)
      → All (Between lo hi) xs
      → IsLearnt lo hi m
      → IsLearnt lo hi (learn xs m)
  unfolding learn
  learn-IsLearnt lo hi [] m h k = k
  learn-IsLearnt lo hi (x ∷ xs) m (p, h) k =
      learn-IsLearnt lo hi xs (update_response_delay fl x m) h (next_sample lo hi x m k p)

  -- Learning changes no setting, and the cost of a failure is the wait in force.
  learn_settings :
      (x : ℕ) (xs : List ℕ) (m : Mac fl)
      → (((learn (x ∷ xs) m).cfg) ≡ m.cfg)
        × ((learn (x ∷ xs) m).rate.cfg.fail_cost_us ≡ response_timeout_us fl (learn (x ∷ xs) m))
  unfolding learn update_response_delay smooth_delay set_fail_cost_us response_timeout_us
  learn_settings x [] m = (refl, refl)
  learn_settings x (y ∷ xs) m = learn_settings y xs (update_response_delay fl x m)

  -- A wait of `t` within the limits of the settings.
  abbrev pub limited : MacConfig fl → ℕ → ℕ
  limited g t = min (max t (min 5000 g.ack_timeout_us)) g.ack_timeout_us

  IsLearnt-wait :
      (lo hi : ℕ) (m : Mac fl)
      → m.cfg.ack_timeout_adaptive ≡ true
      → IsLearnt lo hi m
      → Between
          (limited m.cfg (lo + lo / 2 + 4000))
          (limited m.cfg (hi + 4 * variation lo hi + 4000))
          (response_timeout_us fl m)
  unfolding response_timeout_us
  IsLearnt-wait lo hi m a k =
      rw (k.has_srtt, response_timeout_us, a)
        (omega (arith, k.at_least), omega (arith, k.at_most, k.varies))

  -- With adaptation, after responses of which each took from `lo` to `hi`, the wait for the next one is
  -- at least one and a half times `lo` and at most `hi` with four times the greater of the half of `hi`
  -- and the spread, each with the headroom and within the limits of the settings; and the rate
  -- controller counts that wait as the cost of a failure.
  pub learn_wait :
      (lo hi x : ℕ) (xs : List ℕ) (m : Mac fl)
      → m.cfg.ack_timeout_adaptive ≡ true
      → m.resp_srtt_us ≡ none
      → All (Between lo hi) (x ∷ xs)
      → Between
          (limited m.cfg (lo + lo / 2 + 4000))
          (limited m.cfg (hi + 4 * variation lo hi + 4000))
          (response_timeout_us fl (learn (x ∷ xs) m))
        × ((learn (x ∷ xs) m).rate.cfg.fail_cost_us ≡ response_timeout_us fl (learn (x ∷ xs) m))
  unfolding learn
  learn_wait lo hi x xs m a e (p, h) =
      let (same, cost) = learn_settings x xs m in
      let k =
        learn-IsLearnt lo hi xs (update_response_delay fl x m) h (first_sample lo hi x m e p) in
      let w =
        IsLearnt-wait lo hi (learn (x ∷ xs) m)
          (ap (λ (g : MacConfig fl). g.ack_timeout_adaptive) same ∙ a) k in
      (
        subst
            (λ (g : MacConfig fl).
              Between (limited g (lo + lo / 2 + 4000)) (limited g (hi + 4 * variation lo hi + 4000))
                (response_timeout_us fl (learn (x ∷ xs) m)))
            same w,
        cost,
      )
