-- ===== src/Mac/Rate/Hints.antt =====
-- rate.rs: what the reported SNR allows, what a rate saves, and how reliable it has to be.
use s2g.Base.{
  ℕ, zero, suc, ◌+◌, max, List, [], ◌∷◌, Bool, true, false, Option, none, some, ◌&&◌, ltb,
  if◌then◌else◌, get_or,
}
use s2g.Base.Floats.{Floats, clamp}
use s2g.Phy.Params.{n_dbps_2mhz}
use s2g.Mac.Rate.Types.{ladder_mcs, Peer, stat_at}

module _ (fl : Floats) where
  -- `o.unwrap_or(x)` of a single-precision number
  abbrev pub value_or : Option fl.F32 → fl.F32 → fl.F32
  value_or none x = x
  value_or (some y) x = y

  abbrev pub whole : ℕ → fl.F32
  whole n = fl.single.of_nat n

  unfoldable pub snr_required_db : List fl.F32
  snr_required_db =
      fl.single.ratio 85 10
      ∷ fl.single.ratio 10 1
      ∷ fl.single.ratio 105 10
      ∷ fl.single.ratio 115 10
      ∷ fl.single.ratio 155 10
      ∷ fl.single.ratio 19 1
      ∷ fl.single.ratio 205 10
      ∷ fl.single.ratio 22 1
      ∷ fl.single.ratio 26 1
      ∷ fl.single.ratio 31 1
      ∷ []

  unfoldable pub ldpc_gain_db : fl.F32
  ldpc_gain_db = fl.single.ratio 18 10

  unfoldable pub p_flawless : fl.F32
  p_flawless = fl.single.ratio 98 100

  unfoldable pub snr_required : ℕ → Bool → fl.F32
  unfolding snr_required_db ldpc_gain_db
  snr_required idx uses_ldpc =
      fl.single.sub (get_or snr_required_db idx (whole 0))
        (if uses_ldpc && ltb 0 idx then ldpc_gain_db else whole 0)

  unfoldable pub snr_allows : fl.F32 → Option fl.F32 → ℕ → Bool → Bool
  snr_allows margin none idx uses_ldpc = true
  snr_allows margin (some s) idx uses_ldpc =
      fl.single.le (fl.single.add (snr_required idx uses_ldpc) margin) s

  unfoldable pub airtime_per_octet_us : ℕ → fl.F64
  airtime_per_octet_us idx =
      fl.double.div (fl.double.of_nat 320)
        (fl.double.of_nat (elim (n_dbps_2mhz (ladder_mcs idx) 1) [ none ↦ 26 | some n ↦ n ]))

  unfoldable pub airtime_saving_us : ℕ → ℕ → ℕ → ℕ
  airtime_saving_us from to octets = fl.double.to_nat (
      fl.double.mul
        (fl.double.larger (fl.double.sub (airtime_per_octet_us from) (airtime_per_octet_us to))
          (fl.double.of_nat 0))
        (fl.double.of_nat octets))

  unfoldable pub floor : fl.F32 → ℕ → fl.F32 → fl.F64 → fl.F32
  unfolding p_flawless
  floor p_min fail_cost_us below saving_us =
      clamp fl.single
        (fl.single.sub below (fl.single.div (fl.narrow saving_us) (whole (max fail_cost_us 1))))
        p_min p_flawless

  unfoldable pub floor_mcs : Peer fl → fl.F32 → ℕ → ℕ → Bool → fl.F32
  floor_mcs p p_min fail_cost_us zero g = p_min
  floor_mcs p p_min fail_cost_us (suc below) g =
      floor p_min fail_cost_us (value_or (stat_at fl p below g).p (whole 1))
        (fl.double.of_nat (airtime_saving_us below (suc below) p.octets))

  unfoldable pub floor_gi : Peer fl → fl.F32 → ℕ → ℕ → fl.F32
  floor_gi p p_min fail_cost_us idx =
      floor p_min fail_cost_us (value_or (stat_at fl p idx false).p (whole 1)) (
        fl.double.mul (fl.double.mul (fl.double.ratio 1 10) (airtime_per_octet_us idx))
          (fl.double.of_nat p.octets))

-- The greatest index of `lo ..= lo + n` that a test accepts: `(lo..=hi).filter(test).max()`.
unfoldable pub greatest : (ℕ → Bool) → ℕ → ℕ → Option ℕ
greatest test lo zero = if test lo then some lo else none
greatest test lo (suc n) =
    let lower = greatest test lo n in if test (lo + suc n) then some (lo + suc n) else lower
