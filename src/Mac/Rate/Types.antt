-- ===== src/Mac/Rate/Types.antt =====
-- crates/s2g-mac/src/rate.rs: the state of the rate controller. Counters are unbounded numbers.
use s2g.Base.{
  ℕ, suc, ◌-◌, List, [], ◌∷◌, Bool, true, false, Option, none, some, ◌==◌, ◌&&◌, if◌then◌else◌,
  get_or, set,
}
use s2g.Base.Floats.{Floats}
use s2g.Mac.Addr.{MacAddr}
use s2g.Phy.Vector.{GuardInterval, long_gi, short_gi, Coding, bcc, ldpc}

abbrev pub ladder : List ℕ
ladder = 0 ∷ 1 ∷ 2 ∷ 3 ∷ 4 ∷ 5 ∷ 6 ∷ 7 ∷ 8 ∷ 11 ∷ []

unfoldable pub position : ℕ → List ℕ → Option ℕ
position m [] = none
position m (x ∷ xs) =
    let later = position m xs in
    if x == m then some 0 else (elim later [ none ↦ none | some i ↦ some (suc i) ])

unfoldable pub ladder_index : ℕ → Option ℕ
ladder_index mcs = position mcs ladder

-- `LADDER[idx]`, for the indices below ten.
unfoldable pub ladder_mcs : ℕ → ℕ
ladder_mcs idx = get_or ladder idx 0

unfoldable pub next_lower : ℕ → ℕ
next_lower mcs = elim (ladder_index mcs) [ none ↦ mcs | some i ↦ ladder_mcs (i - 1) ]

pub data Adapt (T : Type 0) : Type 0 where
  auto : Adapt T
  fixed : T → Adapt T

pub record TxChoice : Type 0 where
  pub mcs : ℕ
  pub gi : GuardInterval
  pub fec_coding : Coding

pub data Probe : Type 0 where
  mcs_probe : (above_hint : Bool) → Probe
  short_gi_probe ldpc_probe : Probe

pub record Failed : Type 0 where
  pub idx : ℕ
  pub gi_step : Bool
  pub was_ldpc_probe : Bool

-- `a == b` on addresses
unfoldable pub mac_eq : MacAddr → MacAddr → Bool
mac_eq x y = (x.a == y.a && x.b == y.b) && (x.c == y.c && x.d == y.d) && (x.e == y.e && x.f == y.f)

unfoldable pub is_short_gi : GuardInterval → Bool
is_short_gi long_gi = false
is_short_gi short_gi = true

unfoldable pub is_ldpc : Coding → Bool
is_ldpc bcc = false
is_ldpc ldpc = true

module _ (fl : Floats) where
  pub record RateConfig : Type 0 where
    pub enabled : Bool
    pub start_mcs : ℕ
    pub min_mcs : ℕ
    pub max_mcs : ℕ
    pub gi : Adapt GuardInterval
    pub fec_coding : Adapt Coding
    pub probe_interval : ℕ
    pub probe_backoff_max : ℕ
    pub probe_rearm_snr_db : fl.F32
    pub alpha : fl.F32
    pub p_min : fl.F32
    pub snr_margin_db : fl.F32
    pub sgi_max_delay_spread_us : fl.F32
    pub fail_cost_us : ℕ

  abbrev pub default_config : RateConfig
  default_config = record {
    enabled = false;
    start_mcs = 0;
    min_mcs = 0;
    max_mcs = 8;
    gi = auto;
    fec_coding = auto;
    probe_interval = 8;
    probe_backoff_max = 2048;
    probe_rearm_snr_db = fl.single.of_nat 2;
    alpha = fl.single.ratio 1 10;
    p_min = fl.single.ratio 7 10;
    snr_margin_db = fl.single.of_nat 3;
    sgi_max_delay_spread_us = fl.single.ratio 9 10;
    fail_cost_us = 150000;
  }

  pub record Stat : Type 0 where
    pub p : Option fl.F32
    pub attempts : ℕ
    pub successes : ℕ

  -- `stats` has a pair, of long and short GI, for every index of the ladder.
  pub record Peer : Type 0 where
    pub stats : List (Stat × Stat)
    pub cur : ℕ
    pub uses_short_gi : Bool
    pub uses_ldpc : Bool
    pub since_probe : ℕ
    pub mcs_backoff : ℕ
    pub gi_backoff : ℕ
    pub fec_backoff : ℕ
    pub probing : Option (ℕ × Probe)
    pub last_probe : Option Probe
    pub failed : Option Failed
    pub octets : ℕ
    pub probe_fail_snr_db : Option fl.F32
    pub snr_db : Option fl.F32
    pub cfo_hz : Option fl.F32
    pub delay_spread_us : Option fl.F32

  -- The hash map of peers is an association list.
  pub record RateControl : Type 0 where
    pub cfg : RateConfig
    pub lo : ℕ
    pub hi : ℕ
    pub peers : List (MacAddr × Peer)

  unfoldable pub stat_default : Stat
  stat_default = record { p = none; attempts = 0; successes = 0 }

  -- `stats[idx][g]`
  unfoldable pub stat_at : Peer → ℕ → Bool → Stat
  unfolding stat_default
  stat_at p idx short =
      let both = get_or p.stats idx (stat_default, stat_default) in if short then both.1 else both.0

  unfoldable pub set_stat : ℕ → Bool → Stat → Peer → Peer
  unfolding stat_default
  set_stat idx short st p =
      let both = get_or p.stats idx (stat_default, stat_default) in
      record p { stats = set p.stats idx (if short then (both.0, st) else (st, both.1)) }

  unfoldable pub find_peer : MacAddr → List (MacAddr × Peer) → Option Peer
  find_peer a [] = none
  find_peer a ((b, p) ∷ ps) = if mac_eq b a then some p else find_peer a ps

  unfoldable pub put_peer : MacAddr → Peer → List (MacAddr × Peer) → List (MacAddr × Peer)
  put_peer a p [] = (a, p) ∷ []
  put_peer a p ((b, q) ∷ ps) = if mac_eq b a then (b, p) ∷ ps else (b, q) ∷ put_peer a p ps
