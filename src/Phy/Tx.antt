-- ===== src/Phy/Tx.antt =====
-- crates/s2g-phy/src/tx.rs: the geometry of the Data field that the transmitter chooses. The samples
-- are floating-point and left out.
pub mod Received
mod Tests
use s2g.Base.{
  ℕ, ◌+◌, ◌-◌, ◌*◌, ◌/◌, ◌%◌, ◌^◌, Bool, true, false, ◌&&◌, ◌||◌, not, leb, ltb, ◌==◌,
  if◌then◌else◌, Option, none, some,
}
use s2g.Base.Floats.{Floats}
use s2g.Phy.Params.{McsParams, mcs_params, n_service, n_tail}
use s2g.Phy.Vector.{Coding, bcc, ldpc, TxVector, div_ceil, ppdu_duration_us}
use s2g.Phy.Ldpc.{ppdu_params}

abbrev pub n_sym_max : ℕ
n_sym_max = 511

abbrev pub psdu_max_no_agg : ℕ
psdu_max_no_agg = 511

pub record DataGeometry : Type 0 where
  pub n_sym : ℕ
  pub n_sym_init : ℕ
  pub ldpc_extra : Bool
  pub length_field : ℕ

-- The errors that the geometry can meet, and a result.
pub data GeometryError : Type 0 where
  invalid_mcs not_1_to_511 empty_ampdu too_many_symbols : GeometryError

pub data Planned {ℓ} (A : Type ℓ) : Type ℓ where
  planned : A → Planned A
  refused : GeometryError → Planned A

module _ (fl : Floats) where
  -- The symbols sent, those before an extra one, and whether there is one.
  unfoldable pub symbols : McsParams → ℕ → Coding → ℕ × ℕ × Bool
  symbols p psdu_len bcc =
      let n = div_ceil (8 * psdu_len + (n_service + n_tail)) p.n_dbps in (n, n, false)
  symbols p psdu_len ldpc =
      let n_init = div_ceil (8 * psdu_len + n_service) p.n_dbps in
      let lp = ppdu_params fl n_init p.n_dbps p.n_cbps p.rate in (lp.n_sym, n_init, lp.extra_symbol)

  -- The geometry with the parameters of an MCS that the table has.
  unfoldable pub geometry_for : McsParams → ℕ → Bool → Coding → Planned DataGeometry
  geometry_for p psdu_len agg coding =
      let (n, init, extra) = symbols p psdu_len coding in
      if not agg && (psdu_len == 0 || ltb psdu_max_no_agg psdu_len)
      then refused not_1_to_511
      else if agg && psdu_len == 0
      then refused empty_ampdu
      else if ltb n_sym_max n
      then refused too_many_symbols
      else planned (record {
        n_sym = n;
        n_sym_init = init;
        ldpc_extra = extra;
        length_field = (if agg then n else psdu_len) % 2 ^ 16;
      })

  unfoldable pub data_geometry : ℕ → ℕ → Bool → Coding → Planned DataGeometry
  data_geometry mcs psdu_len agg coding = elim (mcs_params mcs) [
    | none ↦ refused invalid_mcs
    | some p ↦ geometry_for p psdu_len agg coding
  ]

  unfoldable pub n_sym_of : ℕ → ℕ → Bool → Planned ℕ
  n_sym_of mcs psdu_len agg = elim (data_geometry mcs psdu_len agg bcc) [
    | refused e ↦ refused e
    | planned g ↦ planned g.n_sym
  ]

  unfoldable pub txtime_us : TxVector → ℕ → Planned ℕ
  txtime_us txv psdu_len = elim (data_geometry txv.mcs psdu_len txv.aggregation txv.fec_coding) [
    | refused e ↦ refused e
    | planned g ↦ planned (ppdu_duration_us txv.preamble_type txv.gi g.n_sym)
  ]

  -- The octets that the symbols of an aggregated PPDU hold.
  unfoldable pub capacity_of : McsParams → Coding → DataGeometry → ℕ
  capacity_of p bcc g = (g.n_sym * p.n_dbps - n_service - n_tail) / 8
  capacity_of p ldpc g = (g.n_sym_init * p.n_dbps - n_service) / 8

  abbrev pub capacity_result : McsParams → Coding → Planned DataGeometry → Planned ℕ
  capacity_result p coding (refused e) = refused e
  capacity_result p coding (planned g) = planned (capacity_of p coding g)

  unfoldable pub aggregated_capacity : ℕ → ℕ → Coding → Planned ℕ
  aggregated_capacity mcs min_octets coding = elim (mcs_params mcs) [
    | none ↦ refused invalid_mcs
    | some p ↦ capacity_result p coding (geometry_for p min_octets true coding)
  ]

-- `r.is_ok()` and `r.unwrap_or(x)`
abbrev pub is_planned {ℓ} : {A : Type ℓ} → Planned A → Bool
is_planned (planned a) = true
is_planned (refused e) = false

abbrev pub planned_or {ℓ} : {A : Type ℓ} → Planned A → A → A
planned_or (planned a) x = a
planned_or (refused e) x = x
