-- ===== src/Phy/Tx/Received.antt =====
-- The receiver computes from the SIG field the geometry that the transmitter chose, for every
-- floating-point arithmetic.
use s2g.Base.{
  ℕ, ◌+◌, ◌-◌, ◌*◌, ◌/◌, ◌≤◌, ◌<◌, ◌≡◌, refl, sym, ◌∙◌, ap, subst, max, Bool, true, false, some,
  arith, if◌then◌else◌,
}
use native.Mathlib.Nat.{div-eq_of_lt-le}
use s2g.Base.Floats.{Floats}
use s2g.Phy.Params.{McsParams, row, mcs_table, find_mcs, mcs_params}
use s2g.Phy.Vector.{Coding, bcc, ldpc, div_ceil, data_field_geometry}
use s2g.Phy.Vector.Geometry.{div_ceil_covers, div_ceil_least}
use s2g.Phy.Ldpc.{ppdu_params, ppdu_params-n_sym}
use s2g.Phy.Tx.{
  DataGeometry, Planned, planned, refused, symbols, geometry_for, data_geometry, capacity_of,
  capacity_result, aggregated_capacity,
}

mcs_params_bounds :
    (m : ℕ) (p : McsParams) → mcs_params m ≡ some p → (26 ≤ p.n_dbps) × (0 < p.n_cbps)
unfolding mcs_params find_mcs mcs_table row
mcs_params_bounds m p e = ground arith

-- A PSDU that fills its symbols takes the same symbols again, and holds what they were chosen for.
refill :
    (m o d n : ℕ)
    → o ≤ d
    → 0 < d
    → n ≡ div_ceil (8 * m + o) d
    → (m ≤ (n * d - o) / 8) × (div_ceil (8 * ((n * d - o) / 8) + o) d ≡ n)
refill m o d n h p e =
    let c : 8 * m + o ≤ d * n = ground (arith, div_ceil_covers (8 * m + o) d p) in
    let l : d * n < 8 * m + o + d = ground (arith, div_ceil_least (8 * m + o) d p) in
    (grind arith, div-eq_of_lt-le d (grind arith) (grind arith))

div_ceil_pos : (m o d : ℕ) → 0 < d → 0 < o → 0 < div_ceil (8 * m + o) d
div_ceil_pos m o d p q = grind (arith, div_ceil_covers (8 * m + o) d p)

module _ (fl : Floats) where
  -- What an accepted geometry consists of.
  record IsPlanned (p : McsParams) (len : ℕ) (agg : Bool) (c : Coding) (g : DataGeometry)
      : Type 0 where
    n_sym_eq : g.n_sym ≡ (symbols fl p len c).0
    init_eq : g.n_sym_init ≡ (symbols fl p len c).1
    extra_eq : g.ldpc_extra ≡ (symbols fl p len c).2
    len_pos : 0 < len
    n_sym_le : g.n_sym ≤ 511
    length_eq : g.length_field ≡ (if agg then g.n_sym else len)

  geometry_for-IsPlanned :
      (p : McsParams) (len : ℕ) (agg : Bool) (c : Coding) (g : DataGeometry)
      → geometry_for fl p len agg c ≡ planned g
      → IsPlanned p len agg c g
  unfolding geometry_for
  geometry_for-IsPlanned p len true c g h = ground arith
  geometry_for-IsPlanned p len false c g h = ground arith

  data_geometry-for :
      (mcs len : ℕ) (agg : Bool) (c : Coding) (p : McsParams)
      → mcs_params mcs ≡ some p
      → data_geometry fl mcs len agg c ≡ geometry_for fl p len agg c
  unfolding data_geometry
  data_geometry-for mcs len agg c p e = rw (e, data_geometry) refl

  symbols_ldpc :
      (p : McsParams) (len : ℕ)
      → 0 < p.n_cbps
      → (symbols fl p len ldpc).0
        ≡ div_ceil (8 * len + 8) p.n_dbps + (if (symbols fl p len ldpc).2 then 1 else 0)
  unfolding symbols
  symbols_ldpc p len h =
      ppdu_params-n_sym fl (div_ceil (8 * len + 8) p.n_dbps) p.n_dbps p.n_cbps p.rate h

  received_short :
      (len : ℕ) (c : Coding) (p : McsParams) (g : DataGeometry)
      → 0 < p.n_cbps
      → IsPlanned p len false c g
      → data_field_geometry g.length_field false c g.ldpc_extra false p.n_dbps ≡ some (g.n_sym, len)
  unfolding symbols data_field_geometry
  received_short len bcc p g h k = ground arith
  received_short len ldpc p g h k = ground (arith, symbols_ldpc p len)

  -- For a PSDU that is not aggregated, the receiver finds from the length field and the flag of the
  -- extra symbol the symbols that are sent, and the PSDU's length.
  pub data_geometry-received :
      (mcs len : ℕ) (c : Coding) (p : McsParams) (g : DataGeometry)
      → mcs_params mcs ≡ some p
      → data_geometry fl mcs len false c ≡ planned g
      → data_field_geometry g.length_field false c g.ldpc_extra false p.n_dbps ≡ some (g.n_sym, len)
  data_geometry-received mcs len c p g e h =
      received_short len c p g (mcs_params_bounds mcs p e).1
        (geometry_for-IsPlanned p len false c g (sym (data_geometry-for mcs len false c p e) ∙ h))

  geometry_same :
      (p : McsParams) (m m' : ℕ) (c : Coding)
      → 0 < m
      → 0 < m'
      → symbols fl p m c ≡ symbols fl p m' c
      → geometry_for fl p m true c ≡ geometry_for fl p m' true c
  unfolding geometry_for
  geometry_same p m m' c h h' e = ground arith

  symbols_bcc_same :
      (p : McsParams) (m m' : ℕ)
      → div_ceil (8 * m + 14) p.n_dbps ≡ div_ceil (8 * m' + 14) p.n_dbps
      → symbols fl p m bcc ≡ symbols fl p m' bcc
  unfolding symbols
  symbols_bcc_same p m m' e = λ i. (e i, e i, false)

  symbols_ldpc_same :
      (p : McsParams) (m m' : ℕ)
      → div_ceil (8 * m + 8) p.n_dbps ≡ div_ceil (8 * m' + 8) p.n_dbps
      → symbols fl p m ldpc ≡ symbols fl p m' ldpc
  unfolding symbols
  symbols_ldpc_same p m m' e =
      ap
        (λ (n : ℕ). (
          (ppdu_params fl n p.n_dbps p.n_cbps p.rate).n_sym,
          n,
          (ppdu_params fl n p.n_dbps p.n_cbps p.rate).extra_symbol,
        ))
        e

  -- The PSDU that fills the aggregated PPDU planned for fewer octets has the same geometry.
  refilled :
      (m : ℕ) (c : Coding) (p : McsParams) (g : DataGeometry)
      → 26 ≤ p.n_dbps
      → geometry_for fl p m true c ≡ planned g
      → IsPlanned p m true c g
      → (m ≤ capacity_of fl p c g) × (geometry_for fl p (capacity_of fl p c g) true c ≡ planned g)
  unfolding capacity_of symbols
  refilled m bcc p g b h k =
      let r = refill m 14 p.n_dbps g.n_sym (omega arith) (omega arith) k.n_sym_eq in
      let e : (g.n_sym * p.n_dbps - 14) / 8 ≡ capacity_of fl p bcc g = omega arith in
      let q : div_ceil (8 * capacity_of fl p bcc g + 14) p.n_dbps ≡ g.n_sym =
        subst (λ (x : ℕ). div_ceil (8 * x + 14) p.n_dbps ≡ g.n_sym) e r.1 in
      (
        omega (arith, r.0),
        geometry_same p (capacity_of fl p bcc g) m bcc (omega (arith, r.0, k.len_pos)) k.len_pos
              (symbols_bcc_same p _ m (q ∙ k.n_sym_eq))
            ∙ h,
      )
  refilled m ldpc p g b h k =
      let r = refill m 8 p.n_dbps g.n_sym_init (omega arith) (omega arith) k.init_eq in
      (
        r.0,
        geometry_same p (capacity_of fl p ldpc g) m ldpc (omega (arith, r.0, k.len_pos)) k.len_pos
              (symbols_ldpc_same p _ m (r.1 ∙ k.init_eq))
            ∙ h,
      )

  received_aggregate :
      (m : ℕ) (c : Coding) (p : McsParams) (g : DataGeometry)
      → 26 ≤ p.n_dbps
      → 0 < p.n_cbps
      → IsPlanned p m true c g
      → data_field_geometry g.length_field true c g.ldpc_extra false p.n_dbps
        ≡ some (g.n_sym, capacity_of fl p c g)
  unfolding capacity_of data_field_geometry symbols
  received_aggregate m bcc p g b h k = ground (arith, div_ceil_pos m 14 p.n_dbps)
  received_aggregate m ldpc p g b h k =
      let pos : 0 < g.n_sym_init = ground (arith, div_ceil_pos m 8 p.n_dbps) in
      let last : max (g.length_field - (if g.ldpc_extra then 1 else 0)) 1 ≡ g.n_sym_init =
        ground (arith, symbols_ldpc p m) in
      rw last (ground (arith, symbols_ldpc p m))

  aggregated_capacity-for :
      (mcs m : ℕ) (c : Coding) (p : McsParams) (cap : ℕ)
      → mcs_params mcs ≡ some p
      → aggregated_capacity fl mcs m c ≡ planned cap
      → (g : DataGeometry) × (geometry_for fl p m true c ≡ planned g) × (capacity_of fl p c g ≡ cap)
  unfolding aggregated_capacity
  aggregated_capacity-for mcs m c p cap e h = by_cases (geometry_for fl p m true c) refl
    where
      opened :
          (r : Planned DataGeometry)
          → geometry_for fl p m true c ≡ r
          → aggregated_capacity fl mcs m c ≡ capacity_result fl p c r
      opened r q = rw (e, aggregated_capacity) (rw q refl)

      by_cases :
          (r : Planned DataGeometry)
          → geometry_for fl p m true c ≡ r
          → (g : DataGeometry) × (geometry_for fl p m true c ≡ planned g)
            × (capacity_of fl p c g ≡ cap)
      by_cases (planned g) q = (g, q, ground (arith, opened (planned g) q))
      by_cases (refused x) q = absurd (ground (arith, opened (refused x) q))

  -- An A-MPDU padded to the capacity that the transmitter reports for a number of octets holds them,
  -- is accepted by the transmitter, and the receiver finds from its length field and the flag of the
  -- extra symbol the symbols that are sent and exactly that many octets.
  pub aggregated_capacity-received :
      (mcs m cap : ℕ) (c : Coding) (p : McsParams)
      → mcs_params mcs ≡ some p
      → aggregated_capacity fl mcs m c ≡ planned cap
      → (g : DataGeometry) × (data_geometry fl mcs cap true c ≡ planned g)
        × (data_field_geometry g.length_field true c g.ldpc_extra false p.n_dbps
            ≡ some (g.n_sym, cap))
        × (m ≤ cap)
  aggregated_capacity-received mcs m cap c p e h =
      let (g, q, same) = aggregated_capacity-for mcs m c p cap e h in
      let (dbps, cbps) = mcs_params_bounds mcs p e in
      let k = geometry_for-IsPlanned p m true c g q in
      let (le, again) = refilled m c p g dbps q k in
      (
        g,
        data_geometry-for mcs cap true c p e
            ∙ subst (λ (x : ℕ). geometry_for fl p x true c ≡ planned g) same again,
        subst
            (λ (x : ℕ).
              data_field_geometry g.length_field true c g.ldpc_extra false p.n_dbps
              ≡ some (g.n_sym, x))
            same (received_aggregate m c p g dbps cbps k),
        subst (λ (x : ℕ). m ≤ x) same le,
      )
