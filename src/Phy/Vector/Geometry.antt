-- ===== src/Phy/Vector/Geometry.antt =====
-- What the number of symbols and the PSDU length of a Data field promise.
use s2g.Base.{ℕ, ◌+◌, ◌-◌, ◌*◌, ◌≤◌, ◌<◌, ◌≡◌, max, refl, some, Bool, true, false, arith}
use native.Mathlib.Nat.{div-add-mod, mod-lt, mul-le-mul_right}
use s2g.Phy.Params.{n_service, n_tail}
use s2g.Phy.Vector.{
  Coding, bcc, ldpc, data_field_geometry, div_ceil, m_stbc, ResponseIndication, to_bits, from_bits,
  no_response, ndp_response, normal_response, long_response,
}

pub div_ceil_covers : (a b : ℕ) → 0 < b → a ≤ b * div_ceil a b
div_ceil_covers a b p = omega (arith, div-add-mod (a + (b - 1)) b, mod-lt (a + (b - 1)) p)

pub div_ceil_least : (a b : ℕ) → 0 < b → b * div_ceil a b < a + b
div_ceil_least a b p = omega (arith, div-add-mod (a + (b - 1)) b, mod-lt (a + (b - 1)) p)

mul_le : (a b k : ℕ) → a ≤ b → a * k ≤ b * k
mul_le a b k h = mul-le-mul_right k h

-- The bits of the Data field that are not the PSDU's.
abbrev pub overhead : Coding → ℕ
overhead bcc = n_service + n_tail
overhead ldpc = n_service

-- The least whole number of symbol groups that holds some bits.
fewest_cover :
    (bits n_dbps : ℕ) (stbc' : Bool)
    → 0 < n_dbps
    → bits ≤ m_stbc stbc' * div_ceil bits (m_stbc stbc' * n_dbps) * n_dbps
fewest_cover bits n_dbps true p = omega (arith, div_ceil_covers bits (2 * n_dbps) (omega arith))
fewest_cover bits n_dbps false p = omega (arith, div_ceil_covers bits (1 * n_dbps) (omega arith))

fewest_least :
    (bits n_dbps : ℕ) (stbc' : Bool)
    → 0 < n_dbps
    → m_stbc stbc' * div_ceil bits (m_stbc stbc' * n_dbps) * n_dbps < bits + m_stbc stbc' * n_dbps
fewest_least bits n_dbps true p = omega (arith, div_ceil_least bits (2 * n_dbps) (omega arith))
fewest_least bits n_dbps false p = omega (arith, div_ceil_least bits (1 * n_dbps) (omega arith))

-- For a positive N_DBPS, with every coding and with or without aggregation and STBC: where there
-- is a Data field it has a symbol, and a PSDU that is not empty fits into the symbols with its
-- service and tail bits.
pub geometry_fits :
    (len : ℕ) (agg : Bool) (c : Coding) (extra stbc' : Bool) (n_dbps n psdu : ℕ)
    → 0 < n_dbps
    → data_field_geometry len agg c extra stbc' n_dbps ≡ some (n, psdu)
    → (0 < n) × (0 < psdu → 8 * psdu + overhead c ≤ n * n_dbps)
unfolding data_field_geometry
geometry_fits len true bcc extra stbc' n_dbps n psdu p e = (ground arith, λ q. ground arith)
geometry_fits len false bcc extra stbc' n_dbps n psdu p e = (
  ground (arith, fewest_cover (8 * len + 14) n_dbps stbc' p),
  λ q. ground (arith, fewest_cover (8 * len + 14) n_dbps stbc' p),
)
geometry_fits len true ldpc extra stbc' n_dbps n psdu p e =
    let inits : ℕ → ℕ = λ e'. max (len - e') 1 in
    (
      ground arith,
      λ q. ground (arith, mul_le (inits 0) len n_dbps, mul_le (inits (m_stbc stbc')) len n_dbps),
    )
geometry_fits len false ldpc extra stbc' n_dbps n psdu p e = (
  ground (arith, fewest_cover (8 * len + 8) n_dbps stbc' p),
  λ q. ground (
    arith,
    fewest_cover (8 * len + 8) n_dbps stbc' p,
    mul_le (m_stbc stbc' * div_ceil (8 * len + 8) (m_stbc stbc' * n_dbps)) n n_dbps,
  ),
)

-- For a positive N_DBPS, a PSDU that is not aggregated and has no LDPC extra symbol keeps its
-- length and takes the fewest groups of symbols that hold it.
pub geometry_least :
    (len : ℕ) (c : Coding) (stbc' : Bool) (n_dbps n psdu : ℕ)
    → 0 < n_dbps
    → data_field_geometry len false c false stbc' n_dbps ≡ some (n, psdu)
    → (psdu ≡ len) × (n * n_dbps < 8 * len + overhead c + m_stbc stbc' * n_dbps)
unfolding data_field_geometry
geometry_least len bcc stbc' n_dbps n psdu p e =
    (ground arith, ground (arith, fewest_least (8 * len + 14) n_dbps stbc' p))
geometry_least len ldpc stbc' n_dbps n psdu p e =
    (ground arith, ground (arith, fewest_least (8 * len + 8) n_dbps stbc' p))

pub from_bits-to_bits : (r : ResponseIndication) → from_bits (to_bits r) ≡ r
unfolding from_bits to_bits
from_bits-to_bits no_response = refl
from_bits-to_bits ndp_response = refl
from_bits-to_bits normal_response = refl
from_bits-to_bits long_response = refl
