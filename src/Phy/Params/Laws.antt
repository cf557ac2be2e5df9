-- ===== src/Phy/Params/Laws.antt =====
-- The MCS table agrees with the formulas.
use s2g.Base.{
  ℕ, ◌*◌, ◌≡◌, refl, some, ◌==◌, is_some, arith, List, [], ◌∷◌, Bool-cases, All, inl, inr, subst,
}
use s2g.Phy.Params.{
  n_sd, n_bpscs, as_fraction, mcs_modulation_rate, dbps_of, n_dbps_2mhz, McsParams, row, mcs_table,
  find_mcs, mcs_params,
}

-- The identities of a row of the table, with the general formula for one stream.
pub record IsConsistent (p : McsParams) : Type 0 where
  pub formula : mcs_modulation_rate p.mcs ≡ some (p.modulation, p.rate)
  pub subcarrier : p.bits_per_subcarrier ≡ n_bpscs p.modulation
  pub coded : p.n_cbps ≡ n_sd * p.bits_per_subcarrier
  pub fraction : p.n_dbps * (as_fraction p.rate).1 ≡ p.n_cbps * (as_fraction p.rate).0
  pub dbps : n_dbps_2mhz p.mcs 1 ≡ some p.n_dbps

mcs_table-IsConsistent : All IsConsistent mcs_table
unfolding mcs_table row n_bpscs as_fraction n_dbps_2mhz dbps_of mcs_modulation_rate
mcs_table-IsConsistent = (
  record { formula = refl; subcarrier = refl; coded = refl; fraction = refl; dbps = refl },
  (
    record { formula = refl; subcarrier = refl; coded = refl; fraction = refl; dbps = refl },
    (
      record { formula = refl; subcarrier = refl; coded = refl; fraction = refl; dbps = refl },
      (
        record { formula = refl; subcarrier = refl; coded = refl; fraction = refl; dbps = refl },
        (
          record { formula = refl; subcarrier = refl; coded = refl; fraction = refl; dbps = refl },
          (
            record {
              formula = refl;
              subcarrier = refl;
              coded = refl;
              fraction = refl;
              dbps = refl;
            },
            (
              record {
                formula = refl;
                subcarrier = refl;
                coded = refl;
                fraction = refl;
                dbps = refl;
              },
              (
                record {
                  formula = refl;
                  subcarrier = refl;
                  coded = refl;
                  fraction = refl;
                  dbps = refl;
                },
                (
                  record {
                    formula = refl;
                    subcarrier = refl;
                    coded = refl;
                    fraction = refl;
                    dbps = refl;
                  },
                  (
                    record {
                      formula = refl;
                      subcarrier = refl;
                      coded = refl;
                      fraction = refl;
                      dbps = refl;
                    },
                    tt,
                  ),
                ),
              ),
            ),
          ),
        ),
      ),
    ),
  ),
)

find_mcs-All :
    (P : McsParams → Type 0) (mcs' : ℕ) (ps : List McsParams) (p : McsParams)
    → All P ps
    → find_mcs mcs' ps ≡ some p
    → P p × (p.mcs ≡ mcs')
unfolding find_mcs
find_mcs-All P mcs' [] p all e = absurd (ground arith)
find_mcs-All P mcs' (q ∷ ps) p all e = elim (Bool-cases (q.mcs == mcs')) [
  | inl same ↦ (subst P (ground arith) all.0, ground arith)
  | inr other ↦ find_mcs-All P mcs' ps p all.1 (ground arith)
]

-- The table has a row exactly for the MCSs that the general formula allows with one stream.
pub is_some-mcs_params : (mcs' : ℕ) → is_some (mcs_params mcs') ≡ is_some (n_dbps_2mhz mcs' 1)
unfolding mcs_params find_mcs mcs_table row n_bpscs as_fraction n_dbps_2mhz dbps_of
    mcs_modulation_rate is_some
is_some-mcs_params mcs' = ground arith

-- The row that is found is the one asked for, and its entries are those of the formulas.
pub mcs_params-IsConsistent :
    (mcs' : ℕ) (p : McsParams) → mcs_params mcs' ≡ some p → IsConsistent p × (p.mcs ≡ mcs')
unfolding mcs_params
mcs_params-IsConsistent mcs' p e =
    find_mcs-All IsConsistent mcs' mcs_table p mcs_table-IsConsistent e
