-- ===== src/Phy/Tx/Tests.antt =====
-- tx.rs, ldpc.rs: the source's examples, and the theorems at such values.
use s2g.Base.{◌+◌, ◌≤◌, ◌≡◌, refl, true, false, some, arith}
use s2g.Base.Thousandths.{thousandths}
use s2g.Phy.Params.{McsParams, row, mcs_table, find_mcs, mcs_params, qam16, r3_4, as_fraction}
use s2g.Phy.Vector.{bcc, ldpc, data_field_geometry}
use s2g.Phy.Ldpc.{ppdu_params, split, sum_below, split_total}
use s2g.Phy.Tx.{
  DataGeometry, planned, symbols, geometry_for, data_geometry, capacity_of, aggregated_capacity,
}
use s2g.Phy.Tx.Received.{data_geometry-received, aggregated_capacity-received}

abbrev mcs4 : McsParams
mcs4 = record {
  mcs = 4;
  modulation = qam16;
  rate = r3_4;
  bits_per_subcarrier = 4;
  n_cbps = 208;
  n_dbps = 156;
}

-- 100 octets at MCS 4 with LDPC.
abbrev hundred : DataGeometry
hundred = record { n_sym = 6; n_sym_init = 6; ldpc_extra = false; length_field = 100 }

data_geometry-received_example : data_field_geometry 100 false ldpc false false 156 ≡ some (6, 100)
unfolding data_geometry geometry_for symbols mcs_params find_mcs mcs_table row ppdu_params
    as_fraction
data_geometry-received_example =
    data_geometry-received thousandths 4 100 ldpc mcs4 hundred refl refl

abbrev long_geometry : DataGeometry
long_geometry = record { n_sym = 20; n_sym_init = 20; ldpc_extra = false; length_field = 20 }

aggregated_capacity-received_example :
    (g : DataGeometry) × (data_geometry thousandths 4 388 true bcc ≡ planned g)
    × (data_field_geometry g.length_field true bcc g.ldpc_extra false 156 ≡ some (g.n_sym, 388))
    × (375 ≤ 388)
unfolding aggregated_capacity capacity_of geometry_for symbols mcs_params find_mcs mcs_table row
aggregated_capacity-received_example =
    aggregated_capacity-received thousandths 4 375 388 bcc mcs4 refl refl

split_total_example : (sum_below 3 (λ k. split 3 k 100) ≡ 100) × (split 3 0 100 ≤ split 3 2 100 + 1)
split_total_example = split_total 3 100 0 2 (omega arith)
