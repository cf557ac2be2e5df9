-- ===== src/Phy/Params/Tests.antt =====
-- The tests of params.rs, and its theorems at concrete MCSs.
use s2g.Base.{◌≡◌, refl, none, some}
use s2g.Phy.Params.{n_dbps_2mhz, mcs_modulation_rate, dbps_of, n_bpscs, as_fraction}

three_streams : n_dbps_2mhz 9 3 ≡ some 1040
unfolding n_dbps_2mhz mcs_modulation_rate dbps_of n_bpscs as_fraction
three_streams = refl

five_streams : n_dbps_2mhz 0 5 ≡ none
unfolding n_dbps_2mhz
five_streams = refl
