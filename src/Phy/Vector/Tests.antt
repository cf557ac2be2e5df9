-- ===== src/Phy/Vector/Tests.antt =====
-- Runs of vector.rs, and its theorems at concrete Data fields.
use s2g.Base.{ℕ, ◌≡◌, ◌<◌, ◌≤◌, ◌+◌, ◌*◌, refl, some, true, false, arith}
use s2g.Phy.Vector.{
  bcc, data_field_geometry, ppdu_duration_us, rx_duration_us, preamble_duration_us,
  data_duration_us, s1g_long, short_gi,
}
use s2g.Phy.Params.{n_ltf}
use s2g.Phy.Vector.Geometry.{geometry_fits, overhead}

-- 100 octets at MCS 0: 814 bits in symbols of 26.
mcs0_geometry : data_field_geometry 100 false bcc true false 26 ≡ some (32, 100)
unfolding data_field_geometry
mcs0_geometry = refl

long_costs : ppdu_duration_us s1g_long short_gi 10 ≡ 240 + 120 + 40 + 9 * 36
unfolding ppdu_duration_us rx_duration_us preamble_duration_us data_duration_us n_ltf
long_costs = refl

geometry_fits_example : (0 < 32) × (0 < 100 → 8 * 100 + overhead bcc ≤ 32 * 26)
unfolding data_field_geometry
geometry_fits_example = geometry_fits 100 false bcc true false 26 32 100 (omega arith) refl

abbrev psdu_octets : ℕ
psdu_octets = 100
