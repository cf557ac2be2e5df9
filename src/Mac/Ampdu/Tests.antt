-- ===== src/Mac/Ampdu/Tests.antt =====
-- Runs of ampdu.rs, and its theorems at concrete MPDUs.
use s2g.Base.{ℕ, ◌≡◌, refl, List, [], ◌∷◌, ◌++◌, length, some, Bool, true, arith}
use s2g.Mac.Ampdu.Delimiter.{
  build_delimiter, delim_crc8, crc8_loop, crc8_step, crc8_out, delim_header,
}
use s2g.Mac.Ampdu.{aggregate, deaggregate_with_eof, finish, fill, resize, pad4}
use s2g.Mac.Ampdu.Scan.{Scans, deaggregate_with_eof-Scans}
use s2g.Mac.Ampdu.RoundTrip.{deaggregate-aggregate}

abbrev mpdu : List ℕ
mpdu = 10 ∷ 20 ∷ 30 ∷ []

-- The delimiter, the MPDU, a zero, two EOF delimiters and a loose zero.
abbrev s_mpdu : List ℕ
s_mpdu =
    build_delimiter 3 true
    ++ (10 ∷ 20 ∷ 30 ∷ 0 ∷ (build_delimiter 0 true ++ (build_delimiter 0 true ++ (0 ∷ []))))

aggregated_once : aggregate mpdu 17 ≡ some s_mpdu
unfolding aggregate finish fill resize pad4 build_delimiter delim_header delim_crc8 crc8_loop
    crc8_step crc8_out
aggregated_once = refl

deaggregate-aggregate_example :
    (length s_mpdu ≡ 17) × (deaggregate_with_eof s_mpdu ≡ (mpdu, true) ∷ [])
deaggregate-aggregate_example = deaggregate-aggregate mpdu 17 s_mpdu (omega arith) aggregated_once

deaggregate_with_eof-Scans_example :
    Scans s_mpdu 0 (deaggregate_with_eof s_mpdu)
    × ((found : List (List ℕ × Bool)) → Scans s_mpdu 0 found → found ≡ deaggregate_with_eof s_mpdu)
deaggregate_with_eof-Scans_example = deaggregate_with_eof-Scans s_mpdu
