-- ===== src/Mac/Fcs/Tests.antt =====
-- The CRC check value, and the theorems of fcs.rs at concrete frames.
use s2g.Base.{◌≡◌, refl, ◌↔◌, some, none, [], ◌∷◌, ◌++◌, arith, le32, List, ℕ}
use s2g.Mac.Fcs.{crc32, append, check_and_strip}
use s2g.Mac.Fcs.Detect.{check_and_strip_iff, corrupt_byte_refused}

known_vector :
    crc32 (b'1' ∷ b'2' ∷ b'3' ∷ b'4' ∷ b'5' ∷ b'6' ∷ b'7' ∷ b'8' ∷ b'9' ∷ []) ≡ 0xCBF43926
unfolding crc32
known_vector = refl

short_frame : check_and_strip (1 ∷ 2 ∷ 3 ∷ []) ≡ none
unfolding check_and_strip
short_frame = refl

abbrev hello : List ℕ
hello = b'h' ∷ b'i' ∷ []

check_and_strip_iff_example :
    (check_and_strip (append hello) ≡ some hello) ↔ (append hello ≡ append hello)
check_and_strip_iff_example = check_and_strip_iff (append hello) hello

corrupt_byte_refused_example : check_and_strip ((b'h' ∷ b'o' ∷ []) ++ le32 (crc32 hello)) ≡ none
corrupt_byte_refused_example =
    corrupt_byte_refused (b'h' ∷ []) [] b'i' b'o' (omega arith) tt (omega arith) (omega arith)
      (omega arith)
