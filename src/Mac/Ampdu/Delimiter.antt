-- ===== src/Mac/Ampdu/Delimiter.antt =====
-- ampdu.rs: the MPDU delimiter and its CRC-8.
use s2g.Base.{
  ℕ, zero, suc, ◌+◌, ◌*◌, ◌/◌, ◌%◌, ◌<◌, ◌≡◌, refl, List, [], ◌∷◌, Bool, true, false, Option, none,
  some, if◌then◌else◌, ◌==◌, not, ltb, ◌||◌, length, get_or, from_le16, bit_of, arith,
}

abbrev pub delim_len : ℕ
delim_len = 4

abbrev pub signature : ℕ
signature = 0x4E

abbrev pub max_mpdu_len : ℕ
max_mpdu_len = 16383

pub record Crc8 : Type 0 where
  pub c7 : ℕ
  pub c6 : ℕ
  pub c5 : ℕ
  pub c4 : ℕ
  pub c3 : ℕ
  pub c2 : ℕ
  pub c1 : ℕ
  pub c0 : ℕ

-- One round; `^` on bits is the sum modulo 2.
unfoldable pub crc8_step : ℕ → Crc8 → Crc8
crc8_step b r =
    let fb = (b + r.c7) % 2 in
    record {
      c7 = r.c6;
      c6 = r.c5;
      c5 = r.c4;
      c4 = r.c3;
      c3 = r.c2;
      c2 = (r.c1 + fb) % 2;
      c1 = (r.c0 + fb) % 2;
      c0 = fb;
    }

-- The bits of the header, the low one first.
unfoldable pub crc8_loop : ℕ → ℕ → Crc8 → Crc8
crc8_loop zero header r = r
crc8_loop (suc n) header r = crc8_loop n (header / 2) (crc8_step (header % 2) r)

-- The complement, c7 in bit 0.
unfoldable pub crc8_out : Crc8 → ℕ
crc8_out r =
    (1 + r.c7) % 2
    + 2 * ((1 + r.c6) % 2)
    + 4 * ((1 + r.c5) % 2)
    + 8 * ((1 + r.c4) % 2)
    + 16 * ((1 + r.c3) % 2)
    + 32 * ((1 + r.c2) % 2)
    + 64 * ((1 + r.c1) % 2)
    + 128 * ((1 + r.c0) % 2)

unfoldable pub delim_crc8 : ℕ → ℕ
delim_crc8 header = crc8_out (
    crc8_loop 16 header (record { c7 = 1; c6 = 1; c5 = 1; c4 = 1; c3 = 1; c2 = 1; c1 = 1; c0 = 1 }))

-- The three parts of the header never meet, so `|` is their sum.
unfoldable pub delim_header : ℕ → Bool → ℕ
delim_header mpdu_len eof = bit_of eof + 4 * (mpdu_len / 4096 % 4) + 16 * (mpdu_len % 4096)

unfoldable pub build_delimiter : ℕ → Bool → List ℕ
build_delimiter mpdu_len eof =
    let header = delim_header mpdu_len eof in
    header % 256 ∷ header / 256 % 256 ∷ delim_crc8 header ∷ signature ∷ []

unfoldable pub parse_delimiter : List ℕ → Option (ℕ × Bool)
parse_delimiter d =
    if ltb (length d) 4 || not (get_or d 3 0 == signature)
    then none
    else (let header = from_le16 (get_or d 0 0) (get_or d 1 0) in
        if not (delim_crc8 header == get_or d 2 0)
        then none
        else some (header / 16 % 4096 + 4096 * (header / 4 % 4), not (header % 2 == 0)))

header_back :
    (mpdu_len : ℕ) (eof : Bool)
    → from_le16 (delim_header mpdu_len eof % 256) (delim_header mpdu_len eof / 256 % 256)
      ≡ delim_header mpdu_len eof
unfolding delim_header
header_back mpdu_len true = omega arith
header_back mpdu_len false = omega arith

fields_back :
    (mpdu_len : ℕ) (eof : Bool)
    → mpdu_len < 16384
    → (delim_header mpdu_len eof / 16 % 4096 + 4096 * (delim_header mpdu_len eof / 4 % 4)
        ≡ mpdu_len)
      × (not (delim_header mpdu_len eof % 2 == 0) ≡ eof)
unfolding delim_header
fields_back mpdu_len true h = (omega arith, ground arith)
fields_back mpdu_len false h = (omega arith, ground arith)

-- Every length of 14 bits and either EOF flag is read back from its delimiter.
pub parse-build_delimiter :
    (mpdu_len : ℕ) (eof : Bool)
    → mpdu_len < 16384
    → parse_delimiter (build_delimiter mpdu_len eof) ≡ some (mpdu_len, eof)
unfolding parse_delimiter build_delimiter
parse-build_delimiter mpdu_len eof h =
    rw (header_back mpdu_len eof)
      (ground (arith, (fields_back mpdu_len eof h).0, (fields_back mpdu_len eof h).1))

pub length-build_delimiter : (mpdu_len : ℕ) (eof : Bool) → length (build_delimiter mpdu_len eof) ≡ 4
unfolding build_delimiter
length-build_delimiter mpdu_len eof = refl
