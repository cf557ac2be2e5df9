-- ===== src/Mac/Ampdu.antt =====
-- crates/s2g-mac/src/ampdu.rs: aggregation. The scan moves by four bytes at least in each round, and
-- each filling round adds four, so the lengths bound the rounds.
pub mod Delimiter
pub mod Fill
pub mod Scan
pub mod RoundTrip
mod Tests
use s2g.Base.{
  ℕ, zero, suc, ◌+◌, ◌-◌, ◌*◌, ◌/◌, ◌%◌, min, List, [], ◌∷◌, ◌++◌, Bool, true, false, Option, none,
  some, if◌then◌else◌, ◌==◌, ltb, leb, ◌&&◌, length, take, drop, replicate, slice, map,
}
use s2g.Mac.Frame.Locate.{locate_mpdu}
use s2g.Mac.Ampdu.Delimiter.{delim_len, max_mpdu_len, build_delimiter, parse_delimiter}

unfoldable pub pad4 : ℕ → ℕ
pad4 n = (n + 3) / 4 * 4

unfoldable pub pre_eof_len : ℕ → ℕ
pre_eof_len mpdu_len = delim_len + mpdu_len

-- `out.resize(n, 0)`
unfoldable pub resize : ℕ → List ℕ → List ℕ
resize n out = take n out ++ replicate (n - length out) 0

-- The loop that adds EOF delimiters while they fit.
unfoldable pub fill : ℕ → ℕ → List ℕ → List ℕ
fill zero capacity out = out
fill (suc fuel) capacity out =
    let rest = fill fuel capacity (out ++ build_delimiter 0 true) in
    if leb (length out + delim_len) capacity then rest else out

-- What both aggregations do after the last MPDU.
unfoldable pub finish : ℕ → List ℕ → List ℕ
finish capacity out =
    resize capacity (fill capacity capacity (resize (min (pad4 (length out)) capacity) out))

-- `none` stands for the failed assertions.
unfoldable pub aggregate : List ℕ → ℕ → Option (List ℕ)
aggregate mpdu capacity =
    if leb (length mpdu) max_mpdu_len && leb (delim_len + length mpdu) capacity
    then some (finish capacity (build_delimiter (length mpdu) true ++ mpdu))
    else none

unfoldable pub pre_eof_len_many : List ℕ → ℕ
pre_eof_len_many [] = 0
pre_eof_len_many (l ∷ []) = delim_len + l
pre_eof_len_many (l ∷ m ∷ ls) = pad4 (delim_len + l) + pre_eof_len_many (m ∷ ls)

unfoldable pub append_mpdus : List ℕ → List (List ℕ) → List ℕ
append_mpdus out [] = out
append_mpdus out (m ∷ mpdus) =
    append_mpdus (resize (pad4 (length out)) out ++ (build_delimiter (length m) false ++ m)) mpdus

unfoldable pub all_short : List ℕ → Bool
all_short [] = true
all_short (l ∷ lens) = leb l max_mpdu_len && all_short lens

unfoldable pub aggregate_many : List (List ℕ) → ℕ → Option (List ℕ)
aggregate_many mpdus capacity =
    let lens = map length mpdus in
    if leb 2 (length mpdus) && all_short lens && leb (pre_eof_len_many lens) capacity
    then some (finish capacity (append_mpdus [] mpdus))
    else none

-- One round of the scan: the MPDU found, and the next position.
unfoldable pub scan_step : List ℕ → ℕ → Option (List ℕ × Bool) × ℕ
scan_step psdu pos = elim (parse_delimiter (slice psdu pos (pos + delim_len))) [
  | none ↦ (none, pos + delim_len)
  | some (len, eof) ↦
      if len == 0
      then (none, pos + delim_len)
      else if leb (pos + delim_len + len) (length psdu)
      then (
        some (slice psdu (pos + delim_len) (pos + delim_len + len), eof),
        pad4 (pos + delim_len + len),
      )
      else (none, pos + delim_len)
]

abbrev pub push : Option (List ℕ × Bool) → List (List ℕ × Bool) → List (List ℕ × Bool)
push none found = found
push (some m) found = m ∷ found

unfoldable pub scan : ℕ → List ℕ → ℕ → List (List ℕ × Bool)
scan zero psdu pos = []
scan (suc fuel) psdu pos =
    let rest = scan fuel psdu (scan_step psdu pos).1 in
    if leb (pos + delim_len) (length psdu) then push (scan_step psdu pos).0 rest else []

unfoldable pub deaggregate_with_eof : List ℕ → List (List ℕ × Bool)
deaggregate_with_eof psdu = scan (length psdu) psdu 0

unfoldable pub deaggregate : List ℕ → List (List ℕ)
deaggregate psdu = map (λ m. m.0) (deaggregate_with_eof psdu)

unfoldable pub split_psdu : List ℕ → Bool → List (List ℕ × Bool)
split_psdu psdu aggregation =
    if aggregation
    then deaggregate_with_eof psdu
    else (elim (locate_mpdu psdu) [ some mpdu ↦ (mpdu, false) ∷ [] | none ↦ (psdu, false) ∷ [] ])

unfoldable pub is_s_mpdu : List ℕ → Bool
is_s_mpdu psdu = elim (deaggregate_with_eof psdu) [
  | [] ↦ false
  | m ∷ ms ↦ (elim ms [ [] ↦ m.1 | x ∷ xs ↦ false ])
]
