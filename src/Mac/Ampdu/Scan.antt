-- ===== src/Mac/Ampdu/Scan.antt =====
-- The scan over the parts of an aggregated PSDU.
use s2g.Base.{
  ℕ, zero, suc, ◌+◌, ◌-◌, ◌*◌, ◌≤◌, ◌<◌, ◌≡◌, refl, ap, sym, subst, ◌∙◌, List, [], ◌++◌, Bool, true,
  Option, none, some, leb, length, length-append, length-replicate, length-drop, take, drop,
  drop-drop, drop-append, take-append, replicate, slice, append_assoc, arith, Bool-cases, inl, inr,
}
use s2g.Mac.Ampdu.Delimiter.{
  build_delimiter, parse_delimiter, parse-build_delimiter, length-build_delimiter, delim_len,
}
use s2g.Mac.Ampdu.{scan, scan_step, push, pad4, deaggregate_with_eof}
use s2g.Mac.Ampdu.Fill.{eofs}

-- The scan ends where less than a delimiter is left.
pub scan_end :
    (fuel : ℕ) (psdu : List ℕ) (pos : ℕ) → length psdu < pos + 4 → scan fuel psdu pos ≡ []
unfolding scan
scan_end zero psdu pos h = refl
scan_end (suc fuel) psdu pos h = ground arith

-- One round where a delimiter fits.
pub scan_next :
    (fuel : ℕ) (psdu : List ℕ) (pos : ℕ)
    → pos + 4 ≤ length psdu
    → scan (suc fuel) psdu pos ≡ push (scan_step psdu pos).0 (scan fuel psdu (scan_step psdu pos).1)
unfolding scan
scan_next fuel psdu pos h = ground arith

-- A slice that starts and ends with a part of the list is the part.
pub slice_at :
    (psdu xs rest : List ℕ) (from until : ℕ)
    → drop from psdu ≡ xs ++ rest
    → until ≡ from + length xs
    → slice psdu from until ≡ xs
slice_at psdu xs rest from until e h =
    let size : until - from ≡ length xs = omega (arith, h) in
    ap (λ k. take k (drop from psdu)) size
    ∙ (ap (take (length xs)) e ∙ take-append (length xs) xs rest refl)

-- A delimiter that stands at the position is read.
pub delimiter_at :
    (psdu rest : List ℕ) (pos len : ℕ) (eof : Bool)
    → drop pos psdu ≡ build_delimiter len eof ++ rest
    → len < 16384
    → parse_delimiter (slice psdu pos (pos + delim_len)) ≡ some (len, eof)
delimiter_at psdu rest pos len eof e h =
    ap parse_delimiter (
      slice_at psdu (build_delimiter len eof) rest pos (pos + delim_len) e
        (omega (arith, length-build_delimiter len eof)))
    ∙ parse-build_delimiter len eof h

-- A round over an EOF delimiter finds nothing.
step_empty :
    (psdu : List ℕ) (pos : ℕ) (eof : Bool)
    → parse_delimiter (slice psdu pos (pos + delim_len)) ≡ some (0, eof)
    → scan_step psdu pos ≡ (none, pos + 4)
unfolding scan_step
step_empty psdu pos eof e = ground (arith, e)

-- A round over the delimiter of an MPDU that is there finds it.
pub step_found :
    (psdu : List ℕ) (pos len : ℕ) (eof : Bool)
    → parse_delimiter (slice psdu pos (pos + delim_len)) ≡ some (len, eof)
    → 0 < len
    → pos + delim_len + len ≤ length psdu
    → scan_step psdu pos ≡ (
      some (slice psdu (pos + delim_len) (pos + delim_len + len), eof),
      pad4 (pos + delim_len + len),
    )
unfolding scan_step
step_found psdu pos len eof e h fits = ground (arith, e, h, fits)

scan_none : (psdu : List ℕ) (pos : ℕ) → scan zero psdu pos ≡ []
unfolding scan
scan_none psdu pos = refl

room_left :
    (psdu xs ys : List ℕ) (pos : ℕ)
    → drop pos psdu ≡ xs ++ ys
    → length xs ≡ 4
    → pos + 4 ≤ length psdu
room_left psdu xs ys pos e h = omega (arith, length-drop pos psdu, ap length e, length-append xs ys)

-- Nothing is found in EOF delimiters and loose zeros.
pub scan-eofs :
    (fuel n r : ℕ) (psdu : List ℕ) (pos : ℕ)
    → pos ≤ length psdu
    → r < 4
    → drop pos psdu ≡ eofs n ++ replicate r 0
    → scan fuel psdu pos ≡ []
unfolding eofs
scan-eofs zero n r psdu pos b h e = scan_none psdu pos
scan-eofs (suc fuel) zero r psdu pos b h e =
    scan_end (suc fuel) psdu pos
      (omega (arith, length-drop pos psdu, ap length e, length-replicate {A = ℕ} r 0))
scan-eofs (suc fuel) (suc n) r psdu pos b h e =
    let rest : List ℕ = eofs n ++ replicate r 0 in
    let here : drop pos psdu ≡ build_delimiter 0 true ++ rest =
      e ∙ append_assoc (build_delimiter 0 true) (eofs n) (replicate r 0) in
    let room =
      room_left psdu (build_delimiter 0 true) rest pos here (length-build_delimiter 0 true) in
    scan_next fuel psdu pos room
    ∙ (ap (λ q. push q.0 (scan fuel psdu q.1))
          (step_empty psdu pos true (delimiter_at psdu rest pos 0 true here (omega arith)))
        ∙ scan-eofs fuel n r psdu (pos + 4) room h (
            drop-drop (pos + 4) 4 pos psdu refl
            ∙ (ap (drop 4) here
                ∙ drop-append 4 (build_delimiter 0 true) rest (length-build_delimiter 0 true))))

-- Every round moves on by a delimiter at least.
step_moves : (psdu : List ℕ) (pos : ℕ) → pos + 4 ≤ (scan_step psdu pos).1
unfolding scan_step pad4
step_moves psdu pos = by_read (parse_delimiter (slice psdu pos (pos + delim_len))) refl
  where
    by_read :
        (o : Option (ℕ × Bool))
        → parse_delimiter (slice psdu pos (pos + delim_len)) ≡ o
        → pos + 4 ≤ (scan_step psdu pos).1
    by_read none q = ground (arith, q)
    by_read (some (len, eof)) q = ground (arith, q)

-- The loop of the scan as a relation: from a position it ends with what is found. A loop that does not
-- end has no derivation.
pub data Scans (psdu : List ℕ) : ℕ → List (List ℕ × Bool) → Type 0 where
  ended : {pos : ℕ} → length psdu < pos + 4 → Scans psdu pos []
  round :
      {pos : ℕ} {found : List (List ℕ × Bool)}
      → pos + 4 ≤ length psdu
      → Scans psdu (scan_step psdu pos).1 found
      → Scans psdu pos (push (scan_step psdu pos).0 found)

scan-Scans :
    (fuel : ℕ) (psdu : List ℕ) (pos : ℕ)
    → length psdu < pos + 4 * fuel + 4
    → Scans psdu pos (scan fuel psdu pos)
scan-Scans zero psdu pos h = subst (Scans psdu pos) (sym (scan_none psdu pos)) (ended (omega arith))
scan-Scans (suc fuel) psdu pos h = elim (Bool-cases (leb (pos + 4) (length psdu))) [
  | inl room ↦ subst (Scans psdu pos) (sym (scan_next fuel psdu pos (ground (arith, room)))) (
      round (ground (arith, room))
        (scan-Scans fuel psdu (scan_step psdu pos).1 (omega (arith, step_moves psdu pos))))
  | inr over ↦
      subst (Scans psdu pos) (sym (scan_end (suc fuel) psdu pos (ground (arith, over))))
        (ended (ground (arith, over)))
]

Scans-unique :
    (psdu : List ℕ) {pos : ℕ} {found found' : List (List ℕ × Bool)}
    → Scans psdu pos found
    → Scans psdu pos found'
    → found ≡ found'
Scans-unique psdu (ended h) (ended h') = refl
Scans-unique psdu (ended h) (round r s) = absurd (omega arith)
Scans-unique psdu (round r s) (ended h) = absurd (omega arith)
Scans-unique psdu (round {pos} r s) (round r' s') =
    ap (push (scan_step psdu pos).0) (Scans-unique psdu s s')

-- On every PSDU the loop of the scan ends, and deaggregation returns what the loop finds, which is the
-- only thing that it can find.
pub deaggregate_with_eof-Scans :
    (psdu : List ℕ)
    → Scans psdu 0 (deaggregate_with_eof psdu)
      × ((found : List (List ℕ × Bool)) → Scans psdu 0 found → found ≡ deaggregate_with_eof psdu)
unfolding deaggregate_with_eof
deaggregate_with_eof-Scans psdu =
    let ends : Scans psdu 0 (scan (length psdu) psdu 0) =
      scan-Scans (length psdu) psdu 0 (omega arith) in
    (ends, λ found s. Scans-unique psdu s ends)
