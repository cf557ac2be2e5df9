-- ===== src/Mac/Ampdu/RoundTrip.antt =====
-- An S-MPDU is taken apart again.
use s2g.Base.{
  ℕ, suc, ◌+◌, ◌-◌, ◌≤◌, ◌<◌, ◌≡◌, refl, ap, ◌∙◌, subst, min, List, [], ◌∷◌, ◌++◌, Bool, true, some,
  leb, length, length-append, length-replicate, drop, drop-append, replicate, append_assoc, arith,
  Bool-cases, inl, inr,
}
use s2g.Mac.Ampdu.Delimiter.{build_delimiter, length-build_delimiter}
use s2g.Mac.Ampdu.{scan, scan_step, push, pad4, finish, aggregate, deaggregate_with_eof}
use s2g.Mac.Ampdu.Fill.{eofs, IsFinished, finish-IsFinished}
use s2g.Mac.Ampdu.Scan.{scan_end, scan_next, scan-eofs, delimiter_at, slice_at, step_found}

-- What an accepted aggregation makes.
aggregated :
    (mpdu : List ℕ) (capacity : ℕ) (psdu : List ℕ)
    → aggregate mpdu capacity ≡ some psdu
    → (length mpdu < 16384)
      × (4 + length mpdu ≤ capacity)
      × (finish capacity (build_delimiter (length mpdu) true ++ mpdu) ≡ psdu)
unfolding aggregate
aggregated mpdu capacity psdu e = (ground arith, ground arith, ground arith)

-- Beyond the MPDU, from the next word on, nothing is found.
module _ (mpdu psdu : List ℕ) (capacity : ℕ)
    (f : IsFinished capacity (build_delimiter (length mpdu) true ++ mpdu) psdu)
    (fits : 4 + length mpdu ≤ capacity) where
  length-out : length (build_delimiter (length mpdu) true ++ mpdu) ≡ 4 + length mpdu
  length-out = omega (
    arith,
    length-append (build_delimiter (length mpdu) true) mpdu,
    length-build_delimiter (length mpdu) true,
  )

  -- The zeros after the MPDU, and what stands after them.
  front : List ℕ
  front =
      (build_delimiter (length mpdu) true ++ mpdu)
      ++ replicate
          (min (pad4 (length (build_delimiter (length mpdu) true ++ mpdu))) capacity
            - length (build_delimiter (length mpdu) true ++ mpdu))
          0

  back : List ℕ
  back = eofs f.count ++ replicate f.loose 0

  psdu_split : psdu ≡ front ++ back
  unfolding front back
  psdu_split = f.shape ∙ append_assoc front (eofs f.count) (replicate f.loose 0)

  length-front : pad4 (4 + length mpdu) ≤ capacity → length front ≡ pad4 (4 + length mpdu)
  unfolding front pad4
  length-front h =
      let zeros : ℕ =
        min (pad4 (length (build_delimiter (length mpdu) true ++ mpdu))) capacity
        - length (build_delimiter (length mpdu) true ++ mpdu) in
      omega (
        arith,
        h,
        length-out,
        length-append (build_delimiter (length mpdu) true ++ mpdu) (replicate zeros 0),
        length-replicate {A = ℕ} zeros 0,
      )

  rest_empty : (fuel : ℕ) → scan fuel psdu (pad4 (4 + length mpdu)) ≡ []
  unfolding back
  rest_empty fuel = elim (Bool-cases (leb (pad4 (4 + length mpdu)) capacity)) [
    | inl inside ↦
        let within : pad4 (4 + length mpdu) ≤ capacity = ground (arith, inside) in
        scan-eofs fuel f.count f.loose psdu (pad4 (4 + length mpdu))
          (omega (arith, within, f.exact)) f.few
          (ap (drop (pad4 (4 + length mpdu))) psdu_split
            ∙ drop-append (pad4 (4 + length mpdu)) front back (length-front within))
    | inr outside ↦ scan_end fuel psdu (pad4 (4 + length mpdu)) (ground (arith, outside, f.exact))
  ]

  -- The delimiter, the MPDU, and what stands after them.
  behind : List ℕ
  behind =
      replicate
        (min (pad4 (length (build_delimiter (length mpdu) true ++ mpdu))) capacity
          - length (build_delimiter (length mpdu) true ++ mpdu))
        0
      ++ back

  psdu_parts : psdu ≡ build_delimiter (length mpdu) true ++ (mpdu ++ behind)
  unfolding front behind
  psdu_parts =
      let delim : List ℕ = build_delimiter (length mpdu) true in
      let zeros : List ℕ =
        replicate (min (pad4 (length (delim ++ mpdu))) capacity - length (delim ++ mpdu)) 0 in
      psdu_split
      ∙ (append_assoc (delim ++ mpdu) zeros back ∙ append_assoc delim mpdu (zeros ++ back))

  found_first :
      length mpdu < 16384
      → 0 < length mpdu
      → scan_step psdu 0 ≡ (some (mpdu, true), pad4 (4 + length mpdu))
  found_first short h =
      let delim : List ℕ = build_delimiter (length mpdu) true in
      let read = delimiter_at psdu (mpdu ++ behind) 0 (length mpdu) true psdu_parts short in
      step_found psdu 0 (length mpdu) true read h (omega (arith, fits, f.exact))
      ∙ ap (λ m. (some (m, true), pad4 (4 + length mpdu)))
          (slice_at psdu mpdu behind 4 (4 + length mpdu)
            (ap (drop 4) psdu_parts
              ∙ drop-append 4 delim (mpdu ++ behind) (length-build_delimiter (length mpdu) true))
            refl)

  scanned :
      (fuel : ℕ)
      → length mpdu < 16384
      → 0 < length mpdu
      → scan (suc fuel) psdu 0 ≡ (mpdu, true) ∷ []
  scanned fuel short h =
      scan_next fuel psdu 0 (omega (arith, fits, f.exact))
      ∙ (ap (λ q. push q.0 (scan fuel psdu q.1)) (found_first short h)
          ∙ ap (λ (l : List (List ℕ × Bool)). (mpdu, true) ∷ l) (rest_empty fuel))

-- An MPDU that is not empty comes back from every S-MPDU that `aggregate` makes of it, as the only one
-- and with EOF set.
pub deaggregate-aggregate :
    (mpdu : List ℕ) (capacity : ℕ) (psdu : List ℕ)
    → 0 < length mpdu
    → aggregate mpdu capacity ≡ some psdu
    → (length psdu ≡ capacity) × (deaggregate_with_eof psdu ≡ (mpdu, true) ∷ [])
unfolding deaggregate_with_eof
deaggregate-aggregate mpdu capacity psdu h e =
    let (short, fits, made) = aggregated mpdu capacity psdu e in
    let f = subst (IsFinished capacity (build_delimiter (length mpdu) true ++ mpdu)) made (
      finish-IsFinished capacity (build_delimiter (length mpdu) true ++ mpdu) (
        omega (
          arith,
          fits,
          length-append (build_delimiter (length mpdu) true) mpdu,
          length-build_delimiter (length mpdu) true,
        ))) in
    let size : length psdu ≡ suc (length psdu - 1) = omega (arith, f.exact, fits) in
    (
      f.exact,
      ap (λ k. scan k psdu 0) size ∙ scanned mpdu psdu capacity f fits (length psdu - 1) short h,
    )
