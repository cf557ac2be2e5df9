-- ===== src/Mac/Frame/Locate.antt =====
-- crates/s2g-mac/src/frame.rs, `locate_mpdu`: the MPDU inside a PSDU that some chips pad.
use s2g.Base.{
  ℕ, zero, suc, ◌+◌, ◌-◌, ◌≤◌, ◌<◌, ◌≡◌, List, Bool, true, false, Option, none, some, arith, length,
  take, leb, if◌then◌else◌, ◌&&◌, is_some, is_some→some, is_some-some, Bool-cases, ltb, ◌==◌, inl,
  inr,
}
use s2g.Mac.Fcs
use s2g.Mac.Fcs.Detect.{check_and_strip_iff}

-- `len >= 10 && check_and_strip(&psdu[..len]).is_some()` where `len = psdu.len() - trim` exists
pub verifies : List ℕ → ℕ → Bool
verifies psdu trim =
    leb trim (length psdu)
    && leb 10 (length psdu - trim)
    && is_some (Fcs.check_and_strip (take (length psdu - trim) psdu))

-- The first of the trims from `trim` on, `n` of them.
pub find_trim : ℕ → ℕ → List ℕ → Option (List ℕ)
unfolding verifies
find_trim zero trim psdu = none
find_trim (suc n) trim psdu =
    let rest = find_trim n (trim + 1) psdu in
    if verifies psdu trim then some (take (length psdu - trim) psdu) else rest

unfoldable pub locate_mpdu : List ℕ → Option (List ℕ)
unfolding find_trim
locate_mpdu psdu = find_trim 4 0 psdu

-- `n` bytes at the front of the PSDU are a frame, and at most three bytes follow them.
pub record IsMpduPrefix (psdu : List ℕ) (n : ℕ) : Type 0 where
  pub fits : n ≤ length psdu
  pub near_end : length psdu ≤ n + 3
  pub long : 10 ≤ n
  pub body : List ℕ
  pub framed : take n psdu ≡ Fcs.append body

verifies→prefix :
    (psdu : List ℕ) (trim : ℕ)
    → trim < 4
    → verifies psdu trim ≡ true
    → IsMpduPrefix psdu (length psdu - trim)
unfolding verifies
verifies→prefix psdu trim h v =
    let (inner, e) =
      is_some→some (Fcs.check_and_strip (take (length psdu - trim) psdu)) (ground arith) in
    record {
      fits = omega arith;
      near_end = omega arith;
      long = ground arith;
      body = inner;
      framed = (check_and_strip_iff (take (length psdu - trim) psdu) inner).0 e;
    }

prefix→verifies :
    (psdu : List ℕ) (n trim : ℕ)
    → n + trim ≡ length psdu
    → IsMpduPrefix psdu n
    → verifies psdu trim ≡ true
unfolding verifies
prefix→verifies psdu n trim e p = ground (
  arith,
  is_some-some (Fcs.check_and_strip (take n psdu)) p.body,
  (check_and_strip_iff (take n psdu) p.body).1 p.framed,
  p.fits,
  p.long,
)

module _ (psdu : List ℕ) where
  find_trim-some :
      (n t : ℕ) (m : List ℕ)
      → find_trim n t psdu ≡ some m
      → (j : ℕ) × (t ≤ j)
        × (j < t + n)
        × (verifies psdu j ≡ true)
        × (m ≡ take (length psdu - j) psdu)
        × ((i : ℕ) → t ≤ i → i < j → verifies psdu i ≡ false)
  unfolding find_trim
  find_trim-some zero t m e = ground arith
  find_trim-some (suc n) t m e = elim (Bool-cases (verifies psdu t)) [
    | inl v ↦ (t, omega arith, omega arith, v, ground arith, λ i a b. absurd (omega arith))
    | inr v ↦
        let (j, lo, hi, good, eq, before) = find_trim-some n (t + 1) m (ground arith) in
        (
          j,
          omega arith,
          omega arith,
          good,
          eq,
          λ i a b. elim (Bool-cases (t == i)) [
            | inl same ↦ ground arith
            | inr other ↦ before i (ground arith) b
          ],
        )
  ]

  find_trim-none :
      (n t i : ℕ) → find_trim n t psdu ≡ none → t ≤ i → i < t + n → verifies psdu i ≡ false
  unfolding find_trim
  find_trim-none zero t i e a b = absurd (omega arith)
  find_trim-none (suc n) t i e a b = elim (Bool-cases (t == i)) [
    | inl same ↦ ground arith
    | inr other ↦ find_trim-none n (t + 1) i (ground arith) (ground arith) (omega arith)
  ]

  -- The MPDU that is found is the longest frame that ends within three bytes of the end of the
  -- PSDU.
  pub locate_mpdu-some :
      (m : List ℕ)
      → locate_mpdu psdu ≡ some m
      → (n : ℕ) × IsMpduPrefix psdu n × (m ≡ take n psdu) × ((k : ℕ) → IsMpduPrefix psdu k → k ≤ n)
  unfolding locate_mpdu
  locate_mpdu-some m e =
      let (j, lo, hi, good, eq, before) = find_trim-some 4 0 m e in
      let prefix = verifies→prefix psdu j hi good in
      (
        length psdu - j,
        prefix,
        eq,
        λ k p. elim (Bool-cases (ltb (length psdu - j) k)) [
          | inl longer ↦ absurd (
              ground
                (arith, before (length psdu - k), prefix→verifies psdu k (length psdu - k), p.fits))
          | inr shorter ↦ ground arith
        ],
      )

  -- Nothing is found only where there is no such frame.
  pub locate_mpdu-none : locate_mpdu psdu ≡ none → (n : ℕ) → ¬ IsMpduPrefix psdu n
  unfolding locate_mpdu
  locate_mpdu-none e n p = ground (
    arith,
    find_trim-none 4 0 (length psdu - n) e,
    prefix→verifies psdu n (length psdu - n),
    p.fits,
    p.near_end,
  )
