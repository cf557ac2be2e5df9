-- ===== src/Phy/Bcc/Puncture.antt =====
-- bcc.rs: how many bits are sent, and what the decoder makes of them.
use s2g.Base.{
  ℕ, zero, suc, ◌+◌, ◌*◌, ◌/◌, ◌%◌, ◌≡◌, List, [], ◌∷◌, if◌then◌else◌, length, map, refl, ap, arith,
  ◌∙◌, sym, bit_of, Bool-cases, inl, inr,
}
use s2g.Phy.Params.{CodeRate, r1_2, r2_3, r3_4, r5_6, as_fraction}
use s2g.Phy.Bcc.{
  puncture_pattern, encode_from, encode_r12, keeps_first, keeps_second, puncture, encode,
  punctured_len, depuncture,
}

-- The pairs of the mother code as the decoder sees them: a bit that is not sent has no value.
unfoldable pub received_pairs : {F : Type 0} → F → (ℕ → F) → CodeRate → ℕ → List ℕ → List (F × F)
received_pairs none_yet llr r k [] = []
received_pairs none_yet llr r k (a ∷ []) = []
received_pairs none_yet llr r k (a ∷ b ∷ mother) =
    (if keeps_first r k then llr a else none_yet, if keeps_second r k then llr b else none_yet)
    ∷ received_pairs none_yet llr r (suc k) mother

depuncture-puncture :
    {F : Type 0} (d : F) (llr : ℕ → F) (r : CodeRate) (k sh : ℕ) (bits : List ℕ)
    → depuncture d r k (length bits) (map llr (puncture r k (encode_from sh bits)))
      ≡ received_pairs d llr r k (encode_from sh bits)
unfolding depuncture puncture encode_from received_pairs
depuncture-puncture d llr r k sh [] = refl
depuncture-puncture {F} d llr r k sh (x ∷ bits) =
    let next = λ (p : F × F).
      ap (λ (l : List (F × F)). p ∷ l)
        (depuncture-puncture d llr r (suc k) ((x % 2 * 64 + sh) / 2) bits) in
    elim (Bool-cases (keeps_first r k)) [
      | inl e ↦ (elim (Bool-cases (keeps_second r k)) [
        | inl e' ↦ rw (e, e') (next _)
        | inr e' ↦ rw (e, e') (next _)
      ])
      | inr e ↦ (elim (Bool-cases (keeps_second r k)) [
        | inl e' ↦ rw (e, e') (next _)
        | inr e' ↦ rw (e, e') (next _)
      ])
    ]

-- The bits that are sent of `n` pairs, from the pair `k` on.
unfoldable sent : CodeRate → ℕ → ℕ → ℕ
sent r k zero = 0
sent r k (suc n) = bit_of (keeps_first r k) + bit_of (keeps_second r k) + sent r (suc k) n

length-puncture :
    (r : CodeRate) (k sh : ℕ) (bits : List ℕ)
    → length (puncture r k (encode_from sh bits)) ≡ sent r k (length bits)
unfolding puncture encode_from sent
length-puncture r k sh [] = refl
length-puncture r k sh (x ∷ bits) =
    ground (arith, length-puncture r (suc k) ((x % 2 * 64 + sh) / 2) bits)

-- One period of each pattern.
sent_r1_2 : (k n : ℕ) → k % 1 ≡ 0 → sent r1_2 k (suc n) ≡ 2 + sent r1_2 (suc k) n
unfolding sent keeps_first keeps_second puncture_pattern
sent_r1_2 k n h = rw (h) (omega arith)

sent_r2_3 : (k n : ℕ) → k % 2 ≡ 0 → sent r2_3 k (suc (suc n)) ≡ 3 + sent r2_3 (suc (suc k)) n
unfolding sent keeps_first keeps_second puncture_pattern
sent_r2_3 k n h = let e1 : suc k % 2 ≡ 1 = omega arith in rw (h, e1) (omega arith)

sent_r3_4 :
    (k n : ℕ) → k % 3 ≡ 0 → sent r3_4 k (suc (suc (suc n))) ≡ 4 + sent r3_4 (suc (suc (suc k))) n
unfolding sent keeps_first keeps_second puncture_pattern
sent_r3_4 k n h =
    let e1 : suc k % 3 ≡ 1 = omega arith in
    let e2 : suc (suc k) % 3 ≡ 2 = omega arith in rw (h, e1, e2) (omega arith)

sent_r5_6 :
    (k n : ℕ)
    → k % 5 ≡ 0
    → sent r5_6 k (suc (suc (suc (suc (suc n))))) ≡ 6 + sent r5_6 (suc (suc (suc (suc (suc k))))) n
unfolding sent keeps_first keeps_second puncture_pattern
sent_r5_6 k n h =
    let e1 : suc k % 5 ≡ 1 = omega arith in
    let e2 : suc (suc k) % 5 ≡ 2 = omega arith in
    let e3 : suc (suc (suc k)) % 5 ≡ 3 = omega arith in
    let e4 : suc (suc (suc (suc k))) % 5 ≡ 4 = omega arith in rw (h, e1, e2, e3, e4) (omega arith)

sent_periods :
    (r : CodeRate) (k q : ℕ)
    → k % (as_fraction r).0 ≡ 0
    → sent r k (q * (as_fraction r).0) ≡ q * (as_fraction r).1
unfolding sent as_fraction
sent_periods r1_2 k zero h = refl
sent_periods r2_3 k zero h = refl
sent_periods r3_4 k zero h = refl
sent_periods r5_6 k zero h = refl
sent_periods r1_2 k (suc q) h =
    let e : suc q * 1 ≡ suc (q * 1) = omega arith in
    omega
      (arith, ap (sent r1_2 k) e, sent_r1_2 k (q * 1) h, sent_periods r1_2 (suc k) q (omega arith))
sent_periods r2_3 k (suc q) h =
    let e : suc q * 2 ≡ suc (suc (q * 2)) = omega arith in
    omega (
      arith,
      ap (sent r2_3 k) e,
      sent_r2_3 k (q * 2) h,
      sent_periods r2_3 (suc (suc k)) q (omega arith),
    )
sent_periods r3_4 k (suc q) h =
    let e : suc q * 3 ≡ suc (suc (suc (q * 3))) = omega arith in
    omega (
      arith,
      ap (sent r3_4 k) e,
      sent_r3_4 k (q * 3) h,
      sent_periods r3_4 (suc (suc (suc k))) q (omega arith),
    )
sent_periods r5_6 k (suc q) h =
    let e : suc q * 5 ≡ suc (suc (suc (suc (suc (q * 5))))) = omega arith in
    omega (
      arith,
      ap (sent r5_6 k) e,
      sent_r5_6 k (q * 5) h,
      sent_periods r5_6 (suc (suc (suc (suc (suc k))))) q (omega arith),
    )

punctured_len_periods :
    (r : CodeRate) (q : ℕ) → punctured_len (q * (as_fraction r).0) r ≡ q * (as_fraction r).1
unfolding punctured_len as_fraction
punctured_len_periods r1_2 q = omega arith
punctured_len_periods r2_3 q = omega arith
punctured_len_periods r3_4 q = omega arith
punctured_len_periods r5_6 q = omega arith

first_of_period : (r : CodeRate) → 0 % (as_fraction r).0 ≡ 0
unfolding as_fraction
first_of_period r1_2 = refl
first_of_period r2_3 = refl
first_of_period r3_4 = refl
first_of_period r5_6 = refl

-- For a number of bits that fills whole puncturing periods, the encoder sends as many bits as
-- `punctured_len` says; and the decoder, from the soft values of any kind of the bits sent, pairs them
-- again as the mother code had them, with no value for each bit that was left out.
pub depuncture-encode :
    {F : Type 0} (d : F) (llr : ℕ → F) (r : CodeRate) (bits : List ℕ) (q : ℕ)
    → length bits ≡ q * (as_fraction r).0
    → (length (encode bits r) ≡ punctured_len (length bits) r)
      × (depuncture d r 0 (length bits) (map llr (encode bits r))
          ≡ received_pairs d llr r 0 (encode_r12 bits))
unfolding encode encode_r12 punctured_len
depuncture-encode d llr r bits q h = (
  length-puncture r 0 0 bits
      ∙ ap (sent r 0) h
      ∙ sent_periods r 0 q (first_of_period r)
      ∙ sym (ap (λ n. punctured_len n r) h ∙ punctured_len_periods r q),
  depuncture-puncture d llr r 0 0 bits,
)
