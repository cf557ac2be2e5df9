-- ===== src/Phy/Scrambler/Laws.antt =====
-- Scrambling is undone by itself, and shows the seed.
use s2g.Base.{
  ℕ, zero, suc, ◌+◌, ◌-◌, ◌%◌, ◌≤◌, ◌<◌, ◌≡◌, refl, sym, ap, ap₂, subst, ◌∙◌, List, [], ◌∷◌, ◌++◌,
  length, replicate, take, get_or, All, arith, ltb, Bool-cases, inl, inr, append-nil, append_assoc,
  length-append, All-append, All-replicate, get_or-append, get_or-append_last, take-append,
}
use s2g.Phy.Bits.{uint_bits, bits_to_uint_lsb_first}
use s2g.Phy.Bits.RoundTrip.{length-uint_bits}
use s2g.Phy.Scrambler.{sequence, extend, xor_bits, scramble_in_place, recover_seed}

abbrev pub IsBit : ℕ → Type 0
IsBit b = b < 2

length-xor_bits : (bits seq : List ℕ) → length (xor_bits bits seq) ≡ length bits
unfolding xor_bits
length-xor_bits [] seq = refl
length-xor_bits (b ∷ bits) [] = refl
length-xor_bits (b ∷ bits) (s ∷ seq) = ap suc (length-xor_bits bits seq)

xor_bits_twice : (bits seq : List ℕ) → All IsBit bits → xor_bits (xor_bits bits seq) seq ≡ bits
unfolding xor_bits
xor_bits_twice [] seq ok = refl
xor_bits_twice (b ∷ bits) [] ok = refl
xor_bits_twice (b ∷ bits) (s ∷ seq) ok =
    ap₂ (λ (x : ℕ) (l : List ℕ). x ∷ l) (omega (arith, ok.0)) (xor_bits_twice bits seq ok.1)

-- Scrambling a list of bits twice with one seed gives it back.
pub scramble_in_place_twice :
    (seed : ℕ) (bits : List ℕ)
    → All IsBit bits
    → scramble_in_place seed (scramble_in_place seed bits) ≡ bits
unfolding scramble_in_place
scramble_in_place_twice seed bits ok =
    let seq : List ℕ = sequence seed (length bits) in
    ap (λ k. xor_bits (xor_bits bits seq) (sequence seed k)) (length-xor_bits bits seq)
    ∙ xor_bits_twice bits seq ok

-- Every bit from the seventh on is the sum of the ones four and seven before it.
abbrev Recurs : List ℕ → Type 0
Recurs s = (i : ℕ) → i + 7 < length s → get_or s (i + 7) 0 ≡ (get_or s (i + 3) 0 + get_or s i 0) % 2

grown-Recurs :
    (s : List ℕ)
    → 7 ≤ length s
    → Recurs s
    → Recurs (s ++ (get_or s (length s - 4) 0 + get_or s (length s - 7) 0) % 2 ∷ [])
grown-Recurs s h r i l =
    let b : ℕ = (get_or s (length s - 4) 0 + get_or s (length s - 7) 0) % 2 in
    let size = length-append s (b ∷ []) in
    rw
      (
        get_or-append s (b ∷ []) (i + 3) 0 (omega (arith, l, size)),
        get_or-append s (b ∷ []) i 0 (omega (arith, l, size)),
      )
      (elim (Bool-cases (ltb (i + 7) (length s))) [
        | inl inside ↦
            get_or-append s (b ∷ []) (i + 7) 0 (ground (arith, inside))
            ∙ r i (ground (arith, inside))
        | inr outside ↦
            let last : i + 7 ≡ length s = ground (arith, outside, l, size) in
            ap (λ k. get_or (s ++ b ∷ []) k 0) last
            ∙ (get_or-append_last s b 0
                ∙ ap₂ (λ j k. (get_or s j 0 + get_or s k 0) % 2) (omega (arith, last))
                    (omega (arith, last)))
      ])

extend-Recurs : (n : ℕ) (s : List ℕ) → 7 ≤ length s → Recurs s → Recurs (extend n s)
unfolding extend
extend-Recurs zero s h r = r
extend-Recurs (suc n) s h r =
    let b : ℕ = (get_or s (length s - 4) 0 + get_or s (length s - 7) 0) % 2 in
    extend-Recurs n (s ++ b ∷ []) (omega (arith, length-append s (b ∷ []))) (grown-Recurs s h r)

-- The extension starts with what is extended, and has `n` bits more.
extend_grows : (n : ℕ) (s : List ℕ) → (t : List ℕ) × (extend n s ≡ s ++ t) × (length t ≡ n)
unfolding extend
extend_grows zero s = ([], sym (append-nil s), refl)
extend_grows (suc n) s =
    let b : ℕ = (get_or s (length s - 4) 0 + get_or s (length s - 7) 0) % 2 in
    let (t, e, l) = extend_grows n (s ++ b ∷ []) in (b ∷ t, e ∙ append_assoc s (b ∷ []) t, ap suc l)

take_all {ℓ} : {A : Type ℓ} (n : ℕ) (xs : List A) → length xs ≡ n → take n xs ≡ xs
take_all n xs e = ap (take n) (sym (append-nil xs)) ∙ take-append n xs [] e

-- The sequence for seven bits and more is the extension of the bits of the seed.
sequence-extend : (seed n : ℕ) → sequence seed (n + 7) ≡ extend n (uint_bits seed 7)
unfolding sequence
sequence-extend seed n =
    let (t, e, l) = extend_grows n (uint_bits seed 7) in
    let sized : length (extend n (uint_bits seed 7)) ≡ n + 7 =
      ap length e
      ∙ (length-append (uint_bits seed 7) t ∙ omega (arith, l, length-uint_bits seed 7)) in
    ap₂ (λ k j. take (n + 7) (extend k (uint_bits seed j))) (omega arith) (omega arith)
    ∙ take_all (n + 7) (extend n (uint_bits seed 7)) sized

length-sequence : (seed n : ℕ) → length (sequence seed (n + 7)) ≡ n + 7
length-sequence seed n =
    let (t, e, l) = extend_grows n (uint_bits seed 7) in
    ap length (sequence-extend seed n ∙ e)
    ∙ (length-append (uint_bits seed 7) t ∙ omega (arith, l, length-uint_bits seed 7))

sequence-Recurs : (seed n : ℕ) → Recurs (sequence seed (n + 7))
sequence-Recurs seed n =
    let size = length-uint_bits seed 7 in
    subst Recurs (sym (sequence-extend seed n)) (
      extend-Recurs n (uint_bits seed 7) (omega (arith, size))
        (λ i l. absurd (omega (arith, size, l))))

-- Only the low seven bits of the seed count.
sequence_low_bits : (seed n : ℕ) → sequence (seed % 128) (n + 7) ≡ sequence seed (n + 7)
unfolding uint_bits
sequence_low_bits seed n =
    let low : uint_bits (seed % 128) 7 ≡ uint_bits seed 7 = ground arith in
    sequence-extend (seed % 128) n ∙ (ap (extend n) low ∙ sym (sequence-extend seed n))

get_or-xor_bits :
    (bits seq : List ℕ) (i : ℕ)
    → i < length bits
    → length bits ≡ length seq
    → get_or (xor_bits bits seq) i 0 ≡ (get_or bits i 0 + get_or seq i 0) % 2
unfolding xor_bits
get_or-xor_bits [] seq i h e = absurd (omega arith)
get_or-xor_bits (b ∷ bits) [] i h e = absurd (omega arith)
get_or-xor_bits (b ∷ bits) (s ∷ seq) zero h e = refl
get_or-xor_bits (b ∷ bits) (s ∷ seq) (suc i) h e =
    get_or-xor_bits bits seq i (omega arith) (omega arith)

-- The bits of a PPDU that start with the seven zeros of the SERVICE field.
abbrev pub service_bits : List ℕ → List ℕ
service_bits rest = replicate 7 0 ++ rest

-- What a bit was scrambled with.
abbrev pub key_bit : (sent bits : List ℕ) → ℕ → ℕ
key_bit sent bits i = (get_or sent i 0 + get_or bits i 0) % 2

scrambled_lem :
    (seed : ℕ) (rest : List ℕ)
    → scramble_in_place seed (service_bits rest)
      ≡ xor_bits (service_bits rest) (sequence seed (length rest + 7))
unfolding scramble_in_place
scrambled_lem seed rest = ap (λ k. xor_bits (service_bits rest) (sequence seed k)) (omega arith)

zeros_IsBit : (rest : List ℕ) → All IsBit rest → All IsBit (service_bits rest)
zeros_IsBit rest h = All-append IsBit (replicate 7 0) rest (All-replicate IsBit 7 0 (omega arith)) h

key_bit-sequence :
    (seed : ℕ) (rest : List ℕ) (i : ℕ)
    → i < length rest + 7
    → key_bit (scramble_in_place seed (service_bits rest)) (service_bits rest) i
      ≡ get_or (sequence seed (length rest + 7)) i 0 % 2
key_bit-sequence seed rest i h = omega (
  arith,
  ap (λ (l : List ℕ). get_or l i 0) (scrambled_lem seed rest),
  get_or-xor_bits (service_bits rest) (sequence seed (length rest + 7)) i (omega arith)
      (omega (arith, length-sequence seed (length rest))),
)

recover_seed-scramble_in_place :
    (seed : ℕ) (rest : List ℕ)
    → recover_seed (scramble_in_place seed (service_bits rest)) ≡ seed % 128
unfolding recover_seed xor_bits uint_bits bits_to_uint_lsb_first
recover_seed-scramble_in_place seed rest =
    let (t, e, l) = extend_grows (length rest) (uint_bits seed 7) in
    ap recover_seed (scrambled_lem seed rest)
    ∙ (ap (λ s. recover_seed (xor_bits (service_bits rest) s))
          (sequence-extend seed (length rest) ∙ e)
        ∙ omega arith)

-- For bits that start with the seven zeros of the SERVICE field: the receiver finds the low seven bits
-- of the seed in the scrambled bits, and with them gets every bit back; and what the bits were scrambled
-- with is, from the seventh bit on, the sum of what was used four and seven bits before.
pub scramble_in_place-received :
    (seed : ℕ) (rest : List ℕ)
    → All IsBit rest
    → (recover_seed (scramble_in_place seed (service_bits rest)) ≡ seed % 128)
      × (scramble_in_place
            (recover_seed (scramble_in_place seed (service_bits rest)))
            (scramble_in_place seed (service_bits rest))
          ≡ service_bits rest)
      × ((i : ℕ)
          → i + 7 < length (service_bits rest)
          → let key = key_bit (scramble_in_place seed (service_bits rest)) (service_bits rest) in
            key (i + 7) ≡ (key (i + 3) + key i) % 2)
unfolding scramble_in_place
scramble_in_place-received seed rest h =
    let n = length rest in
    let sent : List ℕ = scramble_in_place seed (service_bits rest) in
    let found = recover_seed-scramble_in_place seed rest in
    let size : length sent ≡ n + 7 =
      ap length (scrambled_lem seed rest)
      ∙ (length-xor_bits (service_bits rest) (sequence seed (n + 7)) ∙ omega arith) in
    let same : sequence (recover_seed sent) (length sent) ≡ sequence seed (length sent) =
      ap₂ sequence found size ∙ (sequence_low_bits seed n ∙ ap (sequence seed) (sym size)) in
    (
      found,
      ap (xor_bits sent) same
          ∙ scramble_in_place_twice seed (service_bits rest) (zeros_IsBit rest h),
      λ i l. omega (
        arith,
        key_bit-sequence seed rest (i + 7) (omega arith),
        key_bit-sequence seed rest (i + 3) (omega arith),
        key_bit-sequence seed rest i (omega arith),
        sequence-Recurs seed n i (omega (arith, length-sequence seed n)),
      ),
    )
