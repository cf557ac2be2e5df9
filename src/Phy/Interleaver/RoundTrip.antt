-- ===== src/Phy/Interleaver/RoundTrip.antt =====
-- interleaver.rs: the deinterleavers undo the interleavers.
use s2g.Base.{
  ℕ, zero, suc, ◌+◌, ◌-◌, ◌*◌, ◌/◌, ◌%◌, ◌<◌, ◌≡◌, max, List, [], ◌∷◌, Bool, true, false, ltb, ◌==◌,
  ◌&&◌, refl, ap, ap₂, ◌∙◌, sym, length, map, replicate, get_or, set, length-set, length-replicate,
  length-map, arith, Bool-cases, inl, inr,
}
use s2g.Phy.Params.{Modulation, bpsk, qpsk, qam16, qam64, qam256, qam1024, n_bpscs}
use s2g.Phy.Interleaver.{
  count_from, data_place, data_perm, sig_perm, place, collect, deinterleave_llrs,
  deinterleave_sig_llrs, interleave, interleave_sig,
}

-- Whether a function takes the places back to `k`, `suc k` and so on, all below `n`.
unfoldable inverts : (ℕ → ℕ) → ℕ → ℕ → List ℕ → Bool
inverts inv n k [] = true
inverts inv n k (j ∷ js) = (inv j == k && ltb j n) && inverts inv n (suc k) js

-- The place in the coded bits that a place in a Data symbol comes from (21-79 to 21-81).
unfoldable data_origin : ℕ → ℕ → ℕ
data_origin n_bpscs j =
    let n_row = 4 * n_bpscs in
    let n_cbps = 13 * n_row in
    let s = max 1 (n_bpscs / 2) in
    let i = s * (j / s) + (j + (13 * j) / n_cbps) % s in 13 * i - (n_cbps - 1) * (i / n_row)

inverts-data_perm :
    (m : Modulation)
    → inverts (data_origin (n_bpscs m)) (52 * n_bpscs m) 0 (data_perm (n_bpscs m)) ≡ true
unfolding inverts data_origin data_perm n_bpscs
inverts-data_perm bpsk = refl
inverts-data_perm qpsk = refl
inverts-data_perm qam16 = refl
inverts-data_perm qam64 = refl
inverts-data_perm qam256 = refl
inverts-data_perm qam1024 = refl

inverts-sig_perm : inverts (λ j. 16 * (j % 3) + j / 3) 48 0 sig_perm ≡ true
unfolding inverts sig_perm
inverts-sig_perm = refl

places_differ :
    (inv : ℕ → ℕ) (n k i j : ℕ) (js : List ℕ)
    → inverts inv n k (j ∷ js) ≡ true
    → inv i < k
    → (j == i) ≡ false
unfolding inverts
places_differ inv n k i j js h p = elim (Bool-cases (j == i)) [
  | inr e ↦ e
  | inl e ↦ let same : inv j ≡ inv i = ap inv (ground arith) in absurd (ground arith)
]

module _ {ℓ} {A : Type ℓ} where
  get_or-set : (xs : List A) (i : ℕ) (v d : A) → i < length xs → get_or (set xs i v) i d ≡ v
  get_or-set [] i v d h = absurd (omega arith)
  get_or-set (x ∷ xs) zero v d h = refl
  get_or-set (x ∷ xs) (suc i) v d h = get_or-set xs i v d (omega arith)

  get_or-set_other :
      (xs : List A) (i j : ℕ) (v d : A) → (i == j) ≡ false → get_or (set xs i v) j d ≡ get_or xs j d
  get_or-set_other [] i j v d h = refl
  get_or-set_other (x ∷ xs) zero zero v d h = absurd (ground arith)
  get_or-set_other (x ∷ xs) zero (suc j) v d h = refl
  get_or-set_other (x ∷ xs) (suc i) zero v d h = refl
  get_or-set_other (x ∷ xs) (suc i) (suc j) v d h = get_or-set_other xs i j v d (ground arith)

  -- A place that an earlier index was written to keeps its value.
  get_or-place :
      (inv : ℕ → ℕ) (n k i : ℕ) (d : A) (js : List ℕ) (bits out : List A)
      → inverts inv n k js ≡ true
      → inv i < k
      → get_or (place js bits out) i d ≡ get_or out i d
  unfolding place inverts
  get_or-place inv n k i d [] bits out h p = refl
  get_or-place inv n k i d (j ∷ js) [] out h p = refl
  get_or-place inv n k i d (j ∷ js) (b ∷ bits) out h p =
      get_or-place inv n (suc k) i d js bits (set out j b) (ground arith) (omega arith)
      ∙ get_or-set_other out j i b d (places_differ inv n k i j js h p)

  collect-place :
      (inv : ℕ → ℕ) (n k : ℕ) (d : A) (js : List ℕ) (bits out : List A)
      → inverts inv n k js ≡ true
      → length out ≡ n
      → length bits ≡ length js
      → collect d js (place js bits out) ≡ bits
  unfolding collect place inverts
  collect-place inv n k d [] [] out h o l = refl
  collect-place inv n k d [] (b ∷ bits) out h o l = absurd (omega arith)
  collect-place inv n k d (j ∷ js) [] out h o l = absurd (omega arith)
  collect-place inv n k d (j ∷ js) (b ∷ bits) out h o l =
      ap₂ (λ (x : A) (l : List A). x ∷ l)
        (get_or-place inv n (suc k) j d js bits (set out j b) (ground arith) (ground arith)
          ∙ get_or-set out j b d (ground arith))
        (collect-place inv n (suc k) d js bits (set out j b) (ground arith) (length-set out j b ∙ o)
          (omega arith))

map-set :
    {A B : Type 0} (f : A → B) (xs : List A) (i : ℕ) (v : A)
    → map f (set xs i v) ≡ set (map f xs) i (f v)
map-set f [] i v = refl
map-set f (x ∷ xs) zero v = refl
map-set f (x ∷ xs) (suc i) v = ap (λ l. f x ∷ l) (map-set f xs i v)

map-place :
    {A B : Type 0} (f : A → B) (js : List ℕ) (bits out : List A)
    → map f (place js bits out) ≡ place js (map f bits) (map f out)
unfolding place
map-place f [] bits out = refl
map-place f (j ∷ js) [] out = refl
map-place f (j ∷ js) (b ∷ bits) out =
    map-place f js bits (set out j b) ∙ ap (place js (map f bits)) (map-set f out j b)

length-count_from : (k n : ℕ) → length (count_from k n) ≡ n
unfolding count_from
length-count_from k zero = refl
length-count_from k (suc n) = ap suc (length-count_from (suc k) n)

-- The places that an inverted permutation gives to bits, read again in order, for any soft values.
collect-map-place :
    {F : Type 0} (inv : ℕ → ℕ) (n : ℕ) (d : F) (llr : ℕ → F) (js bits out : List ℕ)
    → inverts inv n 0 js ≡ true
    → length out ≡ n
    → length bits ≡ length js
    → collect d js (map llr (place js bits out)) ≡ map llr bits
collect-map-place inv n d llr js bits out h o l =
    ap (collect d js) (map-place llr js bits out)
    ∙ collect-place inv n 0 d js (map llr bits) (map llr out) h (length-map llr out ∙ o)
        (length-map llr bits ∙ l)

-- Of the coded bits of a Data symbol in any modulation, interleaved and received as soft values of any
-- kind, the deinterleaver puts the soft value of every bit back in that bit's place.
pub deinterleave_llrs-interleave :
    {F : Type 0} (m : Modulation) (llr : ℕ → F) (d : F) (bits : List ℕ)
    → length bits ≡ 52 * n_bpscs m
    → deinterleave_llrs d (map llr (interleave bits (n_bpscs m))) (n_bpscs m) ≡ map llr bits
unfolding deinterleave_llrs interleave data_perm
deinterleave_llrs-interleave m llr d bits h =
    collect-map-place (data_origin (n_bpscs m)) (52 * n_bpscs m) d llr (data_perm (n_bpscs m)) bits
      (replicate (length bits) 0) (inverts-data_perm m) (length-replicate (length bits) 0 ∙ h)
      (h
        ∙ sym (
            length-map (data_place (n_bpscs m)) (count_from 0 (13 * (4 * n_bpscs m)))
            ∙ length-count_from 0 (13 * (4 * n_bpscs m))
            ∙ (omega arith)))

-- Of the 48 coded bits of a SIG symbol, interleaved and received as soft values of any kind, the
-- deinterleaver puts the soft value of every bit back in that bit's place.
pub deinterleave_sig_llrs-interleave_sig :
    {F : Type 0} (llr : ℕ → F) (d : F) (bits : List ℕ)
    → length bits ≡ 48
    → deinterleave_sig_llrs d (map llr (interleave_sig bits)) ≡ map llr bits
unfolding deinterleave_sig_llrs interleave_sig sig_perm
deinterleave_sig_llrs-interleave_sig llr d bits h =
    collect-map-place (λ j. 16 * (j % 3) + j / 3) 48 d llr sig_perm bits (replicate 48 0)
      inverts-sig_perm refl h
