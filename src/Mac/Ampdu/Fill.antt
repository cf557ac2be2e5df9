-- ===== src/Mac/Ampdu/Fill.antt =====
-- The shape of an aggregated PSDU.
use s2g.Base.{
  ℕ, zero, suc, ◌+◌, ◌-◌, ◌*◌, ◌≤◌, ◌<◌, ◌≡◌, refl, ap, sym, ◌∙◌, min, List, [], ◌∷◌, ◌++◌, true,
  false, leb, length, length-append, length-replicate, length-take, take, replicate, append-nil,
  append_assoc, subst, arith, Bool-cases, inl, inr,
}
use s2g.Mac.Ampdu.Delimiter.{build_delimiter, length-build_delimiter}
use s2g.Mac.Ampdu.{resize, fill, finish, pad4}

-- `n` EOF delimiters.
unfoldable pub eofs : ℕ → List ℕ
eofs zero = []
eofs (suc n) = build_delimiter 0 true ++ eofs n

take_all : (n : ℕ) (xs : List ℕ) → length xs ≤ n → take n xs ≡ xs
take_all zero [] h = refl
take_all zero (x ∷ xs) h = absurd (omega arith)
take_all (suc n) [] h = refl
take_all (suc n) (x ∷ xs) h = ap (λ (l : List ℕ). x ∷ l) (take_all n xs (omega arith))

-- A list that is grown keeps its elements.
pub resize_grow :
    (n : ℕ) (out : List ℕ) → length out ≤ n → resize n out ≡ out ++ replicate (n - length out) 0
unfolding resize
resize_grow n out h = ap (λ (l : List ℕ). l ++ replicate (n - length out) 0) (take_all n out h)

pub length-resize : (n : ℕ) (out : List ℕ) → length (resize n out) ≡ n
unfolding resize
length-resize n out = ground (
  arith,
  length-append (take n out) (replicate (n - length out) 0),
  length-take n out,
  length-replicate {A = ℕ} (n - length out) 0,
)

fill_stop : (capacity : ℕ) (out : List ℕ) → fill zero capacity out ≡ out
unfolding fill
fill_stop capacity out = refl

fill_more :
    (fuel capacity : ℕ) (out : List ℕ)
    → leb (length out + 4) capacity ≡ true
    → fill (suc fuel) capacity out ≡ fill fuel capacity (out ++ build_delimiter 0 true)
unfolding fill
fill_more fuel capacity out h = ground (arith, h)

fill_done :
    (fuel capacity : ℕ) (out : List ℕ)
    → leb (length out + 4) capacity ≡ false
    → fill (suc fuel) capacity out ≡ out
unfolding fill
fill_done fuel capacity out h = ground (arith, h)

-- `full` is `out` with EOF delimiters, as many as fit.
pub record IsFilled (capacity : ℕ) (out full : List ℕ) : Type 0 where
  pub count : ℕ
  pub shape : full ≡ out ++ eofs count
  pub below : length full ≤ capacity
  pub tight : capacity < length full + 4

unfilled :
    (capacity : ℕ) (out : List ℕ)
    → length out ≤ capacity
    → capacity < length out + 4
    → IsFilled capacity out out
unfolding eofs
unfilled capacity out h k = record { count = 0; shape = sym (append-nil out); below = h; tight = k }

one_more :
    (capacity : ℕ) (out full : List ℕ)
    → IsFilled capacity (out ++ build_delimiter 0 true) full
    → IsFilled capacity out full
unfolding eofs
one_more capacity out full f = record {
  count = suc f.count;
  shape = f.shape ∙ append_assoc out (build_delimiter 0 true) (eofs f.count);
  below = f.below;
  tight = f.tight;
}

-- With a round for every four bytes of room, the loop ends with less room than a delimiter takes.
pub fill-IsFilled :
    (fuel capacity : ℕ) (out : List ℕ)
    → length out ≤ capacity
    → capacity < length out + 4 * fuel + 4
    → IsFilled capacity out (fill fuel capacity out)
fill-IsFilled zero capacity out h k =
    subst (IsFilled capacity out) (sym (fill_stop capacity out))
      (unfilled capacity out h (omega arith))
fill-IsFilled (suc fuel) capacity out h k = elim (Bool-cases (leb (length out + 4) capacity)) [
  | inl room ↦
      let longer : List ℕ = out ++ build_delimiter 0 true in
      let more : length longer ≡ length out + 4 =
        omega (arith, length-append out (build_delimiter 0 true), length-build_delimiter 0 true) in
      subst (IsFilled capacity out) (sym (fill_more fuel capacity out room)) (
        one_more capacity out (fill fuel capacity longer)
          (fill-IsFilled fuel capacity longer (ground (arith, more)) (omega (arith, more))))
  | inr full ↦
      subst (IsFilled capacity out) (sym (fill_done fuel capacity out full))
        (unfilled capacity out h (ground arith))
]

-- The padding never overtakes the capacity.
aligned_ge : (capacity n : ℕ) → n ≤ capacity → n ≤ min (pad4 n) capacity
unfolding pad4
aligned_ge capacity n h = omega arith

-- What `finish` makes: zeros up to the next word, EOF delimiters, and loose zeros.
pub record IsFinished (capacity : ℕ) (out psdu : List ℕ) : Type 0 where
  pub count : ℕ
  pub loose : ℕ
  pub shape :
      psdu
      ≡ ((out ++ replicate (min (pad4 (length out)) capacity - length out) 0) ++ eofs count)
        ++ replicate loose 0
  pub few : loose < 4
  pub exact : length psdu ≡ capacity

pub finish-IsFinished :
    (capacity : ℕ) (out : List ℕ)
    → length out ≤ capacity
    → IsFinished capacity out (finish capacity out)
unfolding finish
finish-IsFinished capacity out h =
    let words : ℕ = min (pad4 (length out)) capacity in
    let padded : List ℕ = resize words out in
    let f =
      fill-IsFilled capacity capacity padded (omega (arith, length-resize words out))
        (omega arith) in
    let full : List ℕ = fill capacity capacity padded in
    record {
      count = f.count;
      loose = capacity - length full;
      shape =
          resize_grow capacity full f.below
          ∙ ap (λ (l : List ℕ). l ++ replicate (capacity - length full) 0)
              (f.shape
                ∙ ap (λ (l : List ℕ). l ++ eofs f.count)
                    (resize_grow words out (aligned_ge capacity (length out) h)));
      few = omega (arith, f.tight);
      exact = length-resize capacity full;
    }
