-- ===== src/Phy/Ldpc.antt =====
-- crates/s2g-phy/src/ldpc.rs: the LDPC parameters of a PPDU (`PpduParams`), computed in the platform's
-- double precision. The codes themselves are left out.
use s2g.Base.{
  ℕ, ◌+◌, ◌-◌, ◌*◌, ◌/◌, ◌%◌, ◌≤◌, ◌<◌, ◌≡◌, zero, suc, Bool, true, false, ◌&&◌, ◌||◌, leb, ltb,
  if◌then◌else◌, arith, min,
}
use native.Mathlib.Nat.{div-eq_of_eq-mul_left, div-add-mod, mod-lt, suc-mul}
use s2g.Base.Floats.{Floats}
use s2g.Phy.Params.{CodeRate, as_fraction}

pub record PpduParams : Type 0 where
  pub rate : CodeRate
  pub n_pld : ℕ
  pub n_avbits : ℕ
  pub n_cw : ℕ
  pub l_ldpc : ℕ
  pub n_shrt : ℕ
  pub n_punc : ℕ
  pub n_rep : ℕ
  pub n_sym : ℕ
  pub extra_symbol : Bool

-- The first `total % n_cw` of the codewords take one more.
unfoldable pub split : ℕ → ℕ → ℕ → ℕ
split n_cw' j total = total / n_cw' + (if ltb j (total % n_cw') then 1 else 0)

extra_quotient :
    (n c : ℕ) (b : Bool) → 0 < c → (n * c + (if b then c else 0)) / c ≡ n + (if b then 1 else 0)
extra_quotient n c true h = div-eq_of_eq-mul_left h (grind arith)
extra_quotient n c false h = div-eq_of_eq-mul_left h (grind arith)

module _ (fl : Floats) where
  abbrev pub wide : ℕ → fl.F64
  wide n = fl.double.of_nat n

  unfoldable pub as_f64 : CodeRate → fl.F64
  as_f64 r = fl.double.div (wide ((as_fraction r).0)) (wide ((as_fraction r).1))

  -- Whether `n_avbits` is enough for the longer code: `n_pld + slack * (1 - r)`.
  abbrev pub holds : ℕ → ℕ → ℕ → fl.F64 → Bool
  holds n_avbits' n_pld' slack r =
      fl.double.le
        (fl.double.add (wide n_pld') (fl.double.mul (wide slack) (fl.double.sub (wide 1) r)))
        (wide n_avbits')

  -- Table 19-16: the number of codewords and their length.
  unfoldable pub codewords : ℕ → ℕ → fl.F64 → ℕ × ℕ
  codewords n_avbits' n_pld' r =
      if leb n_avbits' 648
      then (1, if holds n_avbits' n_pld' 912 r then 1296 else 648)
      else if leb n_avbits' 1296
      then (1, if holds n_avbits' n_pld' 1464 r then 1944 else 1296)
      else if leb n_avbits' 1944
      then (1, 1944)
      else if leb n_avbits' 2592
      then (2, if holds n_avbits' n_pld' 2916 r then 1944 else 1296)
      else (
        fl.double.to_nat
            (fl.double.ceil (fl.double.div (wide n_pld') (fl.double.mul (wide 1944) r))),
        1944,
      )

  -- Whether so many bits are punctured that one more symbol is sent.
  unfoldable pub needs_extra : ℕ → ℕ → fl.F64 → fl.F64 → Bool
  needs_extra punc shrt parity_total r =
      (fl.double.lt (fl.double.mul (fl.double.ratio 1 10) parity_total) (wide punc)
        && fl.double.lt (wide shrt) (
            fl.double.div (fl.double.mul (fl.double.mul (fl.double.ratio 12 10) (wide punc)) r)
              (fl.double.sub (wide 1) r)))
      || fl.double.lt (fl.double.mul (fl.double.ratio 3 10) parity_total) (wide punc)

  abbrev pub rounded : fl.F64 → ℕ
  rounded x = fl.double.to_nat (fl.double.round (fl.double.larger x (wide 0)))

  unfoldable pub ppdu_params : ℕ → ℕ → ℕ → CodeRate → PpduParams
  unfolding as_f64 codewords needs_extra
  ppdu_params n_sym_init n_dbps n_cbps rate' =
      let r = as_f64 rate' in
      let pld = n_sym_init * n_dbps in
      let avbits = n_sym_init * n_cbps in
      let cw = codewords avbits pld r in
      let all_bits = cw.0 * cw.1 in
      let shrt = rounded (fl.double.sub (fl.double.mul (wide all_bits) r) (wide pld)) in
      let parity_total = fl.double.mul (wide all_bits) (fl.double.sub (wide 1) r) in
      let extra = needs_extra (all_bits - (avbits + shrt)) shrt parity_total r in
      let avbits' = avbits + (if extra then n_cbps else 0) in
      record {
        rate = rate';
        n_pld = pld;
        n_avbits = avbits';
        n_cw = cw.0;
        l_ldpc = cw.1;
        n_shrt = shrt;
        n_punc = all_bits - (avbits' + shrt);
        n_rep = rounded (fl.double.sub (fl.double.sub (wide avbits') parity_total) (wide pld));
        n_sym = avbits' / n_cbps;
        extra_symbol = extra;
      }

  -- For every arithmetic: the extra symbol is the whole difference between the two symbol counts.
  pub ppdu_params-n_sym :
      (n_init n_dbps n_cbps : ℕ) (r : CodeRate)
      → 0 < n_cbps
      → (ppdu_params n_init n_dbps n_cbps r).n_sym
        ≡ n_init + (if (ppdu_params n_init n_dbps n_cbps r).extra_symbol then 1 else 0)
  unfolding ppdu_params
  ppdu_params-n_sym n_init n_dbps n_cbps r h = extra_quotient n_init n_cbps _ h

-- The sum of a function below a bound.
abbrev pub sum_below : ℕ → (ℕ → ℕ) → ℕ
sum_below zero f = 0
sum_below (suc n) f = sum_below n f + f n

split_below :
    (n k total : ℕ) → sum_below k (λ j. split n j total) ≡ k * (total / n) + min k (total % n)
unfolding split
split_below n zero total = omega arith
split_below n (suc k) total = ground (arith, split_below n k total, suc-mul k (total / n))

-- A total that is divided among codewords, of which there is at least one, is divided without loss,
-- and the shares of two codewords differ by at most one.
pub split_total :
    (n total i j : ℕ)
    → 0 < n
    → (sum_below n (λ k. split n k total) ≡ total) × (split n i total ≤ split n j total + 1)
unfolding split
split_total n total i j h =
    (omega (arith, split_below n n total, div-add-mod total n, mod-lt total h), ground arith)

unfoldable pub per_codeword : PpduParams → ℕ → ℕ × ℕ × ℕ
unfolding split
per_codeword p j = (split p.n_cw j p.n_shrt, split p.n_cw j p.n_punc, split p.n_cw j p.n_rep)

unfoldable pub tx_len : PpduParams → ℕ → ℕ
unfolding per_codeword
tx_len p j = let (s, c, r) = per_codeword p j in p.l_ldpc - s - c + r
