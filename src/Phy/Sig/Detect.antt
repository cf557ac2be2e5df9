-- ===== src/Phy/Sig/Detect.antt =====
-- The CRC-4 finds every single wrong bit.
use s2g.Base.{
  ℕ, ◌+◌, ◌%◌, ◌<◌, ◌≡◌, ◌≢◌, ap, List, [], ◌∷◌, ◌++◌, some, arith, length, length-append,
  bytes_eq→eq, get_or,
}
use s2g.Phy.Sig.Frame48.{
  Crc4, crc4_init, crc4_step, crc4_loop, crc4_out, crc4, check_48, tail_bits, crc_failed,
  check_frame48, length-crc4,
}

-- A register holds bits.
record IsReg (r : Crc4) : Type 0 where
  c3_bit : r.c3 < 2
  c2_bit : r.c2 < 2
  c1_bit : r.c1 < 2
  c0_bit : r.c0 < 2

init-IsReg : IsReg crc4_init
init-IsReg = record {
  c3_bit = omega arith;
  c2_bit = omega arith;
  c1_bit = omega arith;
  c0_bit = omega arith;
}

step-IsReg : (b : ℕ) (r : Crc4) → IsReg r → IsReg (crc4_step b r)
unfolding crc4_step
step-IsReg b r h = record {
  c3_bit = h.c2_bit;
  c2_bit = omega (arith, h.c1_bit);
  c1_bit = omega arith;
  c0_bit = omega arith;
}

step_injective : (b : ℕ) (r s : Crc4) → IsReg r → IsReg s → crc4_step b r ≡ crc4_step b s → r ≡ s
unfolding crc4_step
step_injective b r s h k e =
    let fb : (b % 2 + r.c3) % 2 ≡ (b % 2 + s.c3) % 2 = ap (λ q. q.c0) e in
    let top : r.c3 ≡ s.c3 = omega (arith, fb, h.c3_bit, k.c3_bit) in
    let low : r.c0 ≡ s.c0 = omega (arith, fb, ap (λ q. q.c1) e, h.c0_bit, k.c0_bit) in
    λ i. record { c3 = top i; c2 = ap (λ q. q.c3) e i; c1 = ap (λ q. q.c2) e i; c0 = low i }

step_sees : (b b' : ℕ) (r : Crc4) → IsReg r → crc4_step b r ≡ crc4_step b' r → b % 2 ≡ b' % 2
unfolding crc4_step
step_sees b b' r h e = omega (arith, ap (λ q. q.c0) e, h.c3_bit)

loop_injective :
    (bits : List ℕ) (r s : Crc4) → IsReg r → IsReg s → crc4_loop bits r ≡ crc4_loop bits s → r ≡ s
unfolding crc4_loop
loop_injective [] r s h k e = e
loop_injective (b ∷ bits) r s h k e =
    step_injective b r s h k
      (loop_injective bits (crc4_step b r) (crc4_step b s) (step-IsReg b r h) (step-IsReg b s k) e)

loop-IsReg : (bits : List ℕ) (r : Crc4) → IsReg r → IsReg (crc4_loop bits r)
unfolding crc4_loop
loop-IsReg [] r h = h
loop-IsReg (b ∷ bits) r h = loop-IsReg bits (crc4_step b r) (step-IsReg b r h)

-- Two words that differ in one bit leave the register in different states.
loop_sees :
    (xs ys : List ℕ) (b b' : ℕ) (r : Crc4)
    → IsReg r
    → crc4_loop (xs ++ b ∷ ys) r ≡ crc4_loop (xs ++ b' ∷ ys) r
    → b % 2 ≡ b' % 2
unfolding crc4_loop
loop_sees [] ys b b' r h e =
    step_sees b b' r h
      (loop_injective ys (crc4_step b r) (crc4_step b' r) (step-IsReg b r h) (step-IsReg b' r h) e)
loop_sees (x ∷ xs) ys b b' r h e = loop_sees xs ys b b' (crc4_step x r) (step-IsReg x r h) e

out_injective : (r s : Crc4) → IsReg r → IsReg s → crc4_out r ≡ crc4_out s → r ≡ s
unfolding crc4_out
out_injective r s h k e = λ i. record { c3 = c3_eq i; c2 = c2_eq i; c1 = c1_eq i; c0 = c0_eq i }
  where
    at : (n : ℕ) → get_or (crc4_out r) n 0 ≡ get_or (crc4_out s) n 0
    at n = ap (λ l. get_or l n 0) e

    c3_eq : r.c3 ≡ s.c3
    c3_eq = omega (arith, at 0, h.c3_bit, k.c3_bit)

    c2_eq : r.c2 ≡ s.c2
    c2_eq = omega (arith, at 1, h.c2_bit, k.c2_bit)

    c1_eq : r.c1 ≡ s.c1
    c1_eq = omega (arith, at 2, h.c1_bit, k.c1_bit)

    c0_eq : r.c0 ≡ s.c0
    c0_eq = omega (arith, at 3, h.c0_bit, k.c0_bit)

crc4_sees :
    (xs ys : List ℕ) (b b' : ℕ) → crc4 (xs ++ b ∷ ys) ≡ crc4 (xs ++ b' ∷ ys) → b % 2 ≡ b' % 2
unfolding crc4
crc4_sees xs ys b b' e = loop_sees xs ys b b' crc4_init init-IsReg (
    out_injective (crc4_loop (xs ++ b ∷ ys) crc4_init) (crc4_loop (xs ++ b' ∷ ys) crc4_init)
      (loop-IsReg (xs ++ b ∷ ys) crc4_init init-IsReg)
      (loop-IsReg (xs ++ b' ∷ ys) crc4_init init-IsReg) e)

-- 48 bits with an all-zero tail and the CRC of 38 bits, of which exactly one is received wrong,
-- are refused with CrcFailed.
pub wrong_bit_refused :
    (xs ys : List ℕ) (b b' : ℕ)
    → length (xs ++ b ∷ ys) ≡ 38
    → b % 2 ≢ b' % 2
    → check_48 ((xs ++ b' ∷ ys) ++ (crc4 (xs ++ b ∷ ys) ++ tail_bits)) ≡ some crc_failed
wrong_bit_refused xs ys b b' n other =
    let c = crc4 (xs ++ b ∷ ys) in
    let v : List ℕ = xs ++ b' ∷ ys in
    let m : length v ≡ 38 =
      omega (arith, n, length-append xs (b ∷ ys), length-append xs (b' ∷ ys)) in
    ground (
      arith,
      check_frame48 v c m (length-crc4 (xs ++ b ∷ ys)),
      bytes_eq→eq c (crc4 v),
      λ (e : c ≡ crc4 v). other (crc4_sees xs ys b b' e),
    )
