-- ===== src/Mac/Ndp/Fields.antt =====
-- `put` and `get` as arithmetic: a word is split at a bit field, and the field is replaced or read.
use s2g.Base.{ℕ, suc, ◌+◌, ◌-◌, ◌*◌, ◌/◌, ◌%◌, ◌^◌, ◌≤◌, ◌<◌, ◌≡◌, ap, ◌∙◌, arith, bit_and, bit_or}
use s2g.Base.Bits.{
  bit_and_fields, bit_or_fields, bit_and_mask, bit_and-zero, bit_or-zero, bit_or_comm,
}
use native.Mathlib.Nat.{
  one-le-pow, mod-lt, mod-eq_of_lt, mul-add-mod_self_right, div-add-mod', div-lt_iff_lt-mul,
}
use s2g.Mac.Ndp.{get, put}

-- The complement of a mask, with T, W and K for the powers of two above, in and below the field.
complement_suc : (T W K : ℕ) → suc T * (suc W * suc K) - 1 - W * suc K ≡ (T * suc W + 0) * suc K + K
complement_suc T W K =
    let e : suc T * (suc W * suc K) ≡ (T * suc W + 0) * suc K + W * suc K + suc K = omega arith in
    omega (arith, e)

complement :
    (T W K T' W' K' : ℕ)
    → T ≡ suc T'
    → W ≡ suc W'
    → K ≡ suc K'
    → T * (W * K) - 1 - W' * K ≡ (T' * W + 0) * K + K'
complement T W K T' W' K' p q r = rw (p, q, r) (complement_suc T' W' K')

pow_pos : (k : ℕ) → 1 ≤ 2 ^ k
pow_pos k = one-le-pow k 2 (omega arith)

below : (x y X Y : ℕ) → x < X → y < Y → x * Y + y < X * Y
below x y X Y h i = grind arith

rescale : (x X K : ℕ) → 1 ≤ K → x < X → x * K < X * K
rescale x X K j h = grind arith

shifted :
    (T W K v : ℕ) → 1 ≤ T → 1 ≤ W → 1 ≤ K → v * K % (T * (W * K)) ≡ (v / W % T * W + v % W) * K
shifted T W K v h i j =
    ap (λ (t : ℕ). t % (T * (W * K))) split
    ∙ mul-add-mod_self_right (v / W / T) (T * (W * K)) ((v / W % T * W + v % W) * K)
    ∙ mod-eq_of_lt small
  where
    split : v * K ≡ v / W / T * (T * (W * K)) + (v / W % T * W + v % W) * K
    split = omega (
      arith,
      ap (λ (t : ℕ). t * K) (div-add-mod' v W),
      ap (λ (t : ℕ). t * W * K) (div-add-mod' (v / W) T),
    )

    small : (v / W % T * W + v % W) * K < T * (W * K)
    small =
        let e : T * W * K ≡ T * (W * K) = omega arith in
        rw (← e) (
          rescale ((v / W % T) * W + v % W) (T * W) K j
            (below (v / W % T) (v % W) T W (mod-lt (v / W) h) (mod-lt v i)))

module _ (t w k : ℕ) (whole : 2 ^ t * (2 ^ w * 2 ^ k) ≡ 2 ^ 64) where
  kept :
      (h m l : ℕ)
      → h < 2 ^ t
      → m < 2 ^ w
      → l < 2 ^ k
      → bit_and ((h * 2 ^ w + m) * 2 ^ k + l) (2 ^ 64 - 1 - (2 ^ w - 1) * 2 ^ k)
        ≡ (h * 2 ^ w + 0) * 2 ^ k + l
  kept h m l hh hm hl = ground (
    arith,
    whole,
    complement (2 ^ t) (2 ^ w) (2 ^ k) (2 ^ t - 1) (2 ^ w - 1) (2 ^ k - 1),
    pow_pos t,
    bit_and_fields k (h * 2 ^ w + m) l ((2 ^ t - 1) * 2 ^ w + 0) (2 ^ k - 1) hl,
    pow_pos k,
    pow_pos w,
    bit_and_fields w h m (2 ^ t - 1) 0 hm,
    bit_and_mask t h,
    bit_and_mask k l,
    bit_and-zero m,
    mod-eq_of_lt hh,
    mod-eq_of_lt hl,
  )

  written :
      (a v : ℕ) → v < 2 ^ w → bit_and ((a * 2 ^ w + v) * 2 ^ k) ((2 ^ w - 1) * 2 ^ k) ≡ v * 2 ^ k
  written a v hv = ground (
    arith,
    bit_and_fields k (a * 2 ^ w + v) 0 (0 * 2 ^ w + (2 ^ w - 1)) 0,
    pow_pos k,
    pow_pos w,
    bit_and_fields w a v 0 (2 ^ w - 1) hv,
    bit_and_mask w v,
    bit_and-zero a,
    bit_and-zero 0,
    mod-eq_of_lt hv,
  )

  joined :
      (h v l : ℕ)
      → v < 2 ^ w
      → l < 2 ^ k
      → bit_or ((h * 2 ^ w + 0) * 2 ^ k + l) (v * 2 ^ k) ≡ (h * 2 ^ w + v) * 2 ^ k + l
  joined h v l hv hl = ground (
    arith,
    bit_or_fields k (h * 2 ^ w + 0) l (0 * 2 ^ w + v) 0 hl,
    pow_pos k,
    pow_pos w,
    bit_or_fields w h 0 0 v,
    bit_or-zero h,
    bit_or-zero l,
    bit_or_comm 0 v,
    bit_or-zero v,
  )

  -- Everything outside the field is kept, and the field gets the low bits of the value.
  put_split :
      (h m l value : ℕ)
      → h < 2 ^ t
      → m < 2 ^ w
      → l < 2 ^ k
      → put ((h * 2 ^ w + m) * 2 ^ k + l) k w value ≡ (h * 2 ^ w + value % 2 ^ w) * 2 ^ k + l
  unfolding put
  put_split h m l value hh hm hl = ground (
    arith,
    whole,
    kept h m l hh hm hl,
    shifted (2 ^ t) (2 ^ w) (2 ^ k) value (pow_pos t) (pow_pos w) (pow_pos k),
    mod-lt value (pow_pos w),
    written (value / 2 ^ w % 2 ^ t) (value % 2 ^ w),
    joined h (value % 2 ^ w) l,
  )

  -- The same at a word that has not been split.
  pub put_lem :
      (b value : ℕ)
      → b < 2 ^ 64
      → put b k w value ≡ (b / 2 ^ k / 2 ^ w * 2 ^ w + value % 2 ^ w) * 2 ^ k + b % 2 ^ k
  put_lem b value hb =
      ap (λ (t : ℕ). put t k w value) split
      ∙ put_split (b / 2 ^ k / 2 ^ w) (b / 2 ^ k % 2 ^ w) (b % 2 ^ k) value high
          (mod-lt (b / 2 ^ k) (pow_pos w)) (mod-lt b (pow_pos k))
    where
      split : b ≡ (b / 2 ^ k / 2 ^ w * 2 ^ w + b / 2 ^ k % 2 ^ w) * 2 ^ k + b % 2 ^ k
      split = omega (
        arith,
        div-add-mod' b (2 ^ k),
        ap (λ (t : ℕ). t * 2 ^ k) (div-add-mod' (b / 2 ^ k) (2 ^ w)),
      )

      high : b / 2 ^ k / 2 ^ w < 2 ^ t
      high =
          (div-lt_iff_lt-mul (pow_pos w)).1
            ((div-lt_iff_lt-mul (pow_pos k)).1 (omega (arith, whole, hb)))

pub get_lem : (b lo bits : ℕ) → get b lo bits ≡ b / 2 ^ lo % 2 ^ bits
unfolding get
get_lem b lo bits = bit_and_mask bits (b / 2 ^ lo)
