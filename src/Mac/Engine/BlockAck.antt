-- ===== src/Mac/Engine/BlockAck.antt =====
-- engine.rs: the BlockAck of a receiver, read by the sender.
use s2g.Base.{
  ℕ, ◌^◌, ◌<◌, ◌≡◌, max, List, [], ◌∷◌, Bool, false, ltb, ◌==◌, ◌&&◌, ◌||◌, not, refl, arith, All,
  bit_and, bit_or, bit_of,
}
use native.Mathlib.Nat.{one-le-pow}
use s2g.Base.Bits.{bit_at, bit_at-le, bit_at-zero, bit_and-pow, bit_at-bit_or, bit_at-pow}
use s2g.Mac.Filter.Policy.{contains}
use s2g.Mac.Engine.Receive.{seq_distance, block_ack_bitmap, is_acked}

-- Whether some number is `d` places behind `ssn`, where the window holds `d`.
unfoldable any_at : ℕ → ℕ → List ℕ → Bool
any_at ssn d [] = false
any_at ssn d (s ∷ seqs) = (seq_distance ssn s == d) || any_at ssn d seqs

bitmap_digit :
    (ssn d bits : ℕ) (seqs : List ℕ)
    → d < 16
    → bit_at (block_ack_bitmap ssn bits seqs) d ≡ max (bit_at bits d) (bit_of (any_at ssn d seqs))
unfolding block_ack_bitmap any_at
bitmap_digit ssn d bits [] h = ground arith
bitmap_digit ssn d bits (s ∷ seqs) h =
    let x = seq_distance ssn s in
    ground (
      arith,
      bitmap_digit ssn d bits seqs,
      bitmap_digit ssn d (bit_or bits (2 ^ x)) seqs,
      bit_at-bit_or d bits (2 ^ x),
      bit_at-pow x d,
      bit_at-le bits d,
    )

-- Numbers of 12 bits that are as far behind `ssn` are the same.
distance_injective :
    (ssn s t : ℕ)
    → ssn < 4096
    → s < 4096
    → t < 4096
    → (seq_distance ssn s == seq_distance ssn t) ≡ (s == t)
unfolding seq_distance
distance_injective ssn s t h p q = ground arith

any_at-contains :
    (ssn t : ℕ) (seqs : List ℕ)
    → ssn < 4096
    → t < 4096
    → All (λ s. s < 4096) seqs
    → any_at ssn (seq_distance ssn t) seqs ≡ contains seqs t
unfolding any_at contains
any_at-contains ssn t [] h p all = refl
any_at-contains ssn t (s ∷ seqs) h p (q, all) =
    ground (arith, distance_injective ssn s t h q p, any_at-contains ssn t seqs h p all)

digit_test : (x d : ℕ) → not (bit_and x (2 ^ d) == 0) ≡ (bit_at x d == 1)
digit_test x d = grind (arith, bit_and-pow d x, bit_at-le x d, one-le-pow d 2)

-- For sequence numbers of 12 bits: the sender reads from the BlockAck that a receiver makes of the
-- numbers it received exactly those that it received and that are less than 16 places behind the
-- first.
pub is_acked-block_ack_bitmap :
    (id ssn t : ℕ) (seqs : List ℕ)
    → ssn < 4096
    → t < 4096
    → All (λ s. s < 4096) seqs
    → is_acked
        (record {
          block_ack_id = id;
          starting_sequence = ssn;
          bitmap = block_ack_bitmap ssn 0 seqs;
        })
        t
      ≡ (ltb (seq_distance ssn t) 16 && contains seqs t)
unfolding is_acked
is_acked-block_ack_bitmap id ssn t seqs h p all = ground (
  arith,
  digit_test (block_ack_bitmap ssn 0 seqs) (seq_distance ssn t),
  bitmap_digit ssn (seq_distance ssn t) 0 seqs,
  any_at-contains ssn t seqs h p all,
  bit_at-zero (seq_distance ssn t),
)
