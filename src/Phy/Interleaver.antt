-- ===== src/Phy/Interleaver.antt =====
-- crates/s2g-phy/src/interleaver.rs: the permutations of a Data symbol and of a SIG symbol, applied
-- to bits and undone on the soft values (of any type) that the receiver finds for them.
pub mod RoundTrip
mod Tests
use s2g.Base.{
  ℕ, zero, suc, ◌+◌, ◌-◌, ◌*◌, ◌/◌, ◌%◌, max, List, [], ◌∷◌, length, map, replicate, get_or, set,
}

-- `0..n` from `k` on
unfoldable pub count_from : ℕ → ℕ → List ℕ
count_from k zero = []
count_from k (suc n) = k ∷ count_from (suc k) n

-- Where the bit `k` of a Data symbol goes.
unfoldable pub data_place : ℕ → ℕ → ℕ
data_place n_bpscs k =
    let n_row = 4 * n_bpscs in
    let n_cbps = 13 * n_row in
    let s = max 1 (n_bpscs / 2) in
    let i = n_row * (k % 13) + k / 13 in s * (i / s) + (i + n_cbps - (13 * i) / n_cbps) % s

unfoldable pub data_perm : ℕ → List ℕ
unfolding count_from data_place
data_perm n_bpscs = map (data_place n_bpscs) (count_from 0 (13 * (4 * n_bpscs)))

unfoldable pub sig_perm : List ℕ
unfolding count_from
sig_perm = map (λ k. 3 * (k % 16) + k / 16) (count_from 0 48)

module _ {ℓ} {A : Type ℓ} where
  -- `out[j] = bits[k]`, with as many bits as places
  unfoldable pub place : List ℕ → List A → List A → List A
  place [] bits out = out
  place (j ∷ js) [] out = out
  place (j ∷ js) (b ∷ bits) out = place js bits (set out j b)

  -- `out[k] = llrs[j]`
  unfoldable pub collect : A → List ℕ → List A → List A
  collect none_yet [] llrs = []
  collect none_yet (j ∷ js) llrs = get_or llrs j none_yet ∷ collect none_yet js llrs

  unfoldable pub deinterleave_llrs : A → List A → ℕ → List A
  deinterleave_llrs none_yet llrs n_bpscs = collect none_yet (data_perm n_bpscs) llrs

  unfoldable pub deinterleave_sig_llrs : A → List A → List A
  deinterleave_sig_llrs none_yet llrs = collect none_yet sig_perm llrs

unfoldable pub interleave : List ℕ → ℕ → List ℕ
interleave bits n_bpscs = place (data_perm n_bpscs) bits (replicate (length bits) 0)

unfoldable pub interleave_sig : List ℕ → List ℕ
interleave_sig bits = place sig_perm bits (replicate 48 0)
