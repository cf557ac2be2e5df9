-- ===== src/Phy/Interleaver/Tests.antt =====
-- interleaver.rs: runs of the interleavers, and the theorems at such symbols.
use s2g.Base.{ℕ, ◌*◌, ◌+◌, ◌%◌, ◌≡◌, List, [], ◌∷◌, map, get_or, refl}
use s2g.Phy.Params.{qpsk, n_bpscs}
use s2g.Phy.Interleaver.{
  count_from, data_perm, sig_perm, interleave, deinterleave_llrs, interleave_sig,
  deinterleave_sig_llrs,
}
use s2g.Phy.Interleaver.RoundTrip.{
  deinterleave_llrs-interleave, deinterleave_sig_llrs-interleave_sig,
}

adjacent_bits_spread : get_or (data_perm 2) 1 0 ≡ get_or (data_perm 2) 0 0 + 8
unfolding data_perm
adjacent_bits_spread = refl

sig_known_positions :
    get_or sig_perm 1 0 ∷ get_or sig_perm 16 0 ∷ get_or sig_perm 47 0 ∷ [] ≡ 3 ∷ 1 ∷ 47 ∷ []
unfolding sig_perm
sig_known_positions = refl

abbrev some_bits : ℕ → List ℕ
some_bits n = map (λ i. (i * 37 + 11) % 2) (count_from 0 n)

deinterleave_llrs-interleave_example :
    deinterleave_llrs 0 (map (λ b. b + 5) (interleave (some_bits 104) 2)) 2
    ≡ map (λ b. b + 5) (some_bits 104)
unfolding count_from n_bpscs
deinterleave_llrs-interleave_example =
    deinterleave_llrs-interleave qpsk (λ b. b + 5) 0 (some_bits 104) refl

deinterleave_sig_llrs-interleave_sig_example :
    deinterleave_sig_llrs 0 (map (λ b. b + 5) (interleave_sig (some_bits 48)))
    ≡ map (λ b. b + 5) (some_bits 48)
unfolding count_from
deinterleave_sig_llrs-interleave_sig_example =
    deinterleave_sig_llrs-interleave_sig (λ b. b + 5) 0 (some_bits 48) refl
