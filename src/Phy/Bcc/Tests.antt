-- ===== src/Phy/Bcc/Tests.antt =====
-- bcc.rs: runs of the encoder, and the theorem at such bits.
use s2g.Base.{ℕ, ◌+◌, ◌≡◌, List, [], ◌∷◌, length, map, replicate, refl}
use s2g.Phy.Params.{r3_4, as_fraction}
use s2g.Phy.Bcc.{encode_r12, encode, punctured_len, depuncture}
use s2g.Phy.Bcc.Puncture.{received_pairs, depuncture-encode}

-- The response to one bit shows the two generators, from their high bits on.
impulse_shows_generators :
    encode_r12 (1 ∷ replicate 6 0) ≡ 1 ∷ 1 ∷ 0 ∷ 1 ∷ 1 ∷ 1 ∷ 1 ∷ 1 ∷ 0 ∷ 0 ∷ 1 ∷ 0 ∷ 1 ∷ 1 ∷ []
unfolding encode_r12
impulse_shows_generators = refl

abbrev info : List ℕ
info = 1 ∷ 0 ∷ 1 ∷ 1 ∷ 0 ∷ 1 ∷ []

depuncture-encode_example :
    (length (encode info r3_4) ≡ punctured_len 6 r3_4)
    × (depuncture 0 r3_4 0 6 (map (λ b. b + 3) (encode info r3_4))
        ≡ received_pairs 0 (λ b. b + 3) r3_4 0 (encode_r12 info))
unfolding as_fraction
depuncture-encode_example = depuncture-encode 0 (λ b. b + 3) r3_4 info 2 refl
