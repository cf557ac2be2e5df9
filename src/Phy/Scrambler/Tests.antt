-- ===== src/Phy/Scrambler/Tests.antt =====
-- Runs of scrambler.rs, and its theorems at concrete seeds.
use s2g.Base.{ℕ, ◌≡◌, ◌+◌, ◌<◌, ◌%◌, refl, arith, List, [], ◌∷◌}
use s2g.Phy.Bits.{uint_bits}
use s2g.Phy.Scrambler.{sequence, extend, scramble_in_place, recover_seed}
use s2g.Phy.Scrambler.Laws.{service_bits, key_bit, scramble_in_place-received}

-- The start of the sequence that the standard prints for seed 112.
golden_sequence_112 :
    sequence 112 16 ≡ 0 ∷ 0 ∷ 0 ∷ 0 ∷ 1 ∷ 1 ∷ 1 ∷ 0 ∷ 1 ∷ 1 ∷ 1 ∷ 1 ∷ 0 ∷ 0 ∷ 1 ∷ 0 ∷ []
unfolding sequence extend uint_bits
golden_sequence_112 = refl

abbrev some_bits : List ℕ
some_bits = 1 ∷ 0 ∷ 1 ∷ []

abbrev sent : List ℕ
sent = scramble_in_place 93 (service_bits some_bits)

scramble_in_place-received_example :
    (recover_seed sent ≡ 93 % 128)
    × (scramble_in_place (recover_seed sent) sent ≡ service_bits some_bits)
    × ((i : ℕ)
        → i + 7 < 10
        → key_bit sent (service_bits some_bits) (i + 7)
          ≡ (key_bit sent (service_bits some_bits) (i + 3)
              + key_bit sent (service_bits some_bits) i)
            % 2)
scramble_in_place-received_example = scramble_in_place-received 93 some_bits (omega arith)
