-- ===== src/Mac/Rate/Bounds/Ladder.antt =====
-- rate.rs: indices into the ladder, and the greatest index that passes a test.
use s2g.Base.{
  ℕ, zero, suc, ◌+◌, ◌≤◌, ◌<◌, List, [], ◌∷◌, Bool, true, some, length, All, ◌≡◌, arith, get_or,
  subst, Bool-cases, inl, inr,
}
use s2g.Mac.Rate.Types.{ladder, position, ladder_index, ladder_mcs}
use s2g.Mac.Rate.Hints.{greatest}

position-get_or :
    (m : ℕ) (xs : List ℕ) (i : ℕ) → position m xs ≡ some i → (i < length xs) × (get_or xs i 0 ≡ m)
unfolding position
position-get_or m [] i h = ground arith
position-get_or m (x ∷ xs) zero h = ground arith
position-get_or m (x ∷ xs) (suc i) h = ground (arith, position-get_or m xs i)

-- An index that is found is on the ladder, at the MCS that was looked up.
pub ladder_index-ladder_mcs : (m i : ℕ) → ladder_index m ≡ some i → (i < 10) × (ladder_mcs i ≡ m)
unfolding ladder_index ladder_mcs
ladder_index-ladder_mcs m i h = position-get_or m ladder i h

-- The greatest index passes the test, lies in the range, and no index above it passes.
pub greatest_bounds :
    (test : ℕ → Bool) (lo n i : ℕ)
    → greatest test lo n ≡ some i
    → (lo ≤ i) × (i ≤ lo + n) × (test i ≡ true)
unfolding greatest
greatest_bounds test lo zero i h = ground arith
greatest_bounds test lo (suc n) i h = ground (arith, greatest_bounds test lo n i)

pub greatest_largest :
    (test : ℕ → Bool) (lo n i j : ℕ)
    → greatest test lo n ≡ some i
    → lo ≤ j
    → j ≤ lo + n
    → test j ≡ true
    → j ≤ i
unfolding greatest
greatest_largest test lo zero i j h p q e = ground arith
greatest_largest test lo (suc n) i j h p q e =
    let last : (j ≡ lo + suc n) → test (lo + suc n) ≡ true = λ d. subst (λ k. test k ≡ true) d e in
    elim (Bool-cases (test (lo + suc n))) [
      | inl t ↦ ground arith
      | inr f ↦ ground (arith, last, greatest_largest test lo n i j)
    ]

-- An MCS between two indices of the ladder.
abbrev pub OnLadder : ℕ → ℕ → ℕ → Type 0
OnLadder lo hi m = (i : ℕ) × (lo ≤ i) × (i ≤ hi) × (m ≡ ladder_mcs i)

-- A list that rises, and what that says of its places.
abbrev IsRising : List ℕ → Type 0
IsRising [] = Unit {0}
IsRising (x ∷ xs) = All (λ y. x ≤ y) xs × IsRising xs

le-get_or : (x : ℕ) (xs : List ℕ) (j : ℕ) → All (λ y. x ≤ y) xs → j < length xs → x ≤ get_or xs j 0
le-get_or x [] j h l = absurd (omega arith)
le-get_or x (y ∷ ys) zero h l = h.0
le-get_or x (y ∷ ys) (suc j) h l = le-get_or x ys j h.1 (omega arith)

get_or_mono :
    (xs : List ℕ) (i j : ℕ) → IsRising xs → i ≤ j → j < length xs → get_or xs i 0 ≤ get_or xs j 0
get_or_mono [] i j r h l = absurd (omega arith)
get_or_mono (x ∷ xs) zero zero r h l = omega arith
get_or_mono (x ∷ xs) zero (suc j) r h l = le-get_or x xs j r.0 (omega arith)
get_or_mono (x ∷ xs) (suc i) zero r h l = absurd (omega arith)
get_or_mono (x ∷ xs) (suc i) (suc j) r h l = get_or_mono xs i j r.1 (omega arith) (omega arith)

-- The ladder rises.
pub ladder_mcs_mono : (i j : ℕ) → i ≤ j → j < 10 → ladder_mcs i ≤ ladder_mcs j
unfolding ladder_mcs
ladder_mcs_mono i j h l = get_or_mono ladder i j (omega arith) h l
