-- ===== src/Mac/Addr.antt =====
-- crates/s2g-mac/src/frame.rs, the type of addresses: an array of six bytes, copied from and to
-- slices.
use s2g.Base.{ℕ, List, [], ◌∷◌, get_or}

-- `[u8; 6]`
pub record MacAddr : Type 0 where
  pub a : ℕ
  pub b : ℕ
  pub c : ℕ
  pub d : ℕ
  pub e : ℕ
  pub f : ℕ

abbrev pub octets : MacAddr → List ℕ
octets m = m.a ∷ m.b ∷ m.c ∷ m.d ∷ m.e ∷ m.f ∷ []

-- `addr(b)`: the first six bytes of a slice
abbrev pub addr : List ℕ → MacAddr
addr b = record {
  a = get_or b 0 0;
  b = get_or b 1 0;
  c = get_or b 2 0;
  d = get_or b 3 0;
  e = get_or b 4 0;
  f = get_or b 5 0;
}

abbrev pub all_ones : MacAddr
all_ones = record { a = 0xff; b = 0xff; c = 0xff; d = 0xff; e = 0xff; f = 0xff }
