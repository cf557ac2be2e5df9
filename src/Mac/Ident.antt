-- ===== src/Mac/Ident.antt =====
-- crates/s2g-mac/src/ident.rs: station identification. A text is the list of its code points; the
-- text of a received frame is given by its bytes, which `from_utf8_lossy` only makes printable.
use s2g.Base.{
  ℕ, ◌-◌, List, [], ◌∷◌, ◌++◌, Bool, Option, none, some, leb, ltb, ◌==◌, ◌&&◌, ◌||◌, not,
  if◌then◌else◌, take, bytes_eq, map,
}
use mathlib.Core.List.{reverse}
use s2g.Mac.Eth
use s2g.Mac.Filter.Policy.{ethertype_ident}

pub record IdentConfig : Type 0 where
  pub callsign : Option (List ℕ)
  pub info : List ℕ
  pub interval_us : ℕ
  pub end_idle_us : ℕ

abbrev pub default_ident : IdentConfig
default_ident = record {
  callsign = none;
  info = [];
  interval_us = 600000000;
  end_idle_us = 30000000;
}

-- The white space of `trim`.
unfoldable pub is_white_space : ℕ → Bool
is_white_space c =
    (leb 9 c && leb c 13)
    || c == 0x20
    || c == 0x85
    || c == 0xA0
    || c == 0x1680
    || (leb 0x2000 c && leb c 0x200A)
    || c == 0x2028
    || c == 0x2029
    || c == 0x202F
    || c == 0x205F
    || c == 0x3000

unfoldable pub trim_start : List ℕ → List ℕ
trim_start [] = []
trim_start (c ∷ cs) = if is_white_space c then trim_start cs else c ∷ cs

unfoldable pub trim : List ℕ → List ℕ
trim text = reverse (trim_start (reverse (trim_start text)))

unfoldable pub to_ascii_uppercase : ℕ → ℕ
to_ascii_uppercase c = if leb b'a' c && leb c b'z' then c - 32 else c

-- `is_ascii` and no control character
unfoldable pub is_printable : ℕ → Bool
is_printable c = leb 32 c && ltb c 127

unfoldable pub keep_printable : List ℕ → List ℕ
keep_printable [] = []
keep_printable (c ∷ cs) = if is_printable c then c ∷ keep_printable cs else keep_printable cs

abbrev pub prefix : List ℕ
prefix = b'D' ∷ b'E' ∷ b' ' ∷ []

abbrev pub with_info : List ℕ → List ℕ
with_info [] = []
with_info (c ∷ cs) = b' ' ∷ c ∷ cs

unfoldable pub ident_text : List ℕ → List ℕ → List ℕ
ident_text call info' =
    keep_printable (prefix ++ (map to_ascii_uppercase (trim call) ++ with_info (trim info')))

unfoldable pub ident_body : List ℕ → List ℕ → List ℕ
ident_body call info' = Eth.to_body ethertype_ident (ident_text call info')

unfoldable pub parse_ident : List ℕ → Option (List ℕ)
parse_ident body = elim (Eth.split_body body) [
  | none ↦ none
  | some p ↦
      if not (p.0 == ethertype_ident)
      then none
      else if bytes_eq (take 3 p.1) prefix
      then some p.1
      else none
]
