-- ===== src/Mac/Filter/Headers.antt =====
-- crates/s2g-mac/src/filter.rs: the walk over the IPv6 extension headers. Each round moves the
-- cursor by eight bytes at least, so the packet's length bounds the rounds.
use s2g.Base.{
  ℕ, zero, suc, ◌+◌, ◌*◌, ◌/◌, ◌<◌, ◌≢◌, List, Bool, ◌==◌, ◌||◌, ◌&&◌, not, ltb, if◌then◌else◌,
  length, get_or, from_be16, arith,
}

unfoldable pub is_extension : ℕ → Bool
is_extension nh =
    nh == 0 || nh == 43 || nh == 44 || nh == 51 || nh == 60 || nh == 135 || nh == 139 || nh == 140

-- How the walk ends: a header that is cut off, a later fragment, or the transport header.
pub data Walk : Type 0 where
  truncated fragment : Walk
  transport_at : (nh pos : ℕ) → Walk
  lost : Walk

-- The length of the extension header at the cursor, from its second byte.
unfoldable pub header_len : ℕ → ℕ → ℕ
header_len nh len_byte =
    if nh == 44 then 8 else if nh == 51 then (len_byte + 2) * 4 else (len_byte + 1) * 8

unfoldable pub walk : ℕ → List ℕ → ℕ → ℕ → Walk
unfolding is_extension header_len
walk zero ip nh pos = lost
walk (suc fuel) ip nh pos =
    let rest = walk fuel ip (get_or ip pos 0) (pos + header_len nh (get_or ip (pos + 1) 0)) in
    if is_extension nh
    then (if ltb (length ip) (pos + 8)
        then truncated
        else if nh == 44 && not (from_be16 (get_or ip (pos + 2) 0) (get_or ip (pos + 3) 0) / 8 == 0)
        then fragment
        else rest)
    else transport_at nh pos

-- The walk never runs out of rounds.
pub walk-ne-lost :
    (fuel : ℕ) (ip : List ℕ) (nh pos : ℕ)
    → length ip < fuel + pos
    → 0 < fuel
    → walk fuel ip nh pos ≢ lost
unfolding walk
walk-ne-lost zero ip nh pos h p e = absurd (omega arith)
walk-ne-lost (suc zero) ip nh pos h p e = ground arith
walk-ne-lost (suc (suc fuel)) ip nh pos h p e = ground (
  arith,
  walk-ne-lost (suc fuel) ip (get_or ip pos 0) (pos + header_len nh (get_or ip (pos + 1) 0)),
)
