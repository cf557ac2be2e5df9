-- ===== src/Mac/Filter/Esp.antt =====
-- crates/s2g-mac/src/filter.rs: the heuristic that recognizes ESP-NULL.
use s2g.Base.{
  ℕ, ◌+◌, ◌-◌, ◌/◌, List, [], ◌∷◌, Bool, true, Option, none, some, ◌==◌, ◌&&◌, not, ltb, leb,
  if◌then◌else◌, length, get_or, from_be16, slice,
}

abbrev pub icv_lengths : List ℕ
icv_lengths = 12 ∷ 16 ∷ 24 ∷ 32 ∷ 0 ∷ []

-- RFC 4303 default padding: 1, 2, 3, …
unfoldable pub default_padding : ℕ → List ℕ → Bool
default_padding i [] = true
default_padding i (b ∷ bs) = b == i + 1 && default_padding (i + 1) bs

-- Whether the payload looks like what the next-header value says.
unfoldable pub plausible : ℕ → List ℕ → Bool
plausible nh inner =
    if nh == 41
    then (leb 40 (length inner) && get_or inner 0 0 / 16 == 6)
      && leb (from_be16 (get_or inner 4 0) (get_or inner 5 0)) (length inner - 40)
    else if nh == 4
    then leb 20 (length inner) && get_or inner 0 0 / 16 == 4
    else if nh == 6
    then leb 20 (length inner) && leb 5 (get_or inner 12 0 / 16)
    else if nh == 17
    then leb 8 (length inner) && from_be16 (get_or inner 4 0) (get_or inner 5 0) == length inner
    else if nh == 58
    then leb 4 (length inner)
    else nh == 59

-- One round of the loop: the next header and the payload for one ICV length.
unfoldable pub esp_try : List ℕ → ℕ → Option (ℕ × List ℕ)
unfolding default_padding plausible
esp_try esp icv =
    if ltb (length esp) (8 + 2 + icv)
    then none
    else (let trailer_end = length esp - icv in
        let nh = get_or esp (trailer_end - 1) 0 in
        let pad_len = get_or esp (trailer_end - 2) 0 in
        if ltb trailer_end (8 + pad_len + 2)
        then none
        else if not (default_padding 0 (slice esp (trailer_end - 2 - pad_len) (trailer_end - 2)))
        then none
        else (let inner = slice esp 8 (trailer_end - 2 - pad_len) in
            if plausible nh inner then some (nh, inner) else none))

unfoldable pub esp_inner : List ℕ → List ℕ → Option (ℕ × List ℕ)
unfolding esp_try
esp_inner esp [] = none
esp_inner esp (icv ∷ icvs) =
    let later = esp_inner esp icvs in
    elim (esp_try esp icv) [ some found ↦ some found | none ↦ later ]
