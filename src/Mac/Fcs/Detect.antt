-- ===== src/Mac/Fcs/Detect.antt =====
-- What `append` and `check_and_strip` promise: the round trip, and the corruptions that are caught.
use s2g.Base.{
  ℕ, ◌+◌, ◌-◌, ◌^◌, ◌<◌, ◌≡◌, refl, sym, ap, ◌∙◌, ◌≢◌, ◌↔◌, inl, inr, List, [], ◌∷◌, ◌++◌, none,
  some, arith, AreBytes, le32, length, length-append, take, drop, take-append, drop-append,
  take-append-drop, bytes_eq, bytes_eq_refl, bytes_eq→eq, Bool-cases, if◌then◌else◌, get_or,
  Option-cases,
}
use s2g.Mac.Fcs.{crc_byte, crc_loop, crc32, append, check_and_strip}
use s2g.Mac.Fcs.Words.{crc_loop-lt, crc_byte-lt, crc_loop_injective, crc_byte_injective, crc32-lt}

length-trailer : (body : List ℕ) (v : ℕ) → length (body ++ le32 v) ≡ length body + 4
length-trailer body v = length-append body (le32 v)

-- `check_and_strip` on any body and any four FCS bytes.
pub check-trailer :
    (body : List ℕ) (v : ℕ)
    → check_and_strip (body ++ le32 v)
      ≡ (if bytes_eq (le32 (crc32 body)) (le32 v) then some body else none)
unfolding check_and_strip
check-trailer body v = ground (
  arith,
  length-trailer body v,
  take-append (length (body ++ le32 v) - 4) body (le32 v),
  drop-append (length (body ++ le32 v) - 4) body (le32 v),
)

-- `check_and_strip` returns a body exactly on the frame that `append` makes from it.
pub check_and_strip_iff :
    (frame body : List ℕ) → (check_and_strip frame ≡ some body) ↔ (frame ≡ append body)
unfolding check_and_strip append
check_and_strip_iff frame body = (
  λ h. ground (
    arith,
    take-append-drop (length frame - 4) frame,
    bytes_eq→eq (le32 (crc32 (take (length frame - 4) frame))) (drop (length frame - 4) frame),
  ),
  λ e. rw (e, check-trailer body (crc32 body), bytes_eq_refl (le32 (crc32 body))),
)

-- A frame of fewer than four bytes, and any frame that `append` did not make, is refused.
pub check_and_strip-none :
    (frame : List ℕ) → ((body : List ℕ) → frame ≢ append body) → check_and_strip frame ≡ none
check_and_strip-none frame h = elim (Option-cases (check_and_strip frame)) [
  | inl e ↦ e
  | inr (body, e) ↦ absurd (h body ((check_and_strip_iff frame body).0 e))
]

crc_loop-append :
    (xs ys : List ℕ) (crc : ℕ) → crc_loop crc (xs ++ ys) ≡ crc_loop (crc_loop crc xs) ys
unfolding crc_loop
crc_loop-append [] ys crc = refl
crc_loop-append (x ∷ xs) ys crc = crc_loop-append xs ys (crc_byte crc x)

le32_injective : (a b : ℕ) → a < 2 ^ 32 → b < 2 ^ 32 → le32 a ≡ le32 b → a ≡ b
le32_injective a b ha hb e = omega (
  arith,
  ap (λ (l : List ℕ). get_or l 0 0) e,
  ap (λ (l : List ℕ). get_or l 1 0) e,
  ap (λ (l : List ℕ). get_or l 2 0) e,
  ap (λ (l : List ℕ). get_or l 3 0) e,
)

module _ (before after : List ℕ) (x y : ℕ) (hb : AreBytes before) (ha : AreBytes after)
    (hx : x < 256) (hy : y < 256) where
  register-lt : crc_loop 0xFFFFFFFF before < 2 ^ 32
  register-lt = crc_loop-lt before 0xFFFFFFFF (omega arith) hb

  crc32_one_byte : crc32 (before ++ (y ∷ after)) ≡ crc32 (before ++ (x ∷ after)) → y ≡ x
  unfolding crc32 crc_loop
  crc32_one_byte e =
      let reg : ℕ = crc_loop 0xFFFFFFFF before in
      crc_byte_injective reg y x register-lt hy hx (
        crc_loop_injective after (crc_byte reg y) (crc_byte reg x)
          (crc_byte-lt reg y register-lt hy) (crc_byte-lt reg x register-lt hx) ha
          (omega (
            arith,
            e,
            crc_loop-append before (y ∷ after) 0xFFFFFFFF,
            crc_loop-append before (x ∷ after) 0xFFFFFFFF,
            crc_loop-lt after (crc_byte reg y) (crc_byte-lt reg y register-lt hy) ha,
            crc_loop-lt after (crc_byte reg x) (crc_byte-lt reg x register-lt hx) ha,
          )))

  -- A frame of bytes in which one byte of the body was replaced by another byte, with the FCS of
  -- the body as it was sent, is refused.
  pub corrupt_byte_refused :
      x ≢ y
      → check_and_strip ((before ++ (y ∷ after)) ++ le32 (crc32 (before ++ (x ∷ after)))) ≡ none
  corrupt_byte_refused ne =
      let sent : ℕ = crc32 (before ++ (x ∷ after)) in
      let found : ℕ = crc32 (before ++ (y ∷ after)) in
      elim (Bool-cases (bytes_eq (le32 found) (le32 sent))) [
        | inl same ↦ absurd (
            ne (
              sym (
                crc32_one_byte (
                  le32_injective found sent (crc32-lt (before ++ (y ∷ after)))
                    (crc32-lt (before ++ (x ∷ after)))
                    (bytes_eq→eq (le32 found) (le32 sent) same)))))
        | inr differ ↦ check-trailer (before ++ (y ∷ after)) sent ∙ rw differ
      ]
