-- ===== src/Mac/Frame/Errors.antt =====
-- When `parse` fails, and with which error.
use s2g.Base.{
  ℕ, ◌<◌, ◌≡◌, ◌≢◌, ◌↔◌, inl, inr, List, ◌∷◌, ◌++◌, Bool, true, false, none, arith, length,
  Option-cases, AreBytes, le32, if◌then◌else◌, ◌∙◌,
}
use s2g.Mac.Fcs
use s2g.Mac.Fcs.Detect.{corrupt_byte_refused}
use s2g.Mac.Frame.RoundTrip.{parse-append}
use s2g.Mac.Frame.{parse_inner, parse}
use s2g.Mac.Frame.Pv1.{
  too_short, bad_fcs, Result, ok, err, parse_pv1, take_mac, take_sid, take_seq, take_optional,
  take_addresses, ◌>>=◌,
}

-- A header that is cut short is never reported as a bad FCS.
bind-ne-bad {ℓ κ} :
    {A : Type ℓ} {B : Type κ} (m : Result A) (k : A → Result B)
    → m ≢ err bad_fcs
    → ((a : A) → k a ≢ err bad_fcs)
    → (m >>= k) ≢ err bad_fcs
bind-ne-bad (ok a) k hm hk = hk a
bind-ne-bad (err e) k hm hk = λ p. hm (cc)

if-ne-bad {ℓ} :
    {A : Type ℓ} (b : Bool) (x y : Result A)
    → x ≢ err bad_fcs
    → y ≢ err bad_fcs
    → (if b then x else y) ≢ err bad_fcs
if-ne-bad true x y hx hy = hx
if-ne-bad false x y hx hy = hy

mac-ne-bad : (inner : List ℕ) (pos : ℕ) → take_mac inner pos ≢ err bad_fcs
unfolding take_mac
mac-ne-bad inner pos e = ground arith

sid-ne-bad : (inner : List ℕ) (pos : ℕ) → take_sid inner pos ≢ err bad_fcs
unfolding take_sid
sid-ne-bad inner pos e = ground arith

seq-ne-bad : (inner : List ℕ) (t s pos : ℕ) → take_seq inner t s pos ≢ err bad_fcs
unfolding take_seq
seq-ne-bad inner t s pos e = ground arith

optional-ne-bad : (b : Bool) (inner : List ℕ) (pos : ℕ) → take_optional b inner pos ≢ err bad_fcs
unfolding take_optional
optional-ne-bad b inner pos e = ground arith

addresses-ne-bad : (inner : List ℕ) (t : ℕ) (b : Bool) → take_addresses inner t b ≢ err bad_fcs
unfolding take_addresses
addresses-ne-bad inner t b e = ground arith

pub parse_pv1-ne-bad : (inner : List ℕ) → parse_pv1 inner ≢ err bad_fcs
unfolding parse_pv1
parse_pv1-ne-bad inner =
    if-ne-bad _ _ _
      (bind-ne-bad (take_addresses inner _ _) _ (addresses-ne-bad inner _ _) λ p.
        bind-ne-bad (take_seq inner _ _ p.2) _ (seq-ne-bad inner _ _ p.2) λ q.
          bind-ne-bad (take_optional _ inner q.1) _ (optional-ne-bad _ inner q.1)
            λ r. bind-ne-bad (take_optional _ inner r.1) _ (optional-ne-bad _ inner r.1) λ s e. cc)
      (bind-ne-bad (take_sid inner 2) _ (sid-ne-bad inner 2) λ p e. cc)

pub parse_inner-ne-bad : (inner : List ℕ) → parse_inner inner ≢ err bad_fcs
unfolding parse_inner
parse_inner-ne-bad inner e = ground (arith, parse_pv1-ne-bad inner)

-- `parse` reports a bad FCS exactly when the FCS check refuses the MPDU.
pub parse_bad_fcs_iff :
    (mpdu : List ℕ) → (parse mpdu ≡ err bad_fcs) ↔ (Fcs.check_and_strip mpdu ≡ none)
unfolding parse
parse_bad_fcs_iff mpdu = elim (Option-cases (Fcs.check_and_strip mpdu)) [
  | inl e ↦ ((λ _. e), (λ _. rw (e, parse)))
  | inr (inner, e) ↦
      ((λ p. absurd (parse_inner-ne-bad inner (rw (e, parse) at p))), (λ n. absurd (ground arith)))
]

-- A frame with one byte changed on the way is reported as a bad FCS, whatever the frame.
pub parse_corrupt_byte :
    (before after : List ℕ) (x y : ℕ)
    → AreBytes before
    → AreBytes after
    → x < 256
    → y < 256
    → x ≢ y
    → parse ((before ++ (y ∷ after)) ++ le32 (Fcs.crc32 (before ++ (x ∷ after)))) ≡ err bad_fcs
parse_corrupt_byte before after x y hb ha hx hy ne =
    (parse_bad_fcs_iff _).1 (corrupt_byte_refused before after x y hb ha hx hy ne)

-- A valid FCS over fewer than ten bytes is a frame that is too short.
pub parse_too_short :
    (inner : List ℕ) → length inner < 10 → parse (Fcs.append inner) ≡ err too_short
unfolding parse_inner
parse_too_short inner h = parse-append inner ∙ ground arith
