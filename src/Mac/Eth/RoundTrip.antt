-- ===== src/Mac/Eth/RoundTrip.antt =====
-- eth.rs: the conversions, there and back.
use s2g.Base.{
  ℕ, ◌<◌, ◌≡◌, ◌↔◌, List, [], ◌∷◌, none, some, arith, Option-cases, inl, inr, subst, sym, ◌∙◌, refl,
  ◌++◌, be16, AreBytes, bytes_eq,
}
use s2g.Mac.Addr.{MacAddr, octets}
use s2g.Mac.Eth.{Ethernet, parse_ethernet, to_body, split_body, body_to_ethernet}

-- `split_body` reads back what `to_body` wrote, and accepts nothing else.
pub split_body-to_body :
    (ethertype : ℕ) (payload : List ℕ)
    → ethertype < 65536
    → split_body (to_body ethertype payload) ≡ some (ethertype, payload)
unfolding split_body to_body bytes_eq
split_body-to_body ethertype payload h = ground arith

split_body_inverse :
    (body : List ℕ) (ethertype : ℕ) (payload : List ℕ)
    → AreBytes body
    → split_body body ≡ some (ethertype, payload)
    → body ≡ to_body ethertype payload
unfolding split_body to_body bytes_eq
split_body_inverse (a ∷ b ∷ c ∷ d ∷ e ∷ f ∷ g ∷ h ∷ rest) ethertype payload bytes eq = ground arith
split_body_inverse [] ethertype payload bytes eq = ground arith
split_body_inverse _ ethertype payload bytes eq = ground arith

-- From the host to the air and back to a host: for a frame of bytes that `parse_ethernet` splits,
-- the frame that is rebuilt from the addresses and the body is that frame.
pub body_to_ethernet-parse :
    (frame : List ℕ) (e : Ethernet)
    → AreBytes frame
    → parse_ethernet frame ≡ some e
    → body_to_ethernet e.dest e.src (to_body e.ethertype e.payload) ≡ some frame
unfolding body_to_ethernet parse_ethernet
body_to_ethernet-parse (a ∷ b ∷ c ∷ d ∷ f ∷ g ∷ h ∷ i ∷ j ∷ k ∷ l ∷ m ∷ n ∷ o ∷ rest) e bytes eq =
    ground (arith, split_body-to_body e.ethertype e.payload)
body_to_ethernet-parse [] e bytes eq = ground arith
body_to_ethernet-parse _ e bytes eq = ground arith

-- The frame that is rebuilt is split into what it was made of.
parse_ethernet-octets :
    (dest src : MacAddr) (ethertype : ℕ) (payload : List ℕ)
    → ethertype < 65536
    → parse_ethernet (octets dest ++ (octets src ++ (be16 ethertype ++ payload)))
      ≡ some (record { dest = dest; src = src; ethertype = ethertype; payload = payload })
unfolding parse_ethernet
parse_ethernet-octets dest src ethertype payload h = ground arith

split_body_lt :
    (body : List ℕ) (ethertype : ℕ) (payload : List ℕ)
    → AreBytes body
    → split_body body ≡ some (ethertype, payload)
    → ethertype < 65536
unfolding split_body bytes_eq
split_body_lt (a ∷ b ∷ c ∷ d ∷ e ∷ f ∷ g ∷ h ∷ rest) ethertype payload bytes eq = ground arith
split_body_lt [] ethertype payload bytes eq = ground arith
split_body_lt _ ethertype payload bytes eq = ground arith

body_to_ethernet-split_body :
    (dest src : MacAddr) (body : List ℕ) (ethertype : ℕ) (payload : List ℕ)
    → split_body body ≡ some (ethertype, payload)
    → body_to_ethernet dest src body
      ≡ some (octets dest ++ (octets src ++ (be16 ethertype ++ payload)))
unfolding body_to_ethernet
body_to_ethernet-split_body dest src body ethertype payload e = rw (e, body_to_ethernet) refl

body_to_ethernet_refused :
    (dest src : MacAddr) (body : List ℕ)
    → split_body body ≡ none
    → body_to_ethernet dest src body ≡ none
unfolding body_to_ethernet
body_to_ethernet_refused dest src body e = rw (e, body_to_ethernet) refl

some_injective {ℓ} : {A : Type ℓ} {x y : A} → some x ≡ some y → x ≡ y
some_injective e = cc

-- A frame is rebuilt from a body of bytes exactly when splitting that frame gives the addresses that
-- were asked for and the EtherType and payload of which the body is made: no other body is accepted,
-- and nothing of an accepted one is lost.
pub body_to_ethernet_iff :
    (dest src : MacAddr) (body frame : List ℕ)
    → AreBytes body
    → AreBytes frame
    → (body_to_ethernet dest src body ≡ some frame) ↔ (
        (e : Ethernet) × (parse_ethernet frame ≡ some e)
        × (e.dest ≡ dest)
        × (e.src ≡ src)
        × (to_body e.ethertype e.payload ≡ body))
body_to_ethernet_iff dest src body frame b b' = (
  λ h. elim (Option-cases (split_body body)) [
    | inl e ↦ absurd (ground (arith, body_to_ethernet_refused dest src body e, h))
    | inr ((t, payload), e) ↦
        let same =
          some_injective (sym (body_to_ethernet-split_body dest src body t payload e) ∙ h) in
        (
          record { dest = dest; src = src; ethertype = t; payload = payload },
          subst
              (λ (f : List ℕ).
                parse_ethernet f
                ≡ some (record { dest = dest; src = src; ethertype = t; payload = payload }))
              same (parse_ethernet-octets dest src t payload (split_body_lt body t payload b e)),
          refl,
          refl,
          sym (split_body_inverse body t payload b e),
        )
  ],
  λ (e, p, d, s, w). (let back = body_to_ethernet-parse frame e b' p in cc),
)
