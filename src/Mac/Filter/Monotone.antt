-- ===== src/Mac/Filter/Monotone.antt =====
-- A more permissive policy passes every frame that a stricter one passes.
use s2g.Base.{
  ℕ, zero, suc, ◌+◌, ◌≡◌, inl, inr, List, [], ◌∷◌, Bool, true, none, arith, length, drop, get_or,
  from_be16, bit_and, Option-cases, ◌==◌, refl, ◌*◌,
}
use s2g.Mac.Filter.Policy.{FilterConfig, Verdict, pass, contains}
use s2g.Mac.Filter.Headers.{Walk, truncated, fragment, transport_at, lost, walk}
use s2g.Mac.Filter.Esp.{esp_inner, icv_lengths}
use s2g.Mac.Filter.{
  Call, frame, ethertype, ipv6, transport, ipv4, check_icmpv6, port_rules, check_ports, check_gre,
  check_esp, check_ipv4, check_transport, check_ipv6, check_ethertype, check_frame, check_call, run,
  check,
}

-- `a` on implies `b` on.
abbrev pub Implies : Bool → Bool → Type 0
Implies a b = a ≡ true → b ≡ true

-- Every switch that `strict` sets is set in `loose`, and `loose` blocks no more ports.
pub record IsLooser (strict loose : FilterConfig) : Type 0 where
  pub ipv4_on : Implies strict.allow_ipv4 loose.allow_ipv4
  pub global_on : Implies strict.allow_global_dst loose.allow_global_dst
  pub router_on : Implies strict.allow_router_discovery loose.allow_router_discovery
  pub dhcpv6_on : Implies strict.allow_dhcpv6 loose.allow_dhcpv6
  pub mld_on : Implies strict.allow_mld loose.allow_mld
  pub discovery_on : Implies strict.allow_discovery loose.allow_discovery
  pub esp_on : Implies strict.allow_esp loose.allow_esp
  pub others_on : Implies strict.allow_other_ethertypes loose.allow_other_ethertypes
  pub ports_off :
      (p : ℕ) → contains loose.blocked_ports p ≡ true → contains strict.blocked_ports p ≡ true

module _ (strict loose : FilterConfig) (l : IsLooser strict loose) where
  icmpv6_mono : (d : List ℕ) → check_icmpv6 strict d ≡ pass → check_icmpv6 loose d ≡ pass
  unfolding check_icmpv6
  icmpv6_mono [] e = cc
  icmpv6_mono (ty ∷ rest) e = ground (arith, l.router_on, l.mld_on)

  port_rules_mono :
      (udp : Bool) (src dst : ℕ)
      → port_rules strict udp src dst ≡ none
      → port_rules loose udp src dst ≡ none
  unfolding port_rules
  port_rules_mono udp src dst e =
      ground (arith, l.ports_off src, l.ports_off dst, l.dhcpv6_on, l.discovery_on)

  module _ (again again' : Call → Verdict) (depth : ℕ)
      (deeper : (c : Call) → again c ≡ pass → again' c ≡ pass) where
    ports_mono :
        (proto : ℕ) (d : List ℕ)
        → check_ports again strict depth proto d ≡ pass
        → check_ports again' loose depth proto d ≡ pass
    unfolding check_ports
    ports_mono proto d e = ground (
      arith,
      deeper (frame (drop 16 d) true),
      port_rules_mono (proto == 17) (from_be16 (get_or d 0 0) (get_or d 1 0))
          (from_be16 (get_or d 2 0) (get_or d 3 0)),
    )

    gre_mono :
        (d : List ℕ) → check_gre again strict depth d ≡ pass → check_gre again' loose depth d ≡ pass
    unfolding check_gre
    gre_mono d e = grind (arith, deeper)

    esp_mono :
        (d : List ℕ) → check_esp again strict depth d ≡ pass → check_esp again' loose depth d ≡ pass
    unfolding check_esp
    esp_mono d e = elim (Option-cases (esp_inner d icv_lengths)) [
      | inl none' ↦ ground (arith, l.esp_on)
      | inr ((nh, inner), found) ↦ ground (arith, l.esp_on, deeper (transport nh inner))
    ]

    ipv4_mono :
        (d : List ℕ)
        → check_ipv4 again strict depth d ≡ pass
        → check_ipv4 again' loose depth d ≡ pass
    unfolding check_ipv4
    ipv4_mono d e =
        let rest : List ℕ = drop (bit_and (get_or d 0 0) 0x0f * 4) d in
        ground (arith, ports_mono (get_or d 9 0) rest, gre_mono rest, esp_mono rest)

    transport_mono :
        (nh : ℕ) (d : List ℕ)
        → check_transport again strict depth nh d ≡ pass
        → check_transport again' loose depth nh d ≡ pass
    unfolding check_transport
    transport_mono nh d e = ground (
      arith,
      l.ipv4_on,
      deeper (ipv4 d),
      deeper (ipv6 d true),
      gre_mono d,
      esp_mono d,
      icmpv6_mono d,
      ports_mono nh d,
    )

    ipv6_mono :
        (ip : List ℕ) (g g' : Bool)
        → Implies g g'
        → check_ipv6 again strict depth ip g ≡ pass
        → check_ipv6 again' loose depth ip g' ≡ pass
    unfolding check_ipv6
    ipv6_mono ip g g' gg e = by_walk (walk (length ip) ip (get_or ip 6 0) 40) refl
      where
        by_walk :
            (w : Walk)
            → walk (length ip) ip (get_or ip 6 0) 40 ≡ w
            → check_ipv6 again' loose depth ip g' ≡ pass
        by_walk truncated q = ground arith
        by_walk fragment q = ground arith
        by_walk (transport_at nh pos) q = ground (arith, transport_mono nh (drop pos ip))
        by_walk lost q = ground arith

    ethertype_mono :
        (t : ℕ) (p : List ℕ) (g g' : Bool)
        → Implies g g'
        → check_ethertype again strict depth t p g ≡ pass
        → check_ethertype again' loose depth t p g' ≡ pass
    unfolding check_ethertype
    ethertype_mono t p g g' gg e =
        ground (arith, l.ipv4_on, l.others_on, ipv6_mono p g g' gg, ipv4_mono p)

    frame_mono :
        (f : List ℕ) (g g' : Bool)
        → Implies g g'
        → check_frame again strict depth f g ≡ pass
        → check_frame again' loose depth f g' ≡ pass
    unfolding check_frame
    frame_mono f g g' gg e =
        ground
          (arith, ethertype_mono (from_be16 (get_or f 12 0) (get_or f 13 0)) (drop 14 f) g g' gg)

    call_mono :
        (c : Call) → check_call again strict depth c ≡ pass → check_call again' loose depth c ≡ pass
    unfolding check_call
    call_mono (frame f g) e = frame_mono f g g (λ h. h) e
    call_mono (ethertype t p g) e = ethertype_mono t p g g (λ h. h) e
    call_mono (ipv6 ip g) e = ipv6_mono ip g g (λ h. h) e
    call_mono (transport nh d) e = transport_mono nh d e
    call_mono (ipv4 ip) e = ipv4_mono ip e

  run_mono :
      (fuel depth : ℕ) (c : Call) → run fuel strict depth c ≡ pass → run fuel loose depth c ≡ pass
  unfolding run
  run_mono zero depth c e = cc
  run_mono (suc fuel) depth c e =
      call_mono (run fuel strict (depth + 1)) (run fuel loose (depth + 1)) depth
        (run_mono fuel (depth + 1)) c e

  -- Whatever passes a strict policy passes every looser one: no switch that allows more, and no port
  -- taken off the list, makes the filter drop a frame that it passed before.
  pub check_mono : (f : List ℕ) → check strict f ≡ pass → check loose f ≡ pass
  unfolding check run check_call
  check_mono f e =
      frame_mono (run 4 strict 1) (run 4 loose 1) 0 (run_mono 4 1) f strict.allow_global_dst
        loose.allow_global_dst l.global_on e
