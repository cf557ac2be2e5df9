-- ===== src/Mac/Filter/Ports.antt =====
-- What the filter does with a plain packet: no tunnel, no extension header.
use s2g.Base.{
  ℕ, zero, suc, ◌/◌, ◌≤◌, ◌<◌, ◌≡◌, ◌≢◌, ◌↔◌, ◌⊎◌, List, Bool, true, false, none, arith, length,
  length-drop, drop, get_or, slice, from_be16, ◌==◌, sym, ◌∙◌,
}
use s2g.Mac.Filter.Policy.{FilterConfig, Verdict, pass, scope_ok, contains, discovery_port}
use s2g.Mac.Filter.Headers.{transport_at, walk, is_extension}
use s2g.Mac.Filter.{
  Call, port_rules, check_ports, check_transport, check_ipv6, check_ethertype, check_frame,
  check_call, run, check,
}

-- A frame that carries an IPv6 packet whose first header is the transport header.
pub record IsPlainIpv6 (f : List ℕ) : Type 0 where
  pub long : 58 ≤ length f
  pub ether : from_be16 (get_or f 12 0) (get_or f 13 0) ≡ 0x86DD
  pub version : get_or (drop 14 f) 0 0 / 16 ≡ 6

-- The source and destination ports behind an IPv6 header.
abbrev pub src_port : List ℕ → ℕ
src_port f = from_be16 (get_or (drop 40 (drop 14 f)) 0 0) (get_or (drop 40 (drop 14 f)) 1 0)

abbrev pub dst_port : List ℕ → ℕ
dst_port f = from_be16 (get_or (drop 40 (drop 14 f)) 2 0) (get_or (drop 40 (drop 14 f)) 3 0)

abbrev pub next_header : List ℕ → ℕ
next_header f = get_or (drop 14 f) 6 0

-- What the port rules ask of a packet.
pub record IsAllowed (cfg : FilterConfig) (udp : Bool) (src dst : ℕ) : Type 0 where
  pub src_open : contains cfg.blocked_ports src ≡ false
  pub dst_open : contains cfg.blocked_ports dst ≡ false
  pub no_dhcpv6 :
      cfg.allow_dhcpv6 ≡ false → udp ≡ true → (src ≢ 546) × (src ≢ 547) × (dst ≢ 546) × (dst ≢ 547)
  pub no_discovery :
      cfg.allow_discovery ≡ false
      → (discovery_port udp src ≡ false) × (discovery_port udp dst ≡ false)

port_rules_iff :
    (cfg : FilterConfig) (udp : Bool) (src dst : ℕ)
    → (port_rules cfg udp src dst ≡ none) ↔ IsAllowed cfg udp src dst
unfolding port_rules
port_rules_iff cfg udp src dst = (
  λ e. record {
    src_open = ground arith;
    dst_open = ground arith;
    no_dhcpv6 = λ a b. (ground arith, ground arith, ground arith, ground arith);
    no_discovery = λ a. (ground arith, ground arith);
  },
  λ a. ground (arith, a.src_open, a.dst_open, a.no_dhcpv6, a.no_discovery),
)

-- The walk stops at once at a UDP or TCP header.
walk_plain :
    (fuel : ℕ) (ip : List ℕ) (nh pos : ℕ)
    → 0 < fuel
    → (nh ≡ 6) ⊎ (nh ≡ 17)
    → walk fuel ip nh pos ≡ transport_at nh pos
unfolding walk is_extension
walk_plain zero ip nh pos some_fuel h = absurd (omega arith)
walk_plain (suc fuel) ip nh pos some_fuel h = ground arith

module _ (again : Call → Verdict) (cfg : FilterConfig) where
  ports_plain :
      (nh : ℕ) (d : List ℕ)
      → 4 ≤ length d
      → (nh ≡ 17 → from_be16 (get_or d 2 0) (get_or d 3 0) ≢ 4789)
      → (check_ports again cfg 0 nh d ≡ pass) ↔ (
          port_rules cfg
            (nh == 17)
            (from_be16 (get_or d 0 0) (get_or d 1 0))
            (from_be16 (get_or d 2 0) (get_or d 3 0))
          ≡ none)
  unfolding check_ports
  ports_plain nh d long no_vxlan = (λ e. ground arith, λ e. ground arith)

  frame_plain :
      (f : List ℕ) (g : Bool)
      → IsPlainIpv6 f
      → (next_header f ≡ 6) ⊎ (next_header f ≡ 17)
      → (g ≡ true) ⊎ (scope_ok (slice (drop 14 f) 24 40) ≡ true)
      → check_frame again cfg 0 f g ≡ check_ports again cfg 0 (next_header f) (drop 40 (drop 14 f))
  unfolding check_frame check_ethertype check_ipv6 check_transport
  frame_plain f g p either scoped =
      let ip : List ℕ = drop 14 f in
      rw
        (walk_plain (length ip) ip (next_header f) 40 (omega (arith, length-drop 14 f, p.long))
          either)
        (ground (arith, p.long, p.ether, p.version, length-drop 14 f))

-- A UDP or TCP packet directly behind the IPv6 header, no VXLAN, whose destination is in scope or
-- may be global, passes exactly when its ports are allowed.
pub check_plain_iff :
    (cfg : FilterConfig) (f : List ℕ)
    → IsPlainIpv6 f
    → (next_header f ≡ 6) ⊎ (next_header f ≡ 17)
    → (next_header f ≡ 17 → dst_port f ≢ 4789)
    → (cfg.allow_global_dst ≡ true) ⊎ (scope_ok (slice (drop 14 f) 24 40) ≡ true)
    → (check cfg f ≡ pass) ↔ IsAllowed cfg (next_header f == 17) (src_port f) (dst_port f)
unfolding check run check_call
check_plain_iff cfg f p either no_vxlan scoped =
    let rules = port_rules_iff cfg (next_header f == 17) (src_port f) (dst_port f) in
    let same = frame_plain (run 4 cfg 1) cfg f cfg.allow_global_dst p either scoped in
    let here =
      ports_plain (run 4 cfg 1) cfg (next_header f) (drop 40 (drop 14 f))
        (omega (arith, length-drop 40 (drop 14 f), length-drop 14 f, p.long)) no_vxlan in
    (λ e. rules.0 (here.0 (sym same ∙ e)), λ a. same ∙ here.1 (rules.1 a))
