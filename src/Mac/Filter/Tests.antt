-- ===== src/Mac/Filter/Tests.antt =====
-- Frames of filter.rs's kinds, and its theorems at them.
use s2g.Base.{ℕ, ◌≡◌, ◌≢◌, ◌↔◌, inl, inr, List, [], ◌∷◌, ◌++◌, false, replicate, refl, arith}
use s2g.Mac.Filter.Policy.{
  pass, dropped, unfinished, good_neighbor, off, contains, port_blocked, ethertype_reason, too_deep,
  scope_ok, discovery_port,
}
use s2g.Mac.Filter.{
  check, run, check_call, check_frame, check_ethertype, check_ipv6, check_transport, check_ports,
  port_rules,
}
use s2g.Mac.Filter.Headers.{walk}
use s2g.Mac.Filter.Total.{check-ne-unfinished}
use s2g.Mac.Filter.Monotone.{IsLooser, check_mono}
use s2g.Mac.Filter.Ports.{IsPlainIpv6, IsAllowed, check_plain_iff, src_port, dst_port}

-- Addresses, EtherType and the first bytes of an IPv6 header.
abbrev ipv6_to : ℕ → List ℕ → List ℕ
ipv6_to nh rest =
    replicate 12 2
    ++ 0x86 ∷ 0xDD ∷ 0x60 ∷ 0 ∷ 0 ∷ 0 ∷ 0 ∷ 8 ∷ nh ∷ 64 ∷ replicate 16 0
    ++ 0xfe ∷ 0x80 ∷ replicate 14 1
    ++ rest

-- Babel: UDP port 6696.
abbrev babel : List ℕ
babel = ipv6_to 17 (26 ∷ 40 ∷ 26 ∷ 40 ∷ 0 ∷ 8 ∷ 0 ∷ 0 ∷ [])

-- TCP from port 50000 to port 22.
abbrev ssh : List ℕ
ssh = ipv6_to 6 (195 ∷ 80 ∷ 0 ∷ 22 ∷ [])

-- IPv6 in IPv6, one packet more than the filter follows.
abbrev nested : List ℕ
nested = ipv6_to 41 (
    0x60 ∷ 0 ∷ 0 ∷ 0 ∷ 0 ∷ 0 ∷ 41 ∷ 64 ∷ replicate 32 0
    ++ 0x60 ∷ 0 ∷ 0 ∷ 0 ∷ 0 ∷ 0 ∷ 41 ∷ 64 ∷ replicate 32 0
    ++ 0x60 ∷ 0 ∷ 0 ∷ 0 ∷ 0 ∷ 0 ∷ 41 ∷ 64 ∷ replicate 32 0)

babel_passes : check good_neighbor babel ≡ pass
unfolding check run check_call check_frame check_ethertype check_ipv6 scope_ok walk check_transport
    check_ports port_rules contains discovery_port
babel_passes = refl

ssh_dropped : check good_neighbor ssh ≡ dropped (port_blocked 22)
unfolding check run check_call check_frame check_ethertype check_ipv6 scope_ok walk check_transport
    check_ports port_rules contains
ssh_dropped = refl

nested_dropped : check good_neighbor nested ≡ dropped too_deep
unfolding check run check_call check_frame check_ethertype check_ipv6 scope_ok walk check_transport
nested_dropped = refl

arp_dropped :
    check good_neighbor (replicate 12 255 ++ 8 ∷ 6 ∷ replicate 28 0)
    ≡ dropped (ethertype_reason 0x0806)
unfolding check run check_call check_frame check_ethertype
arp_dropped = refl

check-ne-unfinished_example : check good_neighbor nested ≢ unfinished
check-ne-unfinished_example = check-ne-unfinished good_neighbor nested

off-IsLooser : IsLooser good_neighbor off
unfolding contains
off-IsLooser = record {
  ipv4_on = λ e. refl;
  global_on = λ e. refl;
  router_on = λ e. refl;
  dhcpv6_on = λ e. refl;
  mld_on = λ e. refl;
  discovery_on = λ e. refl;
  esp_on = λ e. refl;
  others_on = λ e. refl;
  ports_off = λ p e. ground arith;
}

check_mono_example : check off babel ≡ pass
check_mono_example = check_mono good_neighbor off off-IsLooser babel babel_passes

ssh_plain : IsPlainIpv6 ssh
ssh_plain = record { long = omega arith; ether = refl; version = refl }

check_plain_iff_example :
    (check good_neighbor ssh ≡ pass) ↔ IsAllowed good_neighbor false (src_port ssh) (dst_port ssh)
unfolding scope_ok
check_plain_iff_example =
    check_plain_iff good_neighbor ssh ssh_plain (inl refl) (λ e. absurd (omega (arith, e)))
      (inr refl)
