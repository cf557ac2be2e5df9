-- ===== src/Mac/Filter.antt =====
-- crates/s2g-mac/src/filter.rs: the stateless frame filter. The source's functions call one another
-- in a fixed order at one depth, and again only one tunnel deeper: each takes those deeper calls as
-- an argument, and `run` ties the knot on fuel.
pub mod Policy
pub mod Headers
pub mod Esp
pub mod Total
pub mod Monotone
pub mod Ports
mod Tests
use s2g.Base.{
  ℕ, zero, suc, ◌+◌, ◌-◌, ◌*◌, ◌/◌, ◌%◌, List, [], ◌∷◌, Bool, true, false, Option, none, some, ◌==◌,
  ◌&&◌, ◌||◌, not, ltb, leb, if◌then◌else◌, bit_and, get_or, length, drop, slice, from_be16,
}
use s2g.Mac.Filter.Policy.{
  FilterConfig, Verdict, pass, dropped, unfinished, Reason, runt_frame, ipv4_in_ipv6,
  ethertype_reason, malformed_ipv6, malformed_ipv4, scope, truncated_extension, too_deep,
  truncated_icmpv6, router_solicitation, router_advertisement, redirect, mld,
  multicast_router_discovery, truncated_transport, port_blocked, dhcpv6, discovery, truncated_gre,
  truncated_esp, encrypted_esp, contains, discovery_port, scope_ok, ethertype_ident, ethertype_ipv6,
  ethertype_ipv4, max_depth,
}
use s2g.Mac.Filter.Headers.{Walk, truncated, fragment, transport_at, lost, walk}
use s2g.Mac.Filter.Esp.{esp_inner, icv_lengths}

-- The functions that are called again for the inside of a tunnel, with their arguments.
pub data Call : Type 0 where
  frame : List ℕ → Bool → Call
  ethertype : ℕ → List ℕ → Bool → Call
  ipv6 : List ℕ → Bool → Call
  transport : ℕ → List ℕ → Call
  ipv4 : List ℕ → Call

unfoldable pub check_icmpv6 : FilterConfig → List ℕ → Verdict
check_icmpv6 cfg [] = dropped truncated_icmpv6
check_icmpv6 cfg (ty ∷ rest) =
    if ty == 133 && not cfg.allow_router_discovery
    then dropped router_solicitation
    else if ty == 134 && not cfg.allow_router_discovery
    then dropped router_advertisement
    else if ty == 137 && not cfg.allow_router_discovery
    then dropped redirect
    else if (ty == 130 || ty == 131 || ty == 132 || ty == 143) && not cfg.allow_mld
    then dropped mld
    else if (leb 151 ty && leb ty 153) && not cfg.allow_mld
    then dropped multicast_router_discovery
    else pass

-- The rules on ports, up to the look into VXLAN: the reason to drop, if there is one.
unfoldable pub port_rules : FilterConfig → Bool → ℕ → ℕ → Option Reason
port_rules cfg udp src dst =
    if contains cfg.blocked_ports src
    then some (port_blocked src)
    else if contains cfg.blocked_ports dst
    then some (port_blocked dst)
    else if (not cfg.allow_dhcpv6 && udp) && (dst == 546 || dst == 547 || src == 546 || src == 547)
    then some dhcpv6
    else if not cfg.allow_discovery && discovery_port udp src
    then some (discovery udp src)
    else if not cfg.allow_discovery && discovery_port udp dst
    then some (discovery udp dst)
    else none

-- `again` is the filter one tunnel deeper.
module _ (again : Call → Verdict) (cfg : FilterConfig) (depth : ℕ) where
  unfoldable pub check_ports : ℕ → List ℕ → Verdict
  check_ports proto data' =
      if ltb (length data') 4
      then dropped truncated_transport
      else (let src = from_be16 (get_or data' 0 0) (get_or data' 1 0) in
          let dst = from_be16 (get_or data' 2 0) (get_or data' 3 0) in
          let udp = proto == 17 in
          elim (port_rules cfg udp src dst) [
            | some r ↦ dropped r
            | none ↦
                if (udp && dst == 4789) && leb (16 + 14) (length data')
                then (if leb max_depth depth
                    then dropped too_deep
                    else again (frame (drop 16 data') true))
                else pass
          ])

  unfoldable pub check_gre : List ℕ → Verdict
  check_gre gre =
      if ltb (length gre) 4
      then dropped truncated_gre
      else if leb max_depth depth
      then dropped too_deep
      else (let flags = get_or gre 0 0 in
          let proto = from_be16 (get_or gre 2 0) (get_or gre 3 0) in
          let checksum = if bit_and flags 0x80 == 0 then 0 else 4 in
          let key = if bit_and flags 0x20 == 0 then 0 else 4 in
          let sequence = if bit_and flags 0x10 == 0 then 0 else 4 in
          let inner = drop (4 + checksum + key + sequence) gre in
          if proto == 0x6558 then again (frame inner true) else again (ethertype proto inner true))

  unfoldable pub check_esp : List ℕ → Verdict
  check_esp esp =
      if cfg.allow_esp
      then pass
      else if ltb (length esp) (8 + 2)
      then dropped truncated_esp
      else if leb max_depth depth
      then dropped too_deep
      else (elim (esp_inner esp icv_lengths) [
        | none ↦ dropped encrypted_esp
        | some (nh, inner) ↦ if nh == 59 then pass else again (transport nh inner)
      ])

  unfoldable pub check_ipv4 : List ℕ → Verdict
  check_ipv4 ip =
      if ltb (length ip) 20 || not (get_or ip 0 0 / 16 == 4)
      then dropped malformed_ipv4
      else (let ihl = bit_and (get_or ip 0 0) 0x0f * 4 in
          let proto = get_or ip 9 0 in
          let frag_off = bit_and (from_be16 (get_or ip 6 0) (get_or ip 7 0)) 0x1fff in
          let rest = drop ihl ip in
          if not (frag_off == 0)
          then pass
          else if proto == 6 || proto == 17
          then check_ports proto rest
          else if proto == 47
          then check_gre rest
          else if proto == 50
          then check_esp rest
          else pass)

  unfoldable pub check_transport : ℕ → List ℕ → Verdict
  check_transport nh data' =
      if nh == 4
      then (if cfg.allow_ipv4 then again (ipv4 data') else dropped ipv4_in_ipv6)
      else if nh == 41
      then (if leb max_depth depth then dropped too_deep else again (ipv6 data' true))
      else if nh == 47
      then check_gre data'
      else if nh == 50
      then check_esp data'
      else if nh == 58
      then check_icmpv6 cfg data'
      else if nh == 6 || nh == 17
      then check_ports nh data'
      else pass

  unfoldable pub check_ipv6 : List ℕ → Bool → Verdict
  check_ipv6 ip global_ok =
      if ltb (length ip) 40 || not (get_or ip 0 0 / 16 == 6)
      then dropped malformed_ipv6
      else if not global_ok && not (scope_ok (slice ip 24 40))
      then dropped scope
      else (elim (walk (length ip) ip (get_or ip 6 0) 40) [
        | truncated ↦ dropped truncated_extension
        | fragment ↦ pass
        | transport_at nh pos ↦ check_transport nh (drop pos ip)
        | lost ↦ unfinished
      ])

  unfoldable pub check_ethertype : ℕ → List ℕ → Bool → Verdict
  check_ethertype t payload global_ok =
      if t == ethertype_ident
      then pass
      else if t == ethertype_ipv6
      then check_ipv6 payload global_ok
      else if t == ethertype_ipv4 || t == 0x0806 || t == 0x8035
      then (if not cfg.allow_ipv4
          then dropped (if ltb 0 depth then ipv4_in_ipv6 else ethertype_reason t)
          else if t == ethertype_ipv4
          then check_ipv4 payload
          else pass)
      else if cfg.allow_other_ethertypes
      then pass
      else dropped (ethertype_reason t)

  unfoldable pub check_frame : List ℕ → Bool → Verdict
  check_frame f global_ok =
      if ltb (length f) 14
      then dropped runt_frame
      else check_ethertype (from_be16 (get_or f 12 0) (get_or f 13 0)) (drop 14 f) global_ok

  unfoldable pub check_call : Call → Verdict
  check_call (frame f g) = check_frame f g
  check_call (ethertype t p g) = check_ethertype t p g
  check_call (ipv6 ip g) = check_ipv6 ip g
  check_call (transport nh d) = check_transport nh d
  check_call (ipv4 ip) = check_ipv4 ip

-- The filter from a depth on, with as many levels as there is fuel.
unfoldable pub run : ℕ → FilterConfig → ℕ → Call → Verdict
run zero cfg depth call = unfinished
run (suc fuel) cfg depth call = check_call (run fuel cfg (depth + 1)) cfg depth call

-- Tunnels nest to `max_depth` at most, and an IPv4 packet may stand inside the last.
unfoldable pub check : FilterConfig → List ℕ → Verdict
check cfg f = run 5 cfg 0 (frame f cfg.allow_global_dst)
