-- ===== src/Mac/Filter/Policy.antt =====
-- crates/s2g-mac/src/filter.rs: the policy, the verdicts and the tables of ports and EtherTypes. A
-- reason is the source's text for it; those that depend on a port or an EtherType carry that.
use s2g.Base.{ℕ, List, [], ◌∷◌, Bool, true, false, ◌==◌, ◌&&◌, ◌||◌, bit_and, get_or}

pub data Reason : Type 0 where
  runt_frame ipv4_in_ipv6 malformed_ipv6 malformed_ipv4 scope truncated_extension too_deep : Reason
  truncated_icmpv6 router_solicitation router_advertisement redirect mld : Reason
  multicast_router_discovery truncated_transport dhcpv6 truncated_gre truncated_esp : Reason
  encrypted_esp : Reason
  ethertype_reason port_blocked : ℕ → Reason
  discovery : Bool → ℕ → Reason

-- `unfinished` is no verdict of the source: the model's fuel ran out.
pub data Verdict : Type 0 where
  pass : Verdict
  dropped : Reason → Verdict
  unfinished : Verdict

pub record FilterConfig : Type 0 where
  pub egress : Bool
  pub ingress : Bool
  pub allow_ipv4 : Bool
  pub allow_global_dst : Bool
  pub allow_router_discovery : Bool
  pub allow_dhcpv6 : Bool
  pub allow_mld : Bool
  pub allow_discovery : Bool
  pub allow_esp : Bool
  pub allow_other_ethertypes : Bool
  pub blocked_ports : List ℕ

abbrev pub default_blocked_ports : List ℕ
default_blocked_ports = 22 ∷ 443 ∷ 853 ∷ 465 ∷ 993 ∷ 995 ∷ 3389 ∷ 500 ∷ 4500 ∷ 51820 ∷ 8443 ∷ []

abbrev pub good_neighbor : FilterConfig
good_neighbor = record {
  egress = true;
  ingress = true;
  allow_ipv4 = false;
  allow_global_dst = false;
  allow_router_discovery = false;
  allow_dhcpv6 = false;
  allow_mld = false;
  allow_discovery = false;
  allow_esp = false;
  allow_other_ethertypes = false;
  blocked_ports = default_blocked_ports;
}

abbrev pub off : FilterConfig
off = record {
  egress = false;
  ingress = false;
  allow_ipv4 = true;
  allow_global_dst = true;
  allow_router_discovery = true;
  allow_dhcpv6 = true;
  allow_mld = true;
  allow_discovery = true;
  allow_esp = true;
  allow_other_ethertypes = true;
  blocked_ports = [];
}

abbrev pub ethertype_ipv4 : ℕ
ethertype_ipv4 = 0x0800

abbrev pub ethertype_ipv6 : ℕ
ethertype_ipv6 = 0x86DD

abbrev pub ethertype_ident : ℕ
ethertype_ident = 0x88B5

abbrev pub max_depth : ℕ
max_depth = 3

unfoldable pub contains : List ℕ → ℕ → Bool
contains [] p = false
contains (x ∷ xs) p = x == p || contains xs p

-- The ports of the match on `(udp, p)` that have a reason.
unfoldable pub discovery_port : Bool → ℕ → Bool
discovery_port true p =
    p == 5353
    || p == 5355
    || p == 1900
    || p == 3702
    || p == 137
    || p == 138
    || p == 5350
    || p == 5351
discovery_port false p = p == 139 || p == 445 || p == 5357 || p == 5358

unfoldable pub scope_ok : List ℕ → Bool
scope_ok dst =
    get_or dst 0 0 == 0xff
    || (get_or dst 0 0 == 0xfe && bit_and (get_or dst 1 0) 0xc0 == 0x80)
    || bit_and (get_or dst 0 0) 0xfe == 0xfc
