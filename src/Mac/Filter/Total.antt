-- ===== src/Mac/Filter/Total.antt =====
-- The filter always ends with a verdict of the source: tunnels are followed to a bounded depth,
-- whatever the frame holds.
use s2g.Base.{
  ℕ, zero, suc, ◌+◌, ◌≤◌, ◌<◌, ◌≡◌, ◌≢◌, inl, inr, List, [], ◌∷◌, Bool, true, arith, length, drop,
  get_or, from_be16, bit_and, Option-cases, Bool-cases, ltb, refl, ◌*◌,
}
use s2g.Mac.Filter.Policy.{FilterConfig, Verdict, unfinished}
use s2g.Mac.Filter.Headers.{Walk, truncated, fragment, transport_at, lost, walk, walk-ne-lost}
use s2g.Mac.Filter.Esp.{esp_inner, icv_lengths}
use s2g.Mac.Filter.{
  Call, frame, ethertype, ipv6, transport, ipv4, check_icmpv6, check_ports, check_gre, check_esp,
  check_ipv4, check_transport, check_ipv6, check_ethertype, check_frame, check_call, run, check,
}

icmpv6_ends : (cfg : FilterConfig) (data' : List ℕ) → check_icmpv6 cfg data' ≢ unfinished
unfolding check_icmpv6
icmpv6_ends cfg [] e = cc
icmpv6_ends cfg (ty ∷ rest) e = ground arith

-- The deeper calls end wherever they are made below the greatest depth.
module _ (again : Call → Verdict) (cfg : FilterConfig) (depth : ℕ)
    (deeper : depth < 3 → (call : Call) → again call ≢ unfinished) where
  ports_end : (proto : ℕ) (data' : List ℕ) → check_ports again cfg depth proto data' ≢ unfinished
  unfolding check_ports
  ports_end proto data' e = grind (arith, deeper)

  gre_ends : (gre : List ℕ) → check_gre again cfg depth gre ≢ unfinished
  unfolding check_gre
  gre_ends gre e = grind (arith, deeper)

  esp_ends : (esp : List ℕ) → check_esp again cfg depth esp ≢ unfinished
  unfolding check_esp
  esp_ends esp e = elim (Option-cases (esp_inner esp icv_lengths)) [
    | inl none' ↦ ground arith
    | inr ((nh, inner), found) ↦ ground (arith, λ (p : depth < 3). deeper p (transport nh inner))
  ]

  ipv4_ends : (ip : List ℕ) → check_ipv4 again cfg depth ip ≢ unfinished
  unfolding check_ipv4
  ipv4_ends ip e =
      let rest : List ℕ = drop (bit_and (get_or ip 0 0) 0x0f * 4) ip in
      ground (arith, ports_end (get_or ip 9 0) rest, gre_ends rest, esp_ends rest)

  -- IPv4 in IPv6 is followed at every depth.
  module _ (ipv4_deeper : (ip : List ℕ) → again (ipv4 ip) ≢ unfinished) where
    transport_ends :
        (nh : ℕ) (data' : List ℕ) → check_transport again cfg depth nh data' ≢ unfinished
    unfolding check_transport
    transport_ends nh data' e = ground (
      arith,
      ipv4_deeper data',
      λ (p : depth < 3). deeper p (ipv6 data' true),
      gre_ends data',
      esp_ends data',
      icmpv6_ends cfg data',
      ports_end nh data',
    )

    ipv6_ends : (ip : List ℕ) (g : Bool) → check_ipv6 again cfg depth ip g ≢ unfinished
    unfolding check_ipv6
    ipv6_ends ip g e = by_walk (walk (length ip) ip (get_or ip 6 0) 40) refl
      where
        by_walk : (w : Walk) → walk (length ip) ip (get_or ip 6 0) 40 ≡ w → ⊥
        by_walk truncated q = ground arith
        by_walk fragment q = ground arith
        by_walk (transport_at nh pos) q = ground (arith, transport_ends nh (drop pos ip))
        by_walk lost q = ground (arith, walk-ne-lost (length ip) ip (get_or ip 6 0) 40)

    ethertype_ends :
        (t : ℕ) (p : List ℕ) (g : Bool) → check_ethertype again cfg depth t p g ≢ unfinished
    unfolding check_ethertype
    ethertype_ends t p g e = ground (arith, ipv6_ends p g, ipv4_ends p)

    call_ends : (call : Call) → check_call again cfg depth call ≢ unfinished
    unfolding check_call check_frame
    call_ends (frame f g) e =
        ground (arith, ethertype_ends (from_be16 (get_or f 12 0) (get_or f 13 0)) (drop 14 f) g)
    call_ends (ethertype t p g) e = ethertype_ends t p g e
    call_ends (ipv6 ip g) e = ipv6_ends ip g e
    call_ends (transport nh d) e = transport_ends nh d e
    call_ends (ipv4 ip) e = ipv4_ends ip e

-- Past the greatest depth only IPv4 packets are looked at, and one level is enough for them.
run_ipv4_ends :
    (fuel : ℕ) (cfg : FilterConfig) (depth : ℕ) (ip : List ℕ)
    → 3 ≤ depth
    → run (suc fuel) cfg depth (ipv4 ip) ≢ unfinished
unfolding run check_call
run_ipv4_ends fuel cfg depth ip h =
    ipv4_ends (run fuel cfg (depth + 1)) cfg depth (λ p. absurd (omega arith)) ip

run_ends :
    (fuel : ℕ) (cfg : FilterConfig) (depth : ℕ) (call : Call)
    → 4 < fuel + depth
    → depth ≤ 3
    → run fuel cfg depth call ≢ unfinished
unfolding run
run_ends zero cfg depth call h b = absurd (omega arith)
run_ends (suc zero) cfg depth call h b = absurd (omega arith)
run_ends (suc (suc fuel)) cfg depth call h b =
    call_ends (run (suc fuel) cfg (depth + 1)) cfg depth
      (λ p c. run_ends (suc fuel) cfg (depth + 1) c (omega arith) (omega arith))
      (λ ip. elim (Bool-cases (ltb depth 3)) [
        | inl below ↦ run_ends (suc fuel) cfg (depth + 1) (ipv4 ip) (omega arith) (ground arith)
        | inr deepest ↦ run_ipv4_ends fuel cfg (depth + 1) ip (ground arith)
      ])
      call

-- On every frame and under every policy the filter ends with Pass or a reason to drop.
pub check-ne-unfinished : (cfg : FilterConfig) (f : List ℕ) → check cfg f ≢ unfinished
unfolding check
check-ne-unfinished cfg f =
    run_ends 5 cfg 0 (frame f cfg.allow_global_dst) (omega arith) (omega arith)
