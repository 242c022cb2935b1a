-- ===== src/Egress/Never.antt =====
-- The addresses that no policy lets through, the cloud's metadata address among them.
use mcpdef.Prelude.{
  ◌+◌, ◌*◌, ◌/◌, ◌%◌, Bool, ◌≡◌, ◌≢◌, ◌⊎◌, inl, inr, refl, sym, ap, ◌∙◌, subst, Any, arith,
}
use mcpdef.Str.{Str}
use mcpdef.Egress.{
  EgressPolicy, IpClass, link_local, unspecified, special_use, loopback, private, public, Ipv4,
  Ipv6, v4, v6, ok, classify_v4, classify_v6, Net, check_ip,
}
use mcpdef.Egress.Laws.{CanReach, single}
use mcpdef.Egress.Blocks.{IsIpv4, InBlock, bits, never, IsInternal, classify_v4-never}

reach_cases :
    (policy : EgressPolicy) (class : IpClass)
    → CanReach policy class
    → (class ≡ public) ⊎ IsInternal class
reach_cases policy public h = inl refl
reach_cases policy private h = inr tt
reach_cases policy loopback h = inr tt
reach_cases policy link_local h = absurd h
reach_cases policy unspecified h = absurd h
reach_cases policy special_use h = absurd h

-- `::ffff:a.b.c.d`.
abbrev pub mapped : Ipv4 → Ipv6
mapped ip = record {
  s0 = 0;
  s1 = 0;
  s2 = 0;
  s3 = 0;
  s4 = 0;
  s5 = 65535;
  s6 = ip.a * 256 + ip.b;
  s7 = ip.c * 256 + ip.d;
}

-- A mapped address is judged as the address it maps.
classify-mapped : (ip : Ipv4) → IsIpv4 ip → classify_v6 (mapped ip) ≡ classify_v4 ip
unfolding classify_v6
classify-mapped ip (h, k, l, m) =
    ap classify_v4 (λ i. record { a = high i; b = low i; c = high' i; d = low' i })
  where
    high : (ip.a * 256 + ip.b) / 256 ≡ ip.a
    high = omega arith

    low : (ip.a * 256 + ip.b) % 256 ≡ ip.b
    low = omega arith

    high' : (ip.c * 256 + ip.d) / 256 ≡ ip.c
    high' = omega arith

    low' : (ip.c * 256 + ip.d) % 256 ≡ ip.d
    low' = omega arith

-- An IPv4 address in 0/8, 169.254/16, 192.0.0/24, 192.0.2/24, 198.18/15, 198.51.100/24,
-- 203.0.113/24, 224/4 or 240/4 does not pass the guard under any policy, neither as it is nor as an
-- IPv4-mapped IPv6 address.
pub check_ip-never :
    (net : Net) (host : Str) (policy : EgressPolicy) (ip : Ipv4) (b : Bool)
    → IsIpv4 ip
    → Any (InBlock (bits ip)) never
    → (check_ip net host (v4 ip) policy ≢ ok b) × (check_ip net host (v6 (mapped ip)) policy ≢ ok b)
check_ip-never net host policy ip b valid n = (
  λ e. refused (classify_v4 ip) refl (single net host (v4 ip) policy b e).0.0,
  λ e.
      refused (classify_v6 (mapped ip)) (classify-mapped ip valid)
        (single net host (v6 (mapped ip)) policy b e).0.0,
)
  where
    refused : (class : IpClass) → class ≡ classify_v4 ip → ¬ CanReach policy class
    refused class same reach =
        let (not_public, not_internal) = classify_v4-never ip valid n in
        elim (reach_cases policy class reach) [
          | inl is ↦ not_public (sym same ∙ is)
          | inr inner ↦ not_internal (subst IsInternal same inner)
        ]
