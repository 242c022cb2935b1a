-- ===== src/Egress.antt =====
-- The addresses that MCPdef may connect to: `EgressPolicy`, `check_ip`, `target`, `validate`,
-- `validate_at`, `check_socket_ip` and `check_connect_to` of crates/mcpdef-transport/src/egress.rs.
-- The URL parser, the resolver and an address's text are parameters.
pub mod Address
pub mod Blocks
pub mod Laws
pub mod Never
use mcpdef.Prelude.{
  ℕ, List, [], ◌∷◌, ◌++◌, Option, none, some, Bool, true, false, not, ◌&&◌, ◌||◌, ◌==◌, leb, map,
  ◌+◌, ◌*◌, ◌/◌, ◌%◌, if◌then◌else◌,
}
use mcpdef.Str.{Str, str, str_eq, is_some}
unfoldable pub use mcpdef.Egress.Address.{classify_v4, classify_v6}
pub use mcpdef.Egress.Address.{
  IpClass, Ipv4, Ipv6, IpAddr, is_unspecified_v4, is_broadcast, is_private, is_multicast_v4,
  is_special_v4, starts_zero, to_ipv4_mapped, is_special_v6, classify_unmapped, classify_mapped,
  classify, link_local, unspecified, special_use, loopback, private, public, v4, v6,
}

pub record EgressPolicy : Type 0 where
  pub allow_private_network : Bool
  pub require_https_public : Bool

abbrev pub default_policy : EgressPolicy
default_policy = record { allow_private_network = true; require_https_public = true }

abbrev pub hardened : EgressPolicy
hardened = record { allow_private_network = false; require_https_public = true }

pub record Resolved : Type 0 where
  pub host : Str
  pub addrs : List (IpAddr × ℕ)
  pub is_domain : Bool

-- `Result<_, TransportError>`, of whose errors the guard gives one.
pub data Guarded {ℓ} (A : Type ℓ) : Type ℓ where
  ok : A → Guarded A
  egress : Str → Guarded A

pub data Host : Type 0 where
  ipv4 : Ipv4 → Host
  ipv6 : Ipv6 → Host
  domain : Str → Host

-- The parts of a parsed URL that are read; `port` is `port_or_known_default`.
pub record Url : Type 0 where
  pub scheme : Str
  pub host : Option Host
  pub port : Option ℕ

-- What is used of the URL parser, the resolver and the standard library.
pub record Net : Type 0 where
  pub parse_url : Str → Guarded Url
  pub lookup_host : Str → ℕ → Guarded (List IpAddr)
  pub show_ip : IpAddr → Str

-- `()`.
pub data Passed : Type 0 where
  passed : Passed

-- `.map(drop)`.
abbrev pub dropped {ℓ} : {A : Type ℓ} → Guarded A → Guarded Passed
dropped (ok a) = ok passed
dropped (egress e) = egress e

module _ (net : Net) where
  abbrev pub blocked : Str → IpAddr → Str → Guarded Bool
  blocked host ip why = egress (host ++ (str " → " ++ (net.show_ip ip ++ why)))

  abbrev pub judge : Str → IpAddr → EgressPolicy → IpClass → Guarded Bool
  judge host ip policy link_local =
      blocked host ip (str " is a link-local/metadata/unspecified address (always blocked)")
  judge host ip policy unspecified =
      blocked host ip (str " is a link-local/metadata/unspecified address (always blocked)")
  judge host ip policy special_use = blocked host ip (
      str
        " is a special-use/non-global address (multicast/doc/benchmark/reserved — always blocked)")
  judge host ip policy loopback =
      if policy.allow_private_network
      then ok false
      else blocked host ip (str " is a private/loopback address and egress.allow_private = false")
  judge host ip policy private =
      if policy.allow_private_network
      then ok false
      else blocked host ip (str " is a private/loopback address and egress.allow_private = false")
  judge host ip policy public = ok true

  unfoldable pub check_ip : Str → IpAddr → EgressPolicy → Guarded Bool
  unfolding classify_v4 classify_v6
  check_ip host ip policy = judge host ip policy (classify ip)

  unfoldable pub check_socket_ip : IpAddr → EgressPolicy → Guarded Passed
  unfolding check_ip
  check_socket_ip ip policy = dropped (check_ip (str "sandbox egress") ip policy)

  abbrev pub default_port : Url → Option ℕ → ℕ
  default_port url (some p) = p
  default_port url none = if str_eq url.scheme (str "https") then 443 else 80

  abbrev pub judge_url : Str → Guarded Url → Guarded (Url × ℕ)
  judge_url s (egress e) = egress (str "invalid url '" ++ (s ++ (str "': " ++ e)))
  judge_url s (ok url) =
      if not (str_eq url.scheme (str "http")) && not (str_eq url.scheme (str "https"))
      then egress
          (str "unsupported scheme '" ++ (url.scheme ++ (str "' (only http/https) in " ++ s)))
      else if not (is_some url.host)
      then egress (str "url " ++ (s ++ str " has no host"))
      else ok (url, default_port url url.port)

  unfoldable pub target : Str → Guarded (Url × ℕ)
  unfolding str_eq
  target s = judge_url s (net.parse_url s)

  abbrev pub found : Str → Guarded (List IpAddr) → Guarded (Str × (Bool × List IpAddr))
  found d (egress e) = egress (str "resolving '" ++ (d ++ (str "': " ++ e)))
  found d (ok ips) = ok (d, (true, ips))

  -- The host's text, whether it is a name, and its addresses. (`target` requires a host.)
  abbrev pub resolve : ℕ → Option Host → Guarded (Str × (Bool × List IpAddr))
  resolve port none = egress []
  resolve port (some (ipv4 ip)) = ok (net.show_ip (v4 ip), (false, v4 ip ∷ []))
  resolve port (some (ipv6 ip)) = ok (net.show_ip (v6 ip), (false, v6 ip ∷ []))
  resolve port (some (domain d)) = found d (net.lookup_host d port)

  abbrev pub either : Guarded Bool → Guarded Bool → Guarded Bool
  either (egress e) rest = egress e
  either (ok b) (egress e) = egress e
  either (ok b) (ok c) = ok (b || c)

  -- The loop over the addresses: whether one is public.
  abbrev pub check_each : Str → EgressPolicy → List IpAddr → Guarded Bool
  check_each host policy [] = ok false
  check_each host policy (ip ∷ ips) = either (check_ip host ip policy) (check_each host policy ips)

  abbrev pub pin :
      Str → ℕ → Str × (Bool × List IpAddr) → EgressPolicy → Guarded Bool → Guarded Resolved
  pin scheme port (host, (is_domain, ips)) policy (egress e) = egress e
  pin scheme port (host, (is_domain, ips)) policy (ok any_public) =
      if any_public && str_eq scheme (str "http") && policy.require_https_public
      then egress (
          str "refusing plaintext HTTP to public host '"
          ++ (host ++ str "' (egress.require_https = true)"))
      else ok record { host = host; addrs = map (λ ip. (ip, port)) ips; is_domain = is_domain }

  abbrev pub is_nil : List IpAddr → Bool
  is_nil [] = true
  is_nil (ip ∷ ips) = false

  abbrev pub check_resolved :
      Str → ℕ → EgressPolicy → Guarded (Str × (Bool × List IpAddr)) → Guarded Resolved
  check_resolved scheme port policy (egress e) = egress e
  check_resolved scheme port policy (ok (host, (is_domain, ips))) =
      if is_nil ips
      then egress (str "host '" ++ (host ++ str "' resolved to no addresses"))
      else pin scheme port (host, (is_domain, ips)) policy (check_each host policy ips)

  abbrev pub validate_target : EgressPolicy → Guarded (Url × ℕ) → Guarded Resolved
  validate_target policy (egress e) = egress e
  validate_target policy (ok (url, port)) =
      check_resolved url.scheme port policy (resolve port url.host)

  unfoldable pub validate : Str → EgressPolicy → Guarded Resolved
  unfolding target check_ip str_eq
  validate s policy = validate_target policy (target s)

  abbrev pub needs_name : Str → Guarded Resolved
  needs_name s = egress (
      str "connect_to needs a url with a host name to check the certificate against, and "
      ++ (s ++ str " names an address"))

  -- A host that is a name, with the address in place of its own.
  abbrev pub validate_host : Str → Str → ℕ → IpAddr → EgressPolicy → Option Host → Guarded Resolved
  validate_host s scheme port ip policy (some (domain host)) =
      pin scheme port (host, (true, ip ∷ [])) policy (check_ip host ip policy)
  validate_host s scheme port ip policy (some (ipv4 other)) = needs_name s
  validate_host s scheme port ip policy (some (ipv6 other)) = needs_name s
  validate_host s scheme port ip policy none = needs_name s

  abbrev pub validate_target_at : Str → IpAddr → EgressPolicy → Guarded (Url × ℕ) → Guarded Resolved
  validate_target_at s ip policy (egress e) = egress e
  validate_target_at s ip policy (ok (url, port)) =
      validate_host s url.scheme port ip policy url.host

  unfoldable pub validate_at : Str → IpAddr → EgressPolicy → Guarded Resolved
  unfolding target check_ip str_eq
  validate_at s ip policy = validate_target_at s ip policy (target s)

  unfoldable pub check_connect_to : Str → IpAddr → EgressPolicy → Guarded Passed
  unfolding validate_at
  check_connect_to s ip policy = dropped (validate_at s ip policy)
