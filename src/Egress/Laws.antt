-- ===== src/Egress/Laws.antt =====
-- The destinations that pass the guard.
use mcpdef.Prelude.{
  ℕ, List, [], ◌∷◌, Option, none, some, Bool, true, false, ◌&&◌, ◌||◌, ◌≡◌, ◌≢◌, ◌⊎◌, inl, inr,
  refl, sym, ap, ◌∙◌, subst, map, All, Any, Bool-cases,
}
use mcpdef.Str.{Str, str, str_eq, is_some}
use mcpdef.Str.Laws.{str_eq_iff}
use mcpdef.Egress.{
  EgressPolicy, IpClass, link_local, unspecified, special_use, loopback, private, public, IpAddr,
  Resolved, Guarded, ok, egress, classify, Host, ipv4, ipv6, domain, Url, Net, judge, check_ip,
  judge_url, target, resolve, either, check_each, pin, is_nil, check_resolved, validate,
  validate_host, validate_at,
}

-- The policy lets a destination of the class through.
abbrev pub CanReach : EgressPolicy → IpClass → Type 0
CanReach policy public = Unit
CanReach policy private = policy.allow_private_network ≡ true
CanReach policy loopback = policy.allow_private_network ≡ true
CanReach policy link_local = ⊥
CanReach policy unspecified = ⊥
CanReach policy special_use = ⊥

abbrev pub IsPublic : IpAddr → Type 0
IsPublic ip = classify ip ≡ public

or-true : (b : Bool) → (b || true) ≡ true
or-true true = refl
or-true false = refl

module _ {A B : Type 0} (P : B → Type 0) (f : A → B) where
  All-map : (xs : List A) → All (λ x. P (f x)) xs → All P (map f xs)
  All-map [] h = tt
  All-map (x ∷ xs) (p, h) = (p, All-map xs h)

  Any-map : (xs : List A) → Any P (map f xs) → Any (λ x. P (f x)) xs
  Any-map [] h = h
  Any-map (x ∷ xs) (inl p) = inl p
  Any-map (x ∷ xs) (inr h) = inr (Any-map xs h)

all-three : (a b c : Bool) → a ≡ true → b ≡ true → c ≡ true → ¬ ((a && b && c) ≡ false)
all-three a b c e f g h = cc (rw (e, f, g) at h)

Guarded-cases {ℓ} :
    {A : Type ℓ} (g : Guarded A) → ((a : A) × (g ≡ ok a)) ⊎ ((e : Str) × (g ≡ egress e))
Guarded-cases (ok a) = inl (a, refl)
Guarded-cases (egress e) = inr (e, refl)

ok-injective {ℓ} : {A : Type ℓ} {a b : A} → ok a ≡ ok b → a ≡ b
ok-injective h = cc h

module _ (net : Net) where
  judge-ok :
      (host : Str) (ip : IpAddr) (policy : EgressPolicy) (class : IpClass) (b : Bool)
      → judge net host ip policy class ≡ ok b
      → CanReach policy class × ((class ≡ public) → b ≡ true)
  judge-ok host ip policy link_local b h = cc h
  judge-ok host ip policy unspecified b h = cc h
  judge-ok host ip policy special_use b h = cc h
  judge-ok host ip policy loopback b h = elim (Bool-cases policy.allow_private_network) [
    | inl e ↦ (e, λ f. cc f)
    | inr e ↦ cc (rw e at h)
  ]
  judge-ok host ip policy private b h = elim (Bool-cases policy.allow_private_network) [
    | inl e ↦ (e, λ f. cc f)
    | inr e ↦ cc (rw e at h)
  ]
  judge-ok host ip policy public b h = (tt, λ _. cc h)

  either-ok :
      (x y : Guarded Bool) (b : Bool)
      → either net x y ≡ ok b
      → (c : Bool) × (d : Bool) × (x ≡ ok c) × (y ≡ ok d) × ((c || d) ≡ b)
  either-ok (ok c) (ok d) b h = (c, d, refl, refl, cc h)
  either-ok (ok c) (egress e) b h = cc h
  either-ok (egress e) y b h = cc h

  -- Each address may be reached, and the answer is whether one is public, if it is.
  check_each-ok :
      (host : Str) (policy : EgressPolicy) (ips : List IpAddr) (b : Bool)
      → check_each net host policy ips ≡ ok b
      → All (λ ip. CanReach policy (classify ip)) ips × (Any IsPublic ips → b ≡ true)
  unfolding check_ip
  check_each-ok host policy [] b h = (tt, λ a. absurd a)
  check_each-ok host policy (ip ∷ ips) b h =
      let (c, d, x, y, e) = either-ok _ _ b h in
      let (reach, is) = judge-ok host ip policy (classify ip) c x in
      let (reaches, are) = check_each-ok host policy ips d y in
      (
        (reach, reaches),
        λ a. sym e ∙ elim a [
          | inl one ↦ ap (λ x. x || d) (is one)
          | inr later ↦ ap (λ x. c || x) (are later) ∙ or-true c
        ],
      )

  pub single :
      (host : Str) (ip : IpAddr) (policy : EgressPolicy) (b : Bool)
      → check_ip net host ip policy ≡ ok b
      → All (λ x. CanReach policy (classify x)) (ip ∷ []) × (Any IsPublic (ip ∷ []) → b ≡ true)
  unfolding check_ip
  single host ip policy b h =
      let (reach, is) = judge-ok host ip policy (classify ip) b h in
      ((reach, tt), λ a. elim a [ inl one ↦ is one | inr later ↦ absurd later ])

  -- What a validated destination holds: each of its addresses is one that the policy lets through,
  -- and where HTTPS is required of public destinations and one of them is public, the scheme is not
  -- HTTP.
  abbrev pub IsSafe : Str → EgressPolicy → Resolved → Type 0
  IsSafe scheme policy r =
      All (λ (ip, port). CanReach policy (classify ip)) r.addrs
      × (Any (λ (ip, port). IsPublic ip) r.addrs
          → policy.require_https_public ≡ true
          → scheme ≢ str "http")

  pin-IsSafe :
      (scheme : Str) (port : ℕ) (host : Str) (is_domain : Bool) (ips : List IpAddr)
      (policy : EgressPolicy) (b : Bool) (r : Resolved)
      → All (λ ip. CanReach policy (classify ip)) ips × (Any IsPublic ips → b ≡ true)
      → pin net scheme port (host, (is_domain, ips)) policy (ok b) ≡ ok r
      → IsSafe scheme policy r
  pin-IsSafe scheme port host is_domain ips policy b r (reach, are) h =
      elim (Bool-cases (b && str_eq scheme (str "http") && policy.require_https_public)) [
        | inl e ↦ cc (rw e at h)
        | inr e ↦ subst (IsSafe scheme policy) (ok-injective (rw e at h)) (
          All-map (λ (ip, q). CanReach policy (classify ip)) (λ ip. (ip, port)) ips reach,
          λ a required plain.
              all-three _ _ _ (are (Any-map (λ (ip, q). IsPublic ip) (λ ip. (ip, port)) ips a))
                ((str_eq_iff scheme (str "http")).1 plain) required e,
        )
      ]

  check_each-pin :
      (scheme : Str) (port : ℕ) (host : Str) (is_domain : Bool) (ips : List IpAddr)
      (policy : EgressPolicy) (checked : Guarded Bool) (r : Resolved)
      → ((b : Bool)
          → checked ≡ ok b
          → All (λ ip. CanReach policy (classify ip)) ips × (Any IsPublic ips → b ≡ true))
      → pin net scheme port (host, (is_domain, ips)) policy checked ≡ ok r
      → IsSafe scheme policy r
  check_each-pin scheme port host is_domain ips policy (egress e) r h k = cc k
  check_each-pin scheme port host is_domain ips policy (ok b) r h k =
      pin-IsSafe scheme port host is_domain ips policy b r (h b refl) k

  check_resolved-IsSafe :
      (scheme : Str) (port : ℕ) (policy : EgressPolicy) (g : Guarded (Str × (Bool × List IpAddr)))
      (r : Resolved)
      → check_resolved net scheme port policy g ≡ ok r
      → IsSafe scheme policy r
  check_resolved-IsSafe scheme port policy (egress e) r h = cc h
  check_resolved-IsSafe scheme port policy (ok (host, (is_domain, ips))) r h =
      elim (Bool-cases (is_nil net ips)) [
        | inl e ↦ cc (rw e at h)
        | inr e ↦
            check_each-pin scheme port host is_domain ips policy (check_each net host policy ips) r
              (check_each-ok host policy ips) (rw e at h)
      ]

  -- The URL parses, by a scheme of the two.
  abbrev pub IsTarget : Str → Url → Type 0
  IsTarget s url =
      (net.parse_url s ≡ ok url) × ((url.scheme ≡ str "http") ⊎ (url.scheme ≡ str "https"))

  target-IsTarget :
      (s : Str) (url : Url) (port : ℕ) → target net s ≡ ok (url, port) → IsTarget s url
  unfolding target
  target-IsTarget s url port h = judged (net.parse_url s) h
    where
      judged :
          (g : Guarded Url)
          → judge_url net s g ≡ ok (url, port)
          → (g ≡ ok url) × ((url.scheme ≡ str "http") ⊎ (url.scheme ≡ str "https"))
      judged (egress e) k = cc k
      judged (ok u) k = elim (Bool-cases (is_some u.host)) [
        | inr none_there ↦ elim (Bool-cases (str_eq u.scheme (str "http"))) [
          | inl a ↦ cc (rw (a, none_there) at k)
          | inr a ↦ elim (Bool-cases (str_eq u.scheme (str "https"))) [
            | inl b ↦ cc (rw (a, b, none_there) at k)
            | inr b ↦ cc (rw (a, b) at k)
          ]
        ]
        | inl there ↦ elim (Bool-cases (str_eq u.scheme (str "http"))) [
          | inl a ↦
              let same = ap (λ x. x.0) (ok-injective (rw (a, there) at k)) in
              (
                ap ok same,
                inl (ap (λ x. x.scheme) (sym same) ∙ (str_eq_iff u.scheme (str "http")).0 a),
              )
          | inr a ↦ elim (Bool-cases (str_eq u.scheme (str "https"))) [
            | inl b ↦
                let same = ap (λ x. x.0) (ok-injective (rw (a, b, there) at k)) in
                (
                  ap ok same,
                  inr (ap (λ x. x.scheme) (sym same) ∙ (str_eq_iff u.scheme (str "https")).0 b),
                )
            | inr b ↦ cc (rw (a, b) at k)
          ]
        ]
      ]

  -- A URL that passes the guard parses, by HTTP or HTTPS; each of the addresses to connect to is
  -- one that the policy lets through, which no link-local, unspecified or special-use address is;
  -- and where HTTPS is required of public destinations, none is public over HTTP.
  pub validate-IsSafe :
      (s : Str) (policy : EgressPolicy) (r : Resolved)
      → validate net s policy ≡ ok r
      → (url : Url) × IsTarget s url × IsSafe url.scheme policy r
  unfolding validate
  validate-IsSafe s policy r h = elim (Guarded-cases (target net s)) [
    | inr (e, f) ↦ cc (rw f at h)
    | inl ((url, port), f) ↦ (
      url,
      target-IsTarget s url port f,
      check_resolved-IsSafe url.scheme port policy (resolve net port url.host) r (rw f at h),
    )
  ]

  -- The same of an address given in place of the host's, and the URL's host is a name.
  pub validate_at-IsSafe :
      (s : Str) (ip : IpAddr) (policy : EgressPolicy) (r : Resolved)
      → validate_at net s ip policy ≡ ok r
      → (url : Url) × IsTarget s url
        × IsSafe url.scheme policy r
        × ((name : Str) × (url.host ≡ some (domain name)))
  unfolding validate_at
  validate_at-IsSafe s ip policy r h = elim (Guarded-cases (target net s)) [
    | inr (e, f) ↦ cc (rw f at h)
    | inl ((url, port), f) ↦
        let (name, named, safe) = hosted url.scheme port url.host (rw f at h) in
        (url, target-IsTarget s url port f, safe, (name, named))
  ]
    where
      hosted :
          (scheme : Str) (port : ℕ) (host : Option Host)
          → validate_host net s scheme port ip policy host ≡ ok r
          → (name : Str) × (host ≡ some (domain name)) × IsSafe scheme policy r
      hosted scheme port none k = cc k
      hosted scheme port (some (ipv4 other)) k = cc k
      hosted scheme port (some (ipv6 other)) k = cc k
      hosted scheme port (some (domain name)) k = (
        name,
        refl,
        check_each-pin scheme port name true (ip ∷ []) policy (check_ip net name ip policy) r
            (single name ip policy) k,
      )
