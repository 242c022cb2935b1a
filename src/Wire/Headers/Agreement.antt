-- ===== src/Wire/Headers/Agreement.antt =====
-- When the headers of a request are accepted, and that the ones MCPdef sends are.
use mcpdef.Prelude.{
  List, Option, none, some, true, ◌≡◌, ◌↔◌, inl, inr, refl, sym, ap, ◌∙◌, subst, any, Any, any_iff,
  Option-cases,
}
use mcpdef.Str.{Str, str_eq}
use mcpdef.Str.Laws.{str_eq_iff}
use mcpdef.Table.{get, str_key}
use mcpdef.Message.{Message, then_get, then_str}
use mcpdef.Wire.{
  header_version, header_method, header_name, protocol_version, name_field, name_value, field_value,
  method_field,
}
use mcpdef.Wire.Headers.{
  Routing, ok, Codecs, is_header_safe, encode_header_value, validate_headers, mirrored_headers,
  named_header,
}
use mcpdef.Wire.Headers.Codec.{RoundTrips, decode-encode_header_value, encode_header_value-safe}
use mcpdef.Wire.Headers.Laws.{
  HeaderIs, NameAgrees, Accepts, agreed-HeaderIs, name_of_iff, routed_iff, with_method_iff,
  check_served_iff,
}

module _ (codecs : Codecs) (get : Str → Option Str) (m : Message) (served : List Str) where
  served_iff : (v : Str) → (any (str_eq v) served ≡ true) ↔ Any (λ w. v ≡ w) served
  served_iff v = any_iff (str_eq v) (λ w. str_eq_iff v w) served

  accepted :
      (r : Routing) → validate_headers codecs get m served ≡ ok r → Accepts codecs get m served r
  unfolding validate_headers
  accepted r h = elim (Option-cases (protocol_version m)) [
    | inl e ↦ cc (rw e at h)
    | inr (version, e) ↦
        let ((v, c), within, rest) =
          (check_served_iff codecs get m served version _ r).0 (rw e at h) in
        let (is, _) = (agreed-HeaderIs codecs get m served header_version version v).0 c in
        elim (Option-cases m.method) [
          | inl f ↦ cc (rw f at rest)
          | inr (method, f) ↦
              let ((w, d), whole) =
                (with_method_iff codecs get m served version method _ r).0 (rw f at rest) in
              let (is', _) = (agreed-HeaderIs codecs get m served header_method method w).0 d in
              let (p, q, n) = (routed_iff codecs get m served version method _ r).0 whole in
              (
                e ∙ ap some (sym p),
                subst (HeaderIs codecs get m served header_version) (sym p) is,
                subst (λ x. Any (λ y. x ≡ y) served) (sym p) ((served_iff version).0 within),
                f ∙ ap some (sym q),
                subst (HeaderIs codecs get m served header_method) (sym q) is',
                subst (λ x. NameAgrees codecs get m served (name_field x) r.name) (sym q)
                    ((name_of_iff codecs get m served method (name_field method) r.name).0 n),
              )
        ]
  ]

  accepts :
      (r : Routing) → Accepts codecs get m served r → validate_headers codecs get m served ≡ ok r
  unfolding validate_headers
  accepts r (e, is, within, f, is', n) = rw e (
      (check_served_iff codecs get m served r.protocol_version _ r).1 (
        (
          r.protocol_version,
          (agreed-HeaderIs codecs get m served header_version r.protocol_version
                r.protocol_version).1
              (is, refl),
        ),
        (served_iff r.protocol_version).1 within,
        rw f (
            (with_method_iff codecs get m served r.protocol_version r.method _ r).1 (
              (
                r.method,
                (agreed-HeaderIs codecs get m served header_method r.method r.method).1 (is', refl),
              ),
              (routed_iff codecs get m served r.protocol_version r.method _ r).1 (
                refl,
                refl,
                (name_of_iff codecs get m served r.method (name_field r.method) r.name).1 n,
              ),
            )),
      ))

  -- The headers of a request are accepted, with these routing facts, just where the body declares
  -- the version, which the listener serves, and the method; each has its header, which says the
  -- same; and a method with a name field has it in the body, and in its header, decoded.
  pub validate_headers_iff :
      (r : Routing) → (validate_headers codecs get m served ≡ ok r) ↔ Accepts codecs get m served r
  validate_headers_iff r = (accepted r, accepts r)

module _ (codecs : Codecs) (m : Message) where
  -- What the body must hold for its name to go into a header.
  abbrev pub Carries : Option Str → Option Str → Type 0
  Carries none name = name ≡ none
  Carries (some field) name =
      (n : Str) × (name ≡ some n)
      × (then_str (then_get m.params field) ≡ some n)
      × RoundTrips codecs n
      × (is_header_safe (codecs.encode64 n) ≡ true)

  -- The mirrored headers by name.
  abbrev pub sent : Str → Option Str
  sent name = get (mirrored_headers codecs m) name

  module _ (version method : Str) (e : protocol_version m ≡ some version)
      (f : m.method ≡ some method) where
    sent-version : sent header_version ≡ some version
    unfolding mirrored_headers get str_eq
    sent-version = rw e refl

    sent-method : sent header_method ≡ some method
    unfolding mirrored_headers get str_eq
    sent-method = rw (e, f) refl

    name_value-some :
        (field n : Str)
        → name_field method ≡ some field
        → then_str (then_get m.params field) ≡ some n
        → name_value m ≡ some n
    unfolding name_value
    name_value-some field n g h = ap (field_value m) (ap method_field f ∙ g) ∙ h

    sent-name :
        (field n : Str)
        → name_field method ≡ some field
        → then_str (then_get m.params field) ≡ some n
        → sent header_name ≡ some (encode_header_value codecs n)
    unfolding mirrored_headers get str_eq name_value
    sent-name field n g h =
        rw (e, f, g)
          (ap (λ o. get (named_header codecs o) header_name) (name_value-some field n g h))

    sent-NameAgrees :
        (served : List Str) (field name : Option Str)
        → name_field method ≡ field
        → Carries field name
        → NameAgrees codecs sent m served field name
    sent-NameAgrees served none name g h = h
    sent-NameAgrees served (some field) name g (n, same, body, reads, safe) = (
      n,
      encode_header_value codecs n,
      same,
      body,
      (sent-name field n g body, encode_header_value-safe codecs n safe),
      decode-encode_header_value codecs n reads,
    )

    -- A request of a version that the server serves passes the check of its headers with those that
    -- `mirrored_headers` gives it, and the routing facts are the body's: if a header can carry its
    -- version and its method as they are, and Base64 reads back what it wrote of its name.
    pub validate-mirrored_headers :
        (served : List Str) (name : Option Str)
        → Any (λ v. version ≡ v) served
        → is_header_safe version ≡ true
        → is_header_safe method ≡ true
        → Carries (name_field method) name
        → validate_headers codecs sent m served
          ≡ ok record { protocol_version = version; method = method; name = name }
    validate-mirrored_headers served name within safe safe' carries =
        (validate_headers_iff codecs sent m served _).1 (
          e,
          (sent-version, safe),
          within,
          f,
          (sent-method, safe'),
          sent-NameAgrees served (name_field method) name refl carries,
        )
