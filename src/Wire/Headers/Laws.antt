-- ===== src/Wire/Headers/Laws.antt =====
-- What a request has to hold for its headers to be accepted, and that the headers MCPdef sends are.
use mcpdef.Prelude.{
  List, Option, none, some, true, ◌≡◌, ◌↔◌, inl, inr, refl, sym, ap, ◌∙◌, any, Any, Bool-cases,
  arith,
}
use mcpdef.Str.{Str, str_eq}
use mcpdef.Str.Laws.{str_eq_iff}
use mcpdef.Message.{Message, then_get, then_str}
use mcpdef.Wire.{header_version, header_method, header_name, protocol_version, name_field}
use mcpdef.Wire.Headers.{
  Routing, WireError, Validated, ok, err, Codecs, is_header_safe, decode_header_value,
  required_value, agreed, decoded, body_value, required, named, checked_name, name_of, routed,
  with_method, check_method, check_served,
}

ok≢err {ℓ} : {A : Type ℓ} {e : WireError} {a : A} → ¬ (err e ≡ ok a)
ok≢err h = cc h

pub ok-injective {ℓ} : {A : Type ℓ} {a b : A} → ok a ≡ ok b → a ≡ b
ok-injective h = cc h

pub required_iff :
    (codecs : Codecs) (name : Str) (o : Option Str) (v : Str)
    → (required_value codecs name o ≡ ok v) ↔ ((o ≡ some v) × (is_header_safe v ≡ true))
required_iff codecs name none v = ground arith
required_iff codecs name (some w) v = elim (Bool-cases (is_header_safe w)) [
  | inl safe ↦ rw safe (
    (λ e. let same : w ≡ v = cc e in (ap some same, ap is_header_safe (sym same) ∙ safe)),
    λ h. ap ok (cc h.0),
  )
  | inr unsafe ↦ rw unsafe (λ e. cc e, λ h. cc (unsafe, h.0, h.1))
]

agreed_iff :
    (codecs : Codecs) (name body : Str) (c : Validated Str) (v : Str)
    → (agreed codecs name body c ≡ ok v) ↔ ((c ≡ ok body) × (v ≡ body))
agreed_iff codecs name body (err e) v = ground arith
agreed_iff codecs name body (ok w) v = ground (arith, str_eq_iff w body)

module _ (codecs : Codecs) (get : Str → Option Str) (m : Message) (served : List Str) where
  -- The header is there, and a header can carry its value.
  abbrev pub HeaderIs : Str → Str → Type 0
  HeaderIs name v = (get name ≡ some v) × (is_header_safe v ≡ true)

  -- A method with a name field has it in the body, and the header says the same.
  abbrev pub NameAgrees : Option Str → Option Str → Type 0
  NameAgrees none name = name ≡ none
  NameAgrees (some field) name =
      (v : Str) × (raw : Str) × (name ≡ some v)
      × (then_str (then_get m.params field) ≡ some v)
      × HeaderIs header_name raw
      × (decode_header_value codecs raw ≡ ok v)

  -- What the headers and the body must hold for these routing facts.
  abbrev pub Accepts : Routing → Type 0
  Accepts r =
      (protocol_version m ≡ some r.protocol_version)
      × HeaderIs header_version r.protocol_version
      × Any (λ v. r.protocol_version ≡ v) served
      × (m.method ≡ some r.method)
      × HeaderIs header_method r.method
      × NameAgrees (name_field r.method) r.name

  pub agreed-HeaderIs :
      (name body : Str) (v : Str)
      → (agreed codecs name body (required codecs get m served name) ≡ ok v)
        ↔ (HeaderIs name body × (v ≡ body))
  agreed-HeaderIs name body v =
      let a = agreed_iff codecs name body (required codecs get m served name) v in
      let q = required_iff codecs name (get name) body in
      (λ e. (q.0 (a.0 e).0, (a.0 e).1), λ h. a.1 (q.1 h.0, h.1))

  named_iff :
      (c : Validated Str) (name : Option Str)
      → (named codecs get m served c ≡ ok name) ↔ ((v : Str) × (c ≡ ok v) × (name ≡ some v))
  named_iff (err e) name = (λ f. cc f, λ h. cc h.1)
  named_iff (ok v) name = (λ f. (v, refl, cc f), λ h. cc (h.1, h.2))

  decoded_iff :
      (c : Validated Str) (v : Str)
      → (decoded codecs c ≡ ok v)
        ↔ ((raw : Str) × (c ≡ ok raw) × (decode_header_value codecs raw ≡ ok v))
  decoded_iff (err e) v = (λ f. cc f, λ h. cc h.1)
  decoded_iff (ok raw) v = (λ f. (raw, refl, f), λ h. cc (h.1, h.2))

  checked_name_iff :
      (c : Validated Str) (v : Str)
      → (checked_name codecs get m served c ≡ ok v)
        ↔ ((c ≡ ok v) × (decoded codecs (required codecs get m served header_name) ≡ ok v))
  checked_name_iff (err e) v = (λ f. cc f, λ h. cc h.0)
  checked_name_iff (ok name) v =
      let a =
        agreed_iff codecs header_name name
          (decoded codecs (required codecs get m served header_name)) v in
      (
        λ f. let (d, same) = a.0 f in (ap ok (sym same), d ∙ ap ok (sym same)),
        λ h. let same : name ≡ v = cc h.0 in a.1 (h.1 ∙ ap ok (sym same), sym same),
      )

  body_value_iff :
      (method field : Str) (o : Option Str) (v : Str)
      → (body_value codecs method field o ≡ ok v) ↔ (o ≡ some v)
  body_value_iff method field none v = (λ f. cc f, λ h. cc h)
  body_value_iff method field (some w) v = (λ f. cc f, λ h. cc h)

  pub name_of_iff :
      (method : Str) (field : Option Str) (name : Option Str)
      → (name_of codecs get m served method field ≡ ok name) ↔ NameAgrees field name
  name_of_iff method none name = (λ e. cc e, λ e. ap ok (sym e))
  name_of_iff method (some field) name = (found, back)
    where
      from : Option Str
      from = then_str (then_get m.params field)

      body : Validated Str
      body = body_value codecs method field from

      found :
          named codecs get m served (checked_name codecs get m served body) ≡ ok name
          → NameAgrees (some field) name
      found e =
          let (v, c, n) = (named_iff (checked_name codecs get m served body) name).0 e in
          let (b, d) = (checked_name_iff body v).0 c in
          let (raw, r, dec) = (decoded_iff (required codecs get m served header_name) v).0 d in
          (
            v,
            raw,
            n,
            (body_value_iff method field from v).0 b,
            (required_iff codecs header_name (get header_name) raw).0 r,
            dec,
          )

      back :
          NameAgrees (some field) name
          → named codecs get m served (checked_name codecs get m served body) ≡ ok name
      back (v, raw, n, b, is, dec) = (named_iff (checked_name codecs get m served body) name).1 (
        v,
        (checked_name_iff body v).1 (
          (body_value_iff method field from v).1 b,
          (decoded_iff (required codecs get m served header_name) v).1
              (raw, (required_iff codecs header_name (get header_name) raw).1 is, dec),
        ),
        n,
      )

  pub routed_iff :
      (version method : Str) (c : Validated (Option Str)) (r : Routing)
      → (routed codecs get m served version method c ≡ ok r)
        ↔ ((r.protocol_version ≡ version) × (r.method ≡ method) × (c ≡ ok r.name))
  routed_iff version method (err e) r = (λ f. cc f, λ h. cc h.2)
  routed_iff version method (ok name) r = (
    λ f.
        let same = ok-injective f in
        (
          ap (λ x. x.protocol_version) (sym same),
          ap (λ x. x.method) (sym same),
          ap (λ x. ok x.name) same,
        ),
    λ (p, q, n).
        let same = ok-injective n in
        λ i. ok record { protocol_version = sym p i; method = sym q i; name = same i },
  )

  pub with_method_iff :
      (version method : Str) (c : Validated Str) (r : Routing)
      → (with_method codecs get m served version method c ≡ ok r) ↔ (
          ((v : Str) × (c ≡ ok v))
          × (routed codecs get m served version method
                (name_of codecs get m served method (name_field method))
              ≡ ok r))
  with_method_iff version method (err e) r = (λ f. cc f, λ h. cc h.0.1)
  with_method_iff version method (ok v) r = (λ f. ((v, refl), f), λ h. h.1)

  pub check_served_iff :
      (version : Str) (c : Validated Str) (r : Routing)
      → (check_served codecs get m served version c ≡ ok r) ↔ (
          ((v : Str) × (c ≡ ok v))
          × (any (str_eq version) served ≡ true)
          × (check_method codecs get m served version m.method ≡ ok r))
  check_served_iff version (err e) r = (λ f. cc f, λ h. cc h.0.1)
  check_served_iff version (ok v) r = elim (Bool-cases (any (str_eq version) served)) [
    | inl e ↦ rw e (λ f. ((v, refl), refl, f), λ h. h.2)
    | inr e ↦ rw e (λ f. cc f, λ h. cc h.1)
  ]
