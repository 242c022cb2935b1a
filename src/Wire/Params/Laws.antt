-- ===== src/Wire/Params/Laws.antt =====
-- The parameter headers that MCPdef sends for a call are accepted with the call.
use mathlib.Core.Option
use mcpdef.Prelude.{
  some-injective, ℕ, arith, List, [], ◌∷◌, ◌++◌, Option, none, some, true, false, ◌≡◌, ◌≢◌, inl,
  inr, refl, sym, ap, ◌∙◌, subst, drop, All, All-In, In, Option-cases, eq-false_iff, if◌then◌else◌,
}
use mcpdef.Str.{Str, str, str_eq, to_ascii_lowercase}
use mcpdef.Str.Laws.{str_eq_iff, str_eq_self}
use mcpdef.Table.{get, str_key}
use mcpdef.Json.{Value, null, boolean, number, string, array, object, get_member, ℤ, pos, negsuc}
use mcpdef.Message.{Message, then_get}
use mcpdef.Message.Method
use mcpdef.Wire.{protocol_version, is_method}
use mcpdef.Wire.Headers.{Codecs, ok, is_header_safe, encode_header_value}
use mcpdef.Wire.Headers.Codec.{RoundTrips, decode-encode_header_value, encode_header_value-safe}
use mcpdef.Wire.Schema.{ParamHeader, header_name, join_dots}
use mcpdef.Wire.Schema.Distinct.{Distinct}
use mcpdef.Wire.Params.{
  Numbers, accepted, at_path, value_in, wire_value, same_number, same_value, same_as, same_integer,
  integer_text, or_unsigned, wire_of, header_of, headers_of, headers_from, param_header_values,
  sent, carried, reconcile, then_check, check_each, or_null, validate_param_headers,
}

at_path-null : (path : List Str) → at_path path (some null) ≡ none
unfolding get_member
at_path-null [] = refl
at_path-null (step ∷ path) = refl

names_apart :
    (a b : ParamHeader)
    → to_ascii_lowercase a.name ≢ to_ascii_lowercase b.name
    → str_eq (header_name a) (header_name b) ≡ false
names_apart a b d =
    (eq-false_iff _ (str_eq_iff (header_name a) (header_name b))).1 (λ e. d (ap (drop 10) e))

module _ (numbers : Numbers) (codecs : Codecs) where
  -- What is relied on of a number of JSON: where it is an `i64` or a `u64`, its text reads as that
  -- `i128`; where it is neither but an integer up to 2^53 - 1, that integer's text reads as the same
  -- double; and otherwise its own text does.
  pub record ReadsNumber (n : Str) : Type 0 where
    pub signed : (z : ℤ) → numbers.as_i64 n ≡ some z → numbers.parse_i128 n ≡ some z
    pub unsigned :
        (k : ℕ)
        → numbers.as_i64 n ≡ none
        → numbers.as_u64 n ≡ some k
        → numbers.parse_i128 n ≡ some (pos k)
    pub rounded :
        (z : ℤ)
        → numbers.as_i64 n ≡ none
        → numbers.as_u64 n ≡ none
        → numbers.integral n ≡ some z
        → numbers.same_doubles (integer_text z) n ≡ true
    pub kept :
        numbers.as_i64 n ≡ none
        → numbers.as_u64 n ≡ none
        → numbers.integral n ≡ none
        → numbers.same_doubles n n ≡ true

  -- The same of an argument, where it is a number.
  abbrev pub ReadsArgument : Option Value → Type 0
  ReadsArgument none = Unit
  ReadsArgument (some null) = Unit
  ReadsArgument (some (boolean b)) = Unit
  ReadsArgument (some (number n)) = ReadsNumber n
  ReadsArgument (some (string s)) = Unit
  ReadsArgument (some (array vs)) = Unit
  ReadsArgument (some (object ms)) = Unit

  -- The text can be sent in a header: Base64 reads back what it wrote of it.
  abbrev pub Sendable : Option Str → Type 0
  Sendable none = Unit
  Sendable (some t) = RoundTrips codecs t × (is_header_safe (codecs.encode64 t) ≡ true)

  same_integer_self : (z : ℤ) → same_integer z z ≡ true
  same_integer_self (pos n) = ground arith
  same_integer_self (negsuc n) = ground arith

  -- A number in a header is the same number.
  same_number-wire :
      (n t : Str)
      → ReadsNumber n
      → wire_value numbers (number n) ≡ some t
      → same_number numbers t n ≡ true
  unfolding wire_value same_number
  same_number-wire n t reads e = elim (Option-cases (numbers.as_i64 n)) [
    | inr (z, i) ↦
        let own : n ≡ t = some-injective (rw i at e) in
        subst (λ x. same_as numbers x n (or_unsigned (numbers.as_i64 n) (numbers.as_u64 n)) ≡ true)
          own (rw (i, reads.signed z i) (same_integer_self z))
    | inl i ↦ elim (Option-cases (numbers.as_u64 n)) [
      | inr (k, u) ↦
          let own : n ≡ t = some-injective (rw (i, u) at e) in
          subst
            (λ x. same_as numbers x n (or_unsigned (numbers.as_i64 n) (numbers.as_u64 n)) ≡ true)
            own (rw (i, u, reads.unsigned k i u) (same_integer_self (pos k)))
      | inl u ↦ elim (Option-cases (numbers.integral n)) [
        | inr (z, f) ↦
            let own : integer_text z ≡ t = some-injective (rw (i, u, f) at e) in
            rw (i, u) (subst (λ x. numbers.same_doubles x n ≡ true) own (reads.rounded z i u f))
        | inl f ↦
            let own : n ≡ t = some-injective (rw (i, u, f) at e) in
            rw (i, u) (subst (λ x. numbers.same_doubles x n ≡ true) own (reads.kept i u f))
      ]
    ]
  ]

  same_value-wire :
      (v : Value) (t : Str)
      → ReadsArgument (some v)
      → wire_value numbers v ≡ some t
      → same_value numbers t v ≡ true
  unfolding wire_value same_value
  same_value-wire (number n) t reads e = same_number-wire n t reads e
  same_value-wire (string s) t reads e = (str_eq_iff s t).1 (cc e)
  same_value-wire (boolean b) t reads e =
      (str_eq_iff (if b then str "true" else str "false") t).1 (cc e)
  same_value-wire null t reads e = cc e
  same_value-wire (array vs) t reads e = cc e
  same_value-wire (object ms) t reads e = cc e

  module _ (args : Value) where
    abbrev text_of : ParamHeader → Option Str
    text_of a = wire_of numbers (value_in a args)

    abbrev all_headers : List ParamHeader → List (Str × Str)
    all_headers hs = headers_of numbers codecs args hs

    get-absent :
        (h : ParamHeader) (hs : List ParamHeader)
        → All (λ g. to_ascii_lowercase h.name ≢ to_ascii_lowercase g.name) hs
        → get (all_headers hs) (header_name h) ≡ none
    unfolding get
    get-absent h [] d = refl
    get-absent h (g ∷ hs) (d, ds) = elim (Option-cases (text_of g)) [
      | inl e ↦ rw e (get-absent h hs ds)
      | inr (t, e) ↦ rw (e, names_apart h g d) (get-absent h hs ds)
    ]

    get-headers_of :
        (a : ParamHeader) (hs : List ParamHeader)
        → Distinct hs
        → In a hs
        → get (all_headers hs) (header_name a) ≡ Option.map (encode_header_value codecs) (text_of a)
    unfolding get
    get-headers_of a [] d within = absurd within
    get-headers_of a (h ∷ hs) (ds, distinct) (inl same) =
        subst
          (λ x.
            get (all_headers (h ∷ hs)) (header_name x)
            ≡ Option.map (encode_header_value codecs) (text_of x))
          same
          (elim (Option-cases (text_of h)) [
            | inl e ↦ rw e (get-absent h hs ds)
            | inr (t, e) ↦ rw (e, str_eq_self (header_name h)) refl
          ])
    get-headers_of a (h ∷ hs) (ds, distinct) (inr within) = elim (Option-cases (text_of h)) [
      | inl e ↦ rw e (get-headers_of a hs distinct within)
      | inr (t, e) ↦
          rw (e, names_apart a h (λ s. All-In _ hs ds within (sym s)))
            (get-headers_of a hs distinct within)
    ]

    reconcile-sent :
        (a : ParamHeader) (v : Option Value)
        → ReadsArgument v
        → Sendable (wire_of numbers v)
        → reconcile numbers codecs (header_name a) (join_dots a.path) (carried numbers codecs v) (
            sent numbers codecs
              (header_name a)
              (Option.map (encode_header_value codecs) (wire_of numbers v)))
          ≡ ok accepted
    reconcile-sent a none reads sendable = refl
    reconcile-sent a (some v) reads sendable = elim (Option-cases (wire_value numbers v)) [
      | inl e ↦ rw e refl
      | inr (t, e) ↦
          let (trips, safe) = subst Sendable e sendable in
          rw
            (
              e,
              encode_header_value-safe codecs t safe,
              decode-encode_header_value codecs t trips,
              same_value-wire v t reads e,
            )
            refl
    ]

    check_each-sent :
        (hs rest : List ParamHeader)
        → Distinct hs
        → ((a : ParamHeader) → In a rest → In a hs)
        → All (λ a. ReadsArgument (value_in a args)) rest
        → All (λ a. Sendable (text_of a)) rest
        → check_each numbers codecs (get (all_headers hs)) args rest ≡ ok accepted
    check_each-sent hs [] d sub reads sendable = refl
    check_each-sent hs (a ∷ rest) d sub (read, reads) (s, sendable) =
        ap
          (λ o.
            then_check numbers codecs
              (reconcile numbers codecs (header_name a) (join_dots a.path)
                (carried numbers codecs (value_in a args)) (sent numbers codecs (header_name a) o))
              (check_each numbers codecs (get (all_headers hs)) args rest))
          (get-headers_of a hs d (sub a (inl refl)))
        ∙ ap
            (λ o.
              then_check numbers codecs o
                (check_each numbers codecs (get (all_headers hs)) args rest))
            (reconcile-sent a (value_in a args) read s)
        ∙ check_each-sent hs rest d (λ b w. sub b (inr w)) reads sendable

  headers_of-null : (hs : List ParamHeader) → headers_of numbers codecs null hs ≡ []
  headers_of-null [] = refl
  headers_of-null (h ∷ hs) =
      ap (λ o. header_of numbers codecs h (wire_of numbers o) ++ headers_of numbers codecs null hs)
        (at_path-null h.path)
      ∙ headers_of-null hs

  headers_from-or_null :
      (o : Option Value) (hs : List ParamHeader)
      → headers_from numbers codecs o hs ≡ headers_of numbers codecs (or_null o) hs
  headers_from-or_null none hs = sym (headers_of-null hs)
  headers_from-or_null (some args) hs = refl

  -- The arguments of a call, none taken for `null`.
  abbrev pub arguments : Message → Value
  arguments m = or_null (then_get m.params (str "arguments"))

  -- The parameter headers that a call of the newer revision is sent with are accepted with it, for
  -- annotations that no two of are one header: if each number among the annotated arguments is read
  -- back from its text, and Base64 reads back what it wrote of each argument's text.
  pub validate-param_header_values :
      (m : Message) (version : Str) (hs : List ParamHeader)
      → protocol_version m ≡ some version
      → is_method m Method.tools_call ≡ true
      → Distinct hs
      → All (λ a. ReadsArgument (value_in a (arguments m))) hs
      → All (λ a. Sendable (wire_of numbers (value_in a (arguments m)))) hs
      → validate_param_headers numbers codecs m (get (param_header_values numbers codecs m hs)) hs
        ≡ ok accepted
  unfolding validate_param_headers param_header_values
  validate-param_header_values m version hs e called d reads sendable =
      rw (e, called)
        (ap (λ l. check_each numbers codecs (get l) (arguments m) hs)
            (headers_from-or_null (then_get m.params (str "arguments")) hs)
          ∙ check_each-sent (arguments m) hs hs d (λ a w. w) reads sendable)
