-- ===== src/Wire/Headers.antt =====
-- The headers that mirror a request: `validate_headers`, `required`, `mirrored_headers`, the
-- encoding of a header's value, `Routing` and `WireError` of crates/mcpdef-core/src/wire.rs.
pub mod Codec
pub mod Laws
pub mod Agreement
use mcpdef.Prelude.{
  ℕ, List, [], ◌∷◌, ◌++◌, Option, none, some, Bool, true, false, not, ◌&&◌, ◌||◌, all, any, ◌==◌,
  leb, if◌then◌else◌,
}
use mcpdef.Str.{Str, str, str_eq, is_some, strip_prefix, strip_suffix, starts_with}
use mcpdef.Json.{Value, get_member, ℤ, negsuc}
use mcpdef.Message.{Message, then_get, then_str}
use mcpdef.Wire.{
  header_version, header_method, header_name, meta_version, protocol_version, name_field,
  name_value,
}

abbrev pub sentinel_open : Str
sentinel_open = str "=?base64?"

abbrev pub sentinel_close : Str
sentinel_close = str "?="

pub record Routing : Type 0 where
  pub protocol_version : Str
  pub method : Str
  pub name : Option Str

pub data WireError : Type 0 where
  header_mismatch : Str → WireError
  unsupported_protocol_version : (requested : Str) (supported : List Str) → WireError

-- `Result<_, WireError>`.
pub data Validated {ℓ} (A : Type ℓ) : Type ℓ where
  ok : A → Validated A
  err : WireError → Validated A

-- What a Base64 decoder answers: bytes, or the error's text.
pub data Bytes : Type 0 where
  bytes : List ℕ → Bytes
  no_base64 : Str → Bytes

-- What is used of other crates and of the standard library: Base64 of a text's UTF-8, the decoder,
-- the reading of UTF-8, and a text as `{:?}` writes it.
pub record Codecs : Type 0 where
  pub encode64 : Str → Str
  pub decode64 : Str → Bytes
  pub from_utf8 : List ℕ → Option Str
  pub debug : Str → Str

-- A character of a header's value. The source reads bytes: those of a character above U+007F are
-- above 0x7f.
abbrev pub is_safe_char : ℕ → Bool
is_safe_char c = (leb 32 c && leb c 126) || c == 9

unfoldable pub is_header_safe : Str → Bool
is_header_safe v = all is_safe_char v

abbrev pub is_blank_char : ℕ → Bool
is_blank_char c = c == 32 || c == 9

-- `starts_with([' ', '\t'])` and `ends_with([' ', '\t'])`.
abbrev pub starts_blank : Str → Bool
starts_blank [] = false
starts_blank (c ∷ s) = is_blank_char c

abbrev pub ends_blank : Str → Bool
ends_blank [] = false
ends_blank (c ∷ []) = is_blank_char c
ends_blank (c ∷ d ∷ s) = ends_blank (d ∷ s)

-- `ends_with` a text.
abbrev pub ends_with : Str → Str → Bool
ends_with q s = is_some (strip_suffix q s)

unfoldable pub needs_encoding : Str → Bool
unfolding is_header_safe
needs_encoding v =
    not (is_header_safe v)
    || starts_blank v
    || ends_blank v
    || (starts_with sentinel_open v && ends_with sentinel_close v)

-- `then` of a prefix and a suffix stripped.
abbrev pub inner_of : Option Str → Option Str
inner_of none = none
inner_of (some rest) = strip_suffix sentinel_close rest

module _ (codecs : Codecs) where
  unfoldable pub encode_header_value : Str → Str
  unfolding needs_encoding
  encode_header_value v =
      if needs_encoding v then sentinel_open ++ (codecs.encode64 v ++ sentinel_close) else v

  abbrev pub decoded_text : Option Str → Validated Str
  decoded_text (some text) = ok text
  decoded_text none = err (header_mismatch (str "a =?base64? header value is not valid UTF-8"))

  abbrev pub decoded_bytes : Bytes → Validated Str
  decoded_bytes (bytes b) = decoded_text (codecs.from_utf8 b)
  decoded_bytes (no_base64 e) =
      err (header_mismatch (str "a =?base64? header value is not valid Base64: " ++ e))

  abbrev pub decoded_inner : Str → Option Str → Validated Str
  decoded_inner v none = ok v
  decoded_inner v (some inner) = decoded_bytes (codecs.decode64 inner)

  unfoldable pub decode_header_value : Str → Validated Str
  unfolding strip_prefix strip_suffix
  decode_header_value v = decoded_inner v (inner_of (strip_prefix sentinel_open v))

  abbrev pub mismatch : Str → Str → Str → WireError
  mismatch name header_value body_value = header_mismatch (
      str "header "
      ++ (name
          ++ (str " value "
              ++ (codecs.debug header_value
                  ++ (str " does not match body value " ++ codecs.debug body_value)))))

  abbrev pub required_value : Str → Option Str → Validated Str
  required_value name none =
      err (header_mismatch (str "required header " ++ (name ++ str " is missing")))
  required_value name (some v) =
      if not (is_header_safe v)
      then err (
          header_mismatch
            (str "header " ++ (name ++ str " contains characters a header value cannot carry")))
      else ok v

  -- A header's value against the body's.
  abbrev pub agreed : Str → Str → Validated Str → Validated Str
  agreed name body (err e) = err e
  agreed name body (ok v) = if not (str_eq v body) then err (mismatch name v body) else ok body

  -- `?` on a decoded value.
  abbrev pub decoded : Validated Str → Validated Str
  decoded (err e) = err e
  decoded (ok raw) = decode_header_value raw

  abbrev pub body_value : Str → Str → Option Str → Validated Str
  body_value method field (some v) = ok v
  body_value method field none =
      err (header_mismatch (str "a " ++ (method ++ (str " request must carry params." ++ field))))

  abbrev pub body_name : Message → Str → Str → Validated Str
  body_name m method field = body_value method field (then_str (then_get m.params field))

  module _ (get : Str → Option Str) (m : Message) (served : List Str) where
    abbrev pub required : Str → Validated Str
    required name = required_value name (get name)

    abbrev pub named : Validated Str → Validated (Option Str)
    named (err e) = err e
    named (ok name) = ok (some name)

    -- The name in the body against the header's.
    abbrev pub checked_name : Validated Str → Validated Str
    checked_name (err e) = err e
    checked_name (ok name) = agreed header_name name (decoded (required header_name))

    abbrev pub name_of : Str → Option Str → Validated (Option Str)
    name_of method none = ok none
    name_of method (some field) = named (checked_name (body_name m method field))

    abbrev pub routed : Str → Str → Validated (Option Str) → Validated Routing
    routed version method (err e) = err e
    routed version method (ok name) =
        ok record { protocol_version = version; method = method; name = name }

    abbrev pub with_method : Str → Str → Validated Str → Validated Routing
    with_method version method (err e) = err e
    with_method version method (ok v) = routed version method (name_of method (name_field method))

    abbrev pub check_method : Str → Option Str → Validated Routing
    check_method version none = err (header_mismatch (str "the request body carries no method"))
    check_method version (some method) =
        with_method version method (agreed header_method method (required header_method))

    -- `served.contains`.
    abbrev pub check_served : Str → Validated Str → Validated Routing
    check_served version (err e) = err e
    check_served version (ok v) =
        if not (any (str_eq version) served)
        then err (unsupported_protocol_version version served)
        else check_method version m.method

    abbrev pub check_version : Option Str → Validated Routing
    check_version none = err (
        header_mismatch
          (str "the request body carries no " ++ (meta_version ++ str " in params._meta")))
    check_version (some version) =
        check_served version (agreed header_version version (required header_version))

    unfoldable pub validate_headers : Validated Routing
    unfolding protocol_version name_field str_eq is_header_safe decode_header_value
    validate_headers = check_version (protocol_version m)

  abbrev pub named_header : Option Str → List (Str × Str)
  named_header none = []
  named_header (some name) = (header_name, encode_header_value name) ∷ []

  abbrev pub method_headers : Message → Option Str → List (Str × Str)
  method_headers m none = []
  method_headers m (some method) =
      (header_method, method)
      ∷ (if is_some (name_field method) then named_header (name_value m) else [])

  abbrev pub version_headers : Message → Option Str → List (Str × Str)
  version_headers m none = []
  version_headers m (some version) = (header_version, version) ∷ method_headers m m.method

  unfoldable pub mirrored_headers : Message → List (Str × Str)
  unfolding protocol_version name_value encode_header_value
  mirrored_headers m = version_headers m (protocol_version m)

-- `code`, `http_status`.
unfoldable pub code : WireError → ℤ
code (header_mismatch why) = negsuc 32019
code (unsupported_protocol_version requested supported) = negsuc 32021

abbrev pub http_status : WireError → ℕ
http_status e = 400
