-- ===== src/Wire/Params.antt =====
-- The tool parameters that go into headers, sent and checked: `ParamHeader::value_in` and
-- `wire_value`, `param_header_values`, `validate_param_headers`, `same_value` and `same_number` of
-- crates/mcpdef-core/src/wire.rs.
pub mod Laws
use mathlib.Core.Option
use mcpdef.Prelude.{
  ℕ, ◌+◌, List, [], ◌∷◌, ◌++◌, Option, none, some, Bool, true, false, not, ◌&&◌, ◌||◌, ◌==◌, leb,
  if◌then◌else◌,
}
use mcpdef.Str.{Str, str, str_eq, is_some, to_ascii_lowercase}
use mcpdef.Str.Decimal.{decimal}
use mcpdef.Json.{Value, null, boolean, number, string, array, object, get_member, ℤ, pos, negsuc}
use mcpdef.Message.{Message, then_get}
use mcpdef.Message.Method
use mcpdef.Wire.{protocol_version, is_method}
use mcpdef.Wire.Headers.{
  Codecs, Validated, ok, err, header_mismatch, is_header_safe, encode_header_value,
  decode_header_value, mismatch,
}
use mcpdef.Wire.Schema.{ParamHeader, header_name, join_dots}

-- What is used of numbers of JSON and of the standard library's: a number as `i64` and `u64`, one
-- that is no such integer as the integer it is, up to 2^53 - 1, a text as `i128`, whether a text is
-- an integer as doubles, and whether it is a number as doubles.
pub record Numbers : Type 0 where
  pub as_i64 : Str → Option ℤ
  pub as_u64 : Str → Option ℕ
  pub integral : Str → Option ℤ
  pub parse_i128 : Str → Option ℤ
  pub is_double : Str → ℤ → Bool
  pub same_doubles : Str → Str → Bool
  pub to_text : Value → Str

-- `()`.
pub data Accepted : Type 0 where
  accepted : Accepted

abbrev pub is_null : Value → Bool
is_null null = true
is_null (boolean b) = false
is_null (number n) = false
is_null (string s) = false
is_null (array vs) = false
is_null (object ms) = false

-- `(!at.is_null()).then_some(at)`.
abbrev pub not_null : Value → Option Value
not_null v = if is_null v then none else some v

-- The loop over the path, and `?`.
abbrev pub at_path : List Str → Option Value → Option Value
at_path path none = none
at_path [] (some v) = not_null v
at_path (step ∷ path) (some v) = at_path path (get_member v step)

abbrev pub value_in : ParamHeader → Value → Option Value
value_in h arguments = at_path h.path (some arguments)

abbrev pub integer_text : ℤ → Str
integer_text (pos n) = decimal n
integer_text (negsuc n) = b'-' ∷ decimal (n + 1)

abbrev pub same_integer : ℤ → ℤ → Bool
same_integer (pos a) (pos b) = a == b
same_integer (negsuc a) (negsuc b) = a == b
same_integer (pos a) (negsuc b) = false
same_integer (negsuc a) (pos b) = false

-- At most 2^53 - 1, without its sign.
abbrev pub is_safe_integer : ℤ → Bool
is_safe_integer (pos n) = leb n 9007199254740991
is_safe_integer (negsuc n) = leb (n + 1) 9007199254740991

abbrev pub or_unsigned : Option ℤ → Option ℕ → Option ℤ
or_unsigned (some z) u = some z
or_unsigned none (some n) = some (pos n)
or_unsigned none none = none

abbrev pub or_null : Option Value → Value
or_null none = null
or_null (some v) = v

module _ (numbers : Numbers) where
  abbrev pub number_text : Str → Bool → Option ℤ → Str
  number_text n true z = n
  number_text n false none = n
  number_text n false (some z) = integer_text z

  unfoldable pub wire_value : Value → Option Str
  wire_value (string s) = some s
  wire_value (boolean b) = some (if b then str "true" else str "false")
  wire_value (number n) = some (
      number_text n (is_some (numbers.as_i64 n) || is_some (numbers.as_u64 n)) (numbers.integral n))
  wire_value null = none
  wire_value (array vs) = none
  wire_value (object ms) = none

  abbrev pub same_exact : Str → ℤ → Option ℤ → Bool
  same_exact header body (some h) = same_integer body h
  same_exact header body none = is_safe_integer body && numbers.is_double header body

  abbrev pub same_as : Str → Str → Option ℤ → Bool
  same_as header n (some body) = same_exact header body (numbers.parse_i128 header)
  same_as header n none = numbers.same_doubles header n

  unfoldable pub same_number : Str → Str → Bool
  same_number header n = same_as header n (or_unsigned (numbers.as_i64 n) (numbers.as_u64 n))

  -- `is_some_and(|text| text == header)`.
  abbrev pub is_text : Option Str → Str → Bool
  is_text none header = false
  is_text (some t) header = str_eq t header

  unfoldable pub same_value : Str → Value → Bool
  unfolding same_number wire_value str_eq
  same_value header (number n) = same_number header n
  same_value header null = is_text (wire_value null) header
  same_value header (boolean b) = is_text (wire_value (boolean b)) header
  same_value header (string s) = is_text (wire_value (string s)) header
  same_value header (array vs) = is_text (wire_value (array vs)) header
  same_value header (object ms) = is_text (wire_value (object ms)) header

  abbrev pub wire_of : Option Value → Option Str
  wire_of none = none
  wire_of (some v) = wire_value v

  module _ (codecs : Codecs) where
    abbrev pub header_of : ParamHeader → Option Str → List (Str × Str)
    header_of a none = []
    header_of a (some text) = (header_name a, encode_header_value codecs text) ∷ []

    -- The `filter_map`.
    abbrev pub headers_of : Value → List ParamHeader → List (Str × Str)
    headers_of args [] = []
    headers_of args (a ∷ annotations) =
        header_of a (wire_of (value_in a args)) ++ headers_of args annotations

    abbrev pub headers_from : Option Value → List ParamHeader → List (Str × Str)
    headers_from none annotations = []
    headers_from (some args) annotations = headers_of args annotations

    -- (Without annotations there are no headers either way.)
    unfoldable pub param_header_values : Message → List ParamHeader → List (Str × Str)
    unfolding protocol_version encode_header_value str_eq get_member to_ascii_lowercase
    param_header_values m annotations =
        if not (is_method m Method.tools_call) || not (is_some (protocol_version m))
        then []
        else headers_from (then_get m.params (str "arguments")) annotations

    abbrev pub mapped_some : Validated Str → Validated (Option Str)
    mapped_some (ok v) = ok (some v)
    mapped_some (err e) = err e

    -- What the header said, decoded.
    abbrev pub sent : Str → Option Str → Validated (Option Str)
    sent name none = ok none
    sent name (some raw) =
        if not (is_header_safe raw)
        then err (
            header_mismatch
              (str "header " ++ (name ++ str " contains characters a header value cannot carry")))
        else mapped_some (decode_header_value codecs raw)

    -- The argument, if a header can carry it.
    abbrev pub carried : Option Value → Option Value
    carried none = none
    carried (some v) = if is_some (wire_value v) then some v else none

    abbrev pub text_or_empty : Option Str → Str
    text_or_empty none = []
    text_or_empty (some t) = t

    -- The four ways the body and the header can stand to each other.
    abbrev pub reconcile : Str → Str → Option Value → Validated (Option Str) → Validated Accepted
    reconcile name argument body (err e) = err e
    reconcile name argument none (ok none) = ok accepted
    reconcile name argument (some body) (ok (some header)) =
        if not (same_value header body)
        then err (mismatch codecs name header (text_or_empty (wire_value body)))
        else ok accepted
    reconcile name argument (some body) (ok none) = err (
        header_mismatch (
          str "the body carries the annotated argument "
          ++ (codecs.debug argument
              ++ (str " as "
                  ++ (numbers.to_text body
                      ++ (str ", so a matching " ++ (name ++ str " header is required")))))))
    reconcile name argument none (ok (some header)) = err (
        header_mismatch (
          str "header "
          ++ (name
              ++ (str " claims "
                  ++ (codecs.debug header
                      ++ (str ", but the body carries no "
                          ++ (codecs.debug argument ++ str " argument a header can carry")))))))

    abbrev pub then_check : Validated Accepted → Validated Accepted → Validated Accepted
    then_check (err e) rest = err e
    then_check (ok u) rest = rest

    abbrev pub check_each : (Str → Option Str) → Value → List ParamHeader → Validated Accepted
    check_each get args [] = ok accepted
    check_each get args (a ∷ annotations) =
        then_check
          (reconcile (header_name a) (join_dots a.path) (carried (value_in a args))
            (sent (header_name a) (get (header_name a))))
          (check_each get args annotations)

    unfoldable pub validate_param_headers :
        Message → (Str → Option Str) → List ParamHeader → Validated Accepted
    unfolding same_value decode_header_value is_header_safe get_member to_ascii_lowercase
    validate_param_headers m get annotations =
        check_each get (or_null (then_get m.params (str "arguments"))) annotations
