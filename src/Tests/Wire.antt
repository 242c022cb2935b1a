-- ===== src/Tests/Wire.antt =====
-- The newer revision's metadata, headers and interim results of crates/mcpdef-core/src/wire.rs at
-- concrete messages, with a Base64 that keeps texts as they are.
use mcpdef.Prelude.{true, false, [], ◌∷◌, ◌≡◌, ◌≢◌, ◌↔◌, inl, refl, none, some, In, subst}
use mcpdef.Str.{str, str_eq, is_empty, is_ascii_alphanumeric}
use mcpdef.Json.{Value, string, object, null, Members, no_members, member, find_member, get_member}
use mcpdef.Message.{Message, num, request, is_request, then_get}
use mcpdef.Json.{pos}
use mcpdef.Wire.{
  protocol_version, client_info, client_capabilities, meta_version, meta, name_field,
  known_spec_versions, spec_2026_07_28,
}
use mcpdef.Wire.Meta.{stamp_request_offering, strip_modern_meta, or_object}
use mcpdef.Wire.Meta.Laws.{protocol_version-stamp}
use mcpdef.Wire.Meta.Strip.{IsWellFormed, Strips, then_get-strip}
use mcpdef.Wire.Headers.{
  Codecs, bytes, ok, Routing, is_header_safe, encode_header_value, decode_header_value,
  validate_headers,
}
use mcpdef.Wire.Headers.Codec.{decode-encode_header_value}
use mcpdef.Wire.Headers.Laws.{Accepts}
use mcpdef.Wire.Headers.Agreement.{Carries, sent, validate_headers_iff, validate-mirrored_headers}
use mcpdef.Wire.Schema.{ParamHeader, walked, walk_schema, param_headers}
use mcpdef.Wire.Schema.Found.{FoundIn}
use mcpdef.Wire.Schema.Distinct.{Distinct, param_headers-FoundIn}
use mcpdef.Json.Laws.{IsObject}
use mcpdef.Str.Laws.{str_eq_iff}
use mcpdef.Message.Method
use mcpdef.Str.Decimal.{decimal}
use mcpdef.Json.{number}
use mcpdef.Prelude.{List, All, eq-false_iff, if◌then◌else◌, true, false}
use mcpdef.Str.{to_ascii_lowercase}
use mcpdef.Table.{get, str_key}
use mcpdef.Wire.{is_method}
use mcpdef.Wire.Params.{
  Numbers, accepted, wire_value, wire_of, value_in, param_header_values, validate_param_headers,
}
use mcpdef.Wire.Params.Laws.{
  ReadsNumber, ReadsArgument, Sendable, arguments, validate-param_header_values,
}
use mcpdef.Wire.Replies.{unanswerable_input}
use mcpdef.Wire.Replies.Laws.{Answerable, unanswerable_input_iff}

abbrev plain : Codecs
plain = record {
  encode64 = λ s. s;
  decode64 = λ s. bytes s;
  from_utf8 = λ b. some b;
  debug = λ s. s;
}

abbrev call : Message
call =
    request (num (pos 1)) (str "tools/call")
      (some (object (member (str "name") (string (str "drop")) no_members)))

asks : is_request call ≡ true
unfolding is_request
asks = refl

no_meta :
    or_object (find_member (member (str "name") (string (str "drop")) no_members) (str "_meta"))
    ≡ object no_members
unfolding str_eq find_member
no_meta = refl

protocol_version-stamp_example :
    (protocol_version (stamp_request_offering call (str "1") null null) ≡ some (str "1"))
    × (client_info (stamp_request_offering call (str "1") null null) ≡ some null)
    × (client_capabilities (stamp_request_offering call (str "1") null null) ≡ some null)
protocol_version-stamp_example =
    protocol_version-stamp call (str "1") null null asks
      (member (str "name") (string (str "drop")) no_members, no_members, refl, no_meta)

abbrev modern : Message
modern = request (num (pos 1)) (str "tools/call") (
    some (
      object (
        member (str "name") (string (str "drop")) (
          member (str "_meta") (object (member meta_version (string spec_2026_07_28) no_members))
            no_members))))

abbrev routed : Routing
routed = record {
  protocol_version = spec_2026_07_28;
  method = str "tools/call";
  name = some (str "drop");
}

modern_run : protocol_version modern ≡ some spec_2026_07_28
unfolding protocol_version str_eq get_member
modern_run = refl

decode-encode_header_value_example :
    decode_header_value plain (encode_header_value plain (str " drop")) ≡ ok (str " drop")
decode-encode_header_value_example =
    decode-encode_header_value plain (str " drop") (str " drop", refl, refl)

version_safe : is_header_safe spec_2026_07_28 ≡ true
unfolding is_header_safe
version_safe = refl

method_safe : is_header_safe (str "tools/call") ≡ true
unfolding is_header_safe
method_safe = refl

drop-Carries : Carries plain modern (name_field (str "tools/call")) (some (str "drop"))
unfolding name_field str_eq get_member is_header_safe
drop-Carries = (str "drop", refl, refl, (str "drop", refl, refl), refl)

validate-mirrored_headers_example :
    validate_headers plain (sent plain modern) modern known_spec_versions ≡ ok routed
validate-mirrored_headers_example =
    validate-mirrored_headers plain modern spec_2026_07_28 (str "tools/call") modern_run refl
      known_spec_versions (some (str "drop")) (inl refl) version_safe method_safe drop-Carries

validate_headers_iff_example :
    (validate_headers plain (sent plain modern) modern known_spec_versions ≡ ok routed)
    ↔ Accepts plain (sent plain modern) modern known_spec_versions routed
validate_headers_iff_example =
    validate_headers_iff plain (sent plain modern) modern known_spec_versions routed

abbrev schema : Value
schema = object (
    member (str "properties")
      (object (
        member (str "region")
          (object (
            member (str "type") (string (str "string"))
              (member (str "x-mcp-header") (string (str "Region")) no_members)))
          no_members))
      no_members)

abbrev region : ParamHeader
region = record { name = str "Region"; path = str "region" ∷ [] }

schema_run : param_headers schema ≡ walked (region ∷ [])
unfolding param_headers walk_schema is_empty is_ascii_alphanumeric
schema_run = refl

param_headers-FoundIn_example :
    ((h : ParamHeader) → In h (region ∷ []) → FoundIn schema [] h) × Distinct (region ∷ [])
param_headers-FoundIn_example = param_headers-FoundIn schema (region ∷ []) schema_run

-- An elicitation of a URL, for a client that declares it.
abbrev interim : Value
interim = object (
    member (str "inputRequests")
      (object (
        member (str "a")
          (object (
            member (str "method") (string (str "elicitation/create")) (
              member (str "params") (object (member (str "mode") (string (str "url")) no_members))
                no_members)))
          no_members))
      no_members)

abbrev declared : Value
declared = object (
    member (str "elicitation") (object (member (str "url") (object no_members) no_members))
      no_members)

unanswerable_input_iff_example :
    (unanswerable_input interim declared ≡ none) ↔ Answerable interim declared
unanswerable_input_iff_example = unanswerable_input_iff interim declared

unanswerable_input_run : unanswerable_input interim declared ≡ none
unfolding unanswerable_input
unanswerable_input_run = refl

object-injective : {a b : Members} → some (object a) ≡ some (object b) → a ≡ b
object-injective h = cc h

modern-IsWellFormed : IsWellFormed modern
unfolding get_member find_member str_eq
modern-IsWellFormed = (
  λ params e. subst IsObject (object-injective e) (refl, (refl, tt)),
  λ metas e. subst IsObject (object-injective e) (refl, tt),
)

then_get-strip_example :
    Strips (meta modern) (meta (strip_modern_meta modern)) meta_version
    × (meta_version ≢ str "_meta"
        → then_get (strip_modern_meta modern).params meta_version
          ≡ then_get modern.params meta_version)
then_get-strip_example = then_get-strip modern meta_version modern-IsWellFormed

-- `5` is an integer of 64 bits, `5.0` is one as a double.
abbrev numbers : Numbers
numbers = record {
  as_i64 = λ n. if str_eq n (str "5") then some (pos 5) else none;
  as_u64 = λ n. none;
  integral = λ n. some (pos 5);
  parse_i128 = λ n. if str_eq n (str "5") then some (pos 5) else none;
  is_double = λ n z. false;
  same_doubles = λ s n. true;
  to_text = λ v. str "value";
}

abbrev count : ParamHeader
count = record { name = str "Count"; path = str "count" ∷ [] }

abbrev ratio : ParamHeader
ratio = record { name = str "Ratio"; path = str "ratio" ∷ [] }

abbrev located : Message
located = request (num (pos 1)) (str "tools/call") (
    some (
      object (
        member (str "arguments")
          (object (
            member (str "region") (string (str "eu")) (
              member (str "count") (number (str "5"))
                (member (str "ratio") (number (str "5.0")) no_members))))
          (member (str "_meta") (object (member meta_version (string spec_2026_07_28) no_members))
            no_members))))

located_run : protocol_version located ≡ some spec_2026_07_28
unfolding protocol_version str_eq get_member
located_run = refl

located_call : is_method located Method.tools_call ≡ true
unfolding str_eq
located_call = refl

abbrev three : List ParamHeader
three = region ∷ count ∷ ratio ∷ []

three-Distinct : Distinct three
unfolding to_ascii_lowercase str_eq
three-Distinct = (
  ((eq-false_iff _ (str_eq_iff _ _)).0 refl, ((eq-false_iff _ (str_eq_iff _ _)).0 refl, tt)),
  (((eq-false_iff _ (str_eq_iff _ _)).0 refl, tt), (tt, tt)),
)

five-ReadsNumber : ReadsNumber numbers plain (str "5")
unfolding str_eq
five-ReadsNumber = record {
  signed = λ z e. e;
  unsigned = λ k e f. cc e;
  rounded = λ z e f g. refl;
  kept = λ e f g. refl;
}

ratio-ReadsNumber : ReadsNumber numbers plain (str "5.0")
unfolding str_eq
ratio-ReadsNumber = record {
  signed = λ z e. e;
  unsigned = λ k e f. cc f;
  rounded = λ z e f g. refl;
  kept = λ e f g. refl;
}

located-ReadsArgument :
    All (λ a. ReadsArgument numbers plain (value_in a (arguments numbers plain located))) three
unfolding str_eq get_member
located-ReadsArgument = (tt, (five-ReadsNumber, (ratio-ReadsNumber, tt)))

located-Sendable :
    All
      (λ a. Sendable numbers plain (wire_of numbers (value_in a (arguments numbers plain located))))
      three
unfolding wire_value str_eq get_member is_header_safe decimal
located-Sendable = (
  ((str "eu", refl, refl), refl),
  (((str "5", refl, refl), refl), (((str "5", refl, refl), refl), tt)),
)

validate-param_header_values_example :
    validate_param_headers numbers plain located
      (get (param_header_values numbers plain located three))
      three
    ≡ ok accepted
validate-param_header_values_example =
    validate-param_header_values numbers plain located spec_2026_07_28 three located_run
      located_call three-Distinct located-ReadsArgument located-Sendable
