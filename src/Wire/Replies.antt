-- ===== src/Wire/Replies.antt =====
-- What a server's replies say: `is_modern_error`, `initialize_proves_modern`,
-- `discover_proves_modern`, `advertised_versions`, `input_required`, `input_capabilities` and
-- `unanswerable_input` of crates/mcpdef-core/src/wire.rs. The reading of a number as `i64` is a
-- parameter.
pub mod Declares
pub mod Laws
use mcpdef.Prelude.{
  List, [], ◌∷◌, ◌++◌, Option, none, some, Bool, true, false, not, ◌&&◌, ◌||◌, any, if◌then◌else◌,
}
use mcpdef.Str.{Str, str, str_eq, is_some}
use mcpdef.Json.{
  Value, null, boolean, number, string, array, object, Values, no_values, value, Members,
  no_members, member, insert_member, find_member, get_member, as_str, as_object, as_array, ℤ, pos,
  negsuc,
}
use mcpdef.Message.{Message, then_get, then_str}
use mcpdef.Message.Method
use mcpdef.Wire.{protocol_version, client_capabilities}
use mcpdef.Wire.Params.{same_integer}

-- The error codes.
abbrev pub method_not_found : ℤ
method_not_found = negsuc 32600

abbrev pub header_mismatch_code : ℤ
header_mismatch_code = negsuc 32019

abbrev pub unsupported_version_code : ℤ
unsupported_version_code = negsuc 32021

-- `and_then(Value::as_i64)` against some codes.
abbrev pub is_code : (Str → Option ℤ) → Option Value → List ℤ → Bool
is_code as_i64 none codes = false
is_code as_i64 (some (number n)) codes = elim (as_i64 n) [
  | none ↦ false
  | some z ↦ any (same_integer z) codes
]
is_code as_i64 (some null) codes = false
is_code as_i64 (some (boolean b)) codes = false
is_code as_i64 (some (string s)) codes = false
is_code as_i64 (some (array vs)) codes = false
is_code as_i64 (some (object ms)) codes = false

unfoldable pub is_modern_error : (Str → Option ℤ) → Message → Bool
unfolding get_member
is_modern_error as_i64 m =
    is_code as_i64 (then_get m.error (str "code"))
      (header_mismatch_code ∷ unsupported_version_code ∷ method_not_found ∷ [])

unfoldable pub initialize_proves_modern : (Str → Option ℤ) → Message → Bool
unfolding is_modern_error
initialize_proves_modern as_i64 reply = is_modern_error as_i64 reply

unfoldable pub discover_proves_modern : (Str → Option ℤ) → Message → Bool
unfolding get_member
discover_proves_modern as_i64 reply =
    not (is_some reply.error)
    || is_code as_i64 (then_get reply.error (str "code"))
        (unsupported_version_code ∷ header_mismatch_code ∷ [])

-- The strings of an array.
abbrev pub strings : Values → List Str
strings no_values = []
strings (value (string s) rest) = s ∷ strings rest
strings (value null rest) = strings rest
strings (value (boolean b) rest) = strings rest
strings (value (number n) rest) = strings rest
strings (value (array vs) rest) = strings rest
strings (value (object ms) rest) = strings rest

abbrev pub or_else : Option Value → Option Value → Option Value
or_else (some v) o = some v
or_else none o = o

abbrev pub then_strings : Option Value → List Str
then_strings none = []
then_strings (some v) = elim (as_array v) [ none ↦ [] | some vs ↦ strings vs ]

unfoldable pub advertised_versions : Message → List Str
unfolding get_member
advertised_versions m = then_strings (
    or_else (then_get (then_get m.error (str "data")) (str "supported"))
      (then_get m.result (str "supportedVersions")))

-- `== Some(text)`.
abbrev pub is_string : Option Str → Str → Bool
is_string none t = false
is_string (some s) t = str_eq s t

unfoldable pub input_required : Value → Bool
unfolding get_member str_eq
input_required result =
    is_string (then_str (get_member result (str "resultType"))) (str "input_required")

abbrev pub offer : Str → Option Value → Members → Members
offer key none offered = offered
offer key (some v) offered = insert_member offered key v

-- The loop over the three capabilities.
abbrev pub offer_each : Members → List Str → Members → Members
offer_each declared [] offered = offered
offer_each declared (key ∷ keys) offered =
    offer_each declared keys (offer key (find_member declared key) offered)

abbrev pub offered_of : Option Value → Members
offered_of none = no_members
offered_of (some v) = elim (as_object v) [
  | none ↦ no_members
  | some declared ↦
      offer_each declared (str "elicitation" ∷ str "sampling" ∷ str "roots" ∷ []) no_members
]

unfoldable pub input_capabilities : Message → Value
unfolding protocol_version client_capabilities insert_member find_member
input_capabilities m =
    object (if is_some (protocol_version m) then offered_of (client_capabilities m) else no_members)

-- The elicitation's mode is `url`.
abbrev pub in_url_mode : Value → Bool
in_url_mode request =
    is_string (then_str (then_get (get_member request (str "params")) (str "mode"))) (str "url")

abbrev pub elicits : Bool → Option Value → Bool
elicits url none = false
elicits url (some modes) =
    if url
    then is_some (get_member modes (str "url"))
    else is_some (get_member modes (str "form")) || not (is_some (get_member modes (str "url")))

abbrev pub undeclared : Str → Str → Value → Bool → Option Str
undeclared key method request true = none
undeclared key method request false = some (
    str "its input request '"
    ++ (key
        ++ (str "' is `"
            ++ (method
                ++ (str "`"
                    ++ ((if str_eq method Method.elicitation_create && in_url_mode request
                          then str " in URL mode"
                          else [])
                        ++ str ", which the client did not declare it can answer"))))))

-- One request, by its method.
abbrev pub refuse_request : Value → Str → Value → Option Str → Option Str
refuse_request capabilities key request none =
    some (str "its input request '" ++ (key ++ str "' names no method"))
refuse_request capabilities key request (some method) =
    if str_eq method Method.elicitation_create
    then undeclared key method request
        (elicits (in_url_mode request) (get_member capabilities (str "elicitation")))
    else if str_eq method Method.sampling_create_message
    then undeclared key method request (is_some (get_member capabilities (str "sampling")))
    else if str_eq method Method.roots_list
    then undeclared key method request (is_some (get_member capabilities (str "roots")))
    else some (
        str "its input request '"
        ++ (key ++ (str "' is `" ++ (method ++ str "`, which no server may send"))))

abbrev pub first_some : Option Str → Option Str → Option Str
first_some (some why) rest = some why
first_some none rest = rest

-- The loop over the requests.
abbrev pub refuse_requests : Value → Members → Option Str
refuse_requests capabilities no_members = none
refuse_requests capabilities (member key request rest) =
    first_some
      (refuse_request capabilities key request (then_str (get_member request (str "method"))))
      (refuse_requests capabilities rest)

abbrev pub refuse_object : Value → Option Members → Option Str
refuse_object capabilities none = some (str "its `inputRequests` is not an object")
refuse_object capabilities (some requests) = refuse_requests capabilities requests

abbrev pub refuse_inputs : Value → Option Value → Option Value → Option Str
refuse_inputs capabilities none none =
    some (str "it holds neither `inputRequests` nor `requestState`")
refuse_inputs capabilities (some state) none = none
refuse_inputs capabilities state (some requests) = refuse_object capabilities (as_object requests)

-- `is_some_and(|state| !state.is_string())`.
abbrev pub is_bad_state : Option Value → Bool
is_bad_state none = false
is_bad_state (some state) = not (is_some (as_str state))

unfoldable pub unanswerable_input : Value → Value → Option Str
unfolding get_member str_eq
unanswerable_input result capabilities =
    if is_bad_state (get_member result (str "requestState"))
    then some (str "its `requestState` is not a string")
    else refuse_inputs capabilities (get_member result (str "requestState"))
        (get_member result (str "inputRequests"))
