-- ===== src/Message.antt =====
-- The JSON-RPC envelope: `Id`, `Message` and its constructors and tests, and the method names, of
-- crates/mcpdef-core/src/lib.rs.
pub mod Method
use mcpdef.Prelude.{ℕ, suc, ◌++◌, ◌∷◌, Option, none, some, Bool, true, false, not, ◌&&◌, ◌||◌, ◌==◌}
use mcpdef.Str.{Str, str, is_some}
use mcpdef.Str.Decimal.{decimal}
use mcpdef.Json.{
  Value, boolean, number, string, array, object, no_values, value, no_members, member, ℤ, pos,
  negsuc, get_member, as_str,
}

pub data MessageId : Type 0 where
  num : ℤ → MessageId
  text : Str → MessageId

pub record Message : Type 0 where
  pub jsonrpc : Str
  pub id : Option MessageId
  pub method : Option Str
  pub params : Option Value
  pub result : Option Value
  pub error : Option Value

abbrev pub jsonrpc_version : Str
jsonrpc_version = str "2.0"

-- An integer as `serde_json` writes it.
abbrev pub integer : ℤ → Value
integer (pos n) = number (decimal n)
integer (negsuc n) = number (b'-' ∷ decimal (suc n))

abbrev pub request : MessageId → Str → Option Value → Message
request i m p = record {
  jsonrpc = jsonrpc_version;
  id = some i;
  method = some m;
  params = p;
  result = none;
  error = none;
}

abbrev pub notification : Str → Option Value → Message
notification m p = record {
  jsonrpc = jsonrpc_version;
  id = none;
  method = some m;
  params = p;
  result = none;
  error = none;
}

abbrev pub result_message : MessageId → Value → Message
result_message i v = record {
  jsonrpc = jsonrpc_version;
  id = some i;
  method = none;
  params = none;
  result = some v;
  error = none;
}

abbrev pub error_message : MessageId → ℤ → Str → Message
error_message i code message = record {
  jsonrpc = jsonrpc_version;
  id = some i;
  method = none;
  params = none;
  result = none;
  error = some (
      object
        (member (str "code") (integer code) (member (str "message") (string message) no_members)));
}

abbrev pub tool_error_result : MessageId → Str → Message
tool_error_result i t = result_message i (
    object (
      member (str "content")
        (array (
          value
            (object (
              member (str "type") (string (str "text"))
                (member (str "text") (string t) no_members)))
            no_values))
        (member (str "isError") (boolean true) no_members)))

unfoldable pub is_request : Message → Bool
is_request m = is_some m.method && is_some m.id

unfoldable pub is_notification : Message → Bool
is_notification m = is_some m.method && not (is_some m.id)

unfoldable pub is_response : Message → Bool
is_response m = not (is_some m.method) && (is_some m.result || is_some m.error)

-- `as_ref()?.get(name)?.as_str()`, and the like.
abbrev pub then_get : Option Value → Str → Option Value
then_get none name = none
then_get (some v) name = get_member v name

abbrev pub then_str : Option Value → Option Str
then_str none = none
then_str (some v) = as_str v

unfoldable pub tool_name : Message → Option Str
unfolding get_member
tool_name m = then_str (then_get m.params (str "name"))
