-- ===== src/Wire/Meta.antt =====
-- The metadata that a request of the newer revision carries: `stamp_request`,
-- `stamp_request_offering` and `strip_modern_meta` of crates/mcpdef-core/src/wire.rs.
pub mod Laws
pub mod Strip
use mcpdef.Prelude.{Option, none, some, Bool, true, false, if◌then◌else◌}
use mcpdef.Str.{Str, str, str_eq}
use mcpdef.Json.{
  Value, string, object, Members, no_members, member, find_member, insert_member, remove_member,
  as_object,
}
use mcpdef.Message.{Message, is_request}
use mcpdef.Wire.{meta_version, meta_client, meta_capabilities}

abbrev pub with_params : Message → Option Value → Message
with_params m p = record m { params = p }

-- `get_or_insert_with` and `or_insert_with`: an object where there is nothing.
abbrev pub or_object : Option Value → Value
or_object none = object no_members
or_object (some v) = v

-- The three members, in the order they are set.
abbrev pub stamped : Str → Value → Value → Members → Members
stamped version client capabilities m =
    insert_member (insert_member (insert_member m meta_version (string version)) meta_client client)
      meta_capabilities capabilities

-- A `_meta` that is no object is left as it is.
abbrev pub stamp_meta : Str → Value → Value → Members → Option Members → Members
stamp_meta version client capabilities params none = params
stamp_meta version client capabilities params (some m) =
    insert_member params (str "_meta") (object (stamped version client capabilities m))

abbrev pub stamp_params : Str → Value → Value → Value → Option Members → Value
stamp_params version client capabilities p none = p
stamp_params version client capabilities p (some params) = object (
    stamp_meta version client capabilities params
      (as_object (or_object (find_member params (str "_meta")))))

unfoldable pub stamp_request_offering : Message → Str → Value → Value → Message
unfolding is_request find_member insert_member
stamp_request_offering m version client capabilities =
    if is_request m
    then with_params m (
        some (
          stamp_params version client capabilities (or_object m.params)
            (as_object (or_object m.params))))
    else m

unfoldable pub stamp_request : Message → Str → Value → Message
unfolding stamp_request_offering
stamp_request m version client = stamp_request_offering m version client (object no_members)

abbrev pub stripped : Members → Members
stripped m =
    remove_member (remove_member (remove_member m meta_version) meta_client) meta_capabilities

-- `Map::is_empty`.
abbrev pub has_none : Members → Bool
has_none no_members = true
has_none (member name v rest) = false

abbrev pub strip_meta : Members → Option Members → Members
strip_meta params none = params
strip_meta params (some m) =
    if has_none (stripped m)
    then remove_member params (str "_meta")
    else insert_member params (str "_meta") (object (stripped m))

abbrev pub then_object : Option Value → Option Members
then_object none = none
then_object (some v) = as_object v

abbrev pub strip_params : Message → Option Members → Message
strip_params msg none = msg
strip_params msg (some params) =
    with_params msg
      (some (object (strip_meta params (then_object (find_member params (str "_meta"))))))

unfoldable pub strip_modern_meta : Message → Message
unfolding find_member insert_member remove_member
strip_modern_meta msg = strip_params msg (then_object msg.params)
