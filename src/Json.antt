-- ===== src/Json.antt =====
-- `serde_json::Value`, as crates/mcpdef-policy reads it. A number carries the text that
-- `to_string` gives it; an object's members are a list in which a key stands once.
pub mod Canonical
pub mod Laws
use mcpdef.Prelude.{ℕ, Option, none, some, Bool, if◌then◌else◌}
use mcpdef.Str.{Str, str_eq}

pub data ℤ : Type 0 where
  pos : ℕ → ℤ
  negsuc : ℕ → ℤ

mutual
  pub data Value : Type 0 where
    null : Value
    boolean : Bool → Value
    number : Str → Value
    string : Str → Value
    array : Values → Value
    object : Members → Value

  pub data Values : Type 0 where
    no_values : Values
    value : Value → Values → Values

  pub data Members : Type 0 where
    no_members : Members
    member : Str → Value → Members → Members

unfoldable pub find_member : Members → Str → Option Value
unfolding str_eq
find_member no_members name = none
find_member (member key v rest) name =
    let later = find_member rest name in if str_eq key name then some v else later

-- `Value::get` with a string: a member of an object, and nothing in any other value.
unfoldable pub get_member : Value → Str → Option Value
unfolding find_member
get_member (object members) name = find_member members name
get_member null name = none
get_member (boolean b) name = none
get_member (number n) name = none
get_member (string s) name = none
get_member (array vs) name = none

-- `Map::insert`: in the key's place, at the end if the key is new.
unfoldable pub insert_member : Members → Str → Value → Members
unfolding str_eq
insert_member no_members name v = member name v no_members
insert_member (member key old rest) name v =
    let later = insert_member rest name v in
    if str_eq key name then member key v rest else member key old later

unfoldable pub remove_member : Members → Str → Members
unfolding str_eq
remove_member no_members name = no_members
remove_member (member key v rest) name =
    let later = remove_member rest name in if str_eq key name then rest else member key v later

-- `Value::as_str`, `as_object` and `as_array`.
abbrev pub as_str : Value → Option Str
as_str (string s) = some s
as_str null = none
as_str (boolean b) = none
as_str (number n) = none
as_str (array vs) = none
as_str (object ms) = none

abbrev pub as_object : Value → Option Members
as_object (object ms) = some ms
as_object null = none
as_object (boolean b) = none
as_object (number n) = none
as_object (string s) = none
as_object (array vs) = none

abbrev pub as_array : Value → Option Values
as_array (array vs) = some vs
as_array null = none
as_array (boolean b) = none
as_array (number n) = none
as_array (string s) = none
as_array (object ms) = none
