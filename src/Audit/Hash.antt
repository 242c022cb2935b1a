-- ===== src/Audit/Hash.antt =====
-- The hash of a record: `compute_hash`, `later_members`, `has_separator` and `without_separator`
-- of crates/mcpdef-audit/src/lib.rs.
pub mod Laws
pub mod Members
pub mod Fields
use mathlib.Core.Option
use mcpdef.Prelude.{
  ℕ, List, [], ◌∷◌, ◌++◌, Option, none, some, Bool, true, false, ◌||◌, map, any, ◌==◌,
  if◌then◌else◌,
}
use mcpdef.Str.{Str, str, str_eq}
use mcpdef.Str.Decimal.{decimal}
use mcpdef.Json.{Value, null, boolean, number, string, array, object, Values, no_values, value}
use mcpdef.Json.Canonical.{Named, str_lt, canonical_json, braced}
use mcpdef.Audit.{Record, to_value}

-- The separator, U+001F.
abbrev pub us : ℕ
us = 31

abbrev pub unwrap_or_empty : Option Str → Str
unwrap_or_empty (some s) = s
unwrap_or_empty none = []

-- `BTreeMap::insert`: the map is sorted by name, and a name's later value replaces the earlier.
unfoldable pub insert_sorted : Str → Str → List Named → List Named
unfolding str_eq str_lt
insert_sorted name text [] = (name, text) ∷ []
insert_sorted name text ((other, more) ∷ rest) =
    let later = insert_sorted name text rest in
    if str_eq other name
    then (name, text) ∷ rest
    else if str_lt other name
    then (other, more) ∷ later
    else (name, text) ∷ (other, more) ∷ rest

abbrev pub insert_some : Str → Option Str → List Named → List Named
insert_some name none members = members
insert_some name (some text) members = insert_sorted name text members

abbrev pub to_values : List Str → Values
to_values [] = no_values
to_values (s ∷ rest) = value (string s) (to_values rest)

abbrev pub is_null : Value → Bool
is_null null = true
is_null (boolean b) = false
is_null (number n) = false
is_null (string s) = false
is_null (array vs) = false
is_null (object ms) = false

module _ (json_str : Str → Str) where
  -- The loop over the members that this release does not know.
  abbrev pub insert_extra : List (Str × Value) → List Named → List Named
  insert_extra [] members = members
  insert_extra ((name, v) ∷ rest) members =
      insert_extra rest
        (if is_null v then members else insert_sorted name (canonical_json json_str v) members)

  -- The map of `later_members`.
  unfoldable pub later_map : Record → List Named
  unfolding insert_sorted canonical_json
  later_map r =
      let text = Option.map json_str in
      let kind = insert_some (str "kind") (text r.kind) [] in
      let uri = insert_some (str "uri") (text r.uri) kind in
      let actor = insert_some (str "actor") (text r.actor) uri in
      let peer = insert_some (str "peer") (text r.peer) actor in
      let from = insert_some (str "config_from") (text r.config_from) peer in
      let to = insert_some (str "config_to") (text r.config_to) from in
      let names =
        insert_some (str "transforms")
          (Option.map (λ t. canonical_json json_str (array (to_values t))) r.transforms) to in
      let changes =
        insert_some (str "tool_changes")
          (Option.map (λ c. canonical_json json_str (to_value c)) r.tool_changes) names in
      insert_extra r.extra changes

  -- None where the map is empty.
  abbrev pub object_of : List Named → Option Str
  object_of [] = none
  object_of (entry ∷ rest) = some (braced json_str (entry ∷ rest))

  unfoldable pub later_members : Record → Option Str
  unfolding later_map
  later_members r = object_of (later_map r)

-- What the hash reads after the v1 encoding.
abbrev pub later_text : Option Str → Str
later_text none = []
later_text (some later) = us ∷ later

-- `{seq}{US}{ts}{US}…{US}{prev}`, and the later members.
unfoldable pub hashed_text : (Str → Str) → Record → Str
unfolding decimal later_members
hashed_text json_str r =
    decimal r.seq
    ++ (us ∷ decimal r.ts_unix_ms
        ++ (us ∷ r.agent
            ++ (us ∷ r.server
                ++ (us ∷ unwrap_or_empty r.method
                    ++ (us ∷ unwrap_or_empty r.tool
                        ++ (us ∷ r.decision
                            ++ (us ∷ unwrap_or_empty r.rule
                                ++ (us ∷ decimal r.latency_ms
                                    ++ (us ∷ r.prev_hash
                                        ++ later_text (later_members json_str r))))))))))

-- `compute_hash`.
unfoldable pub compute_hash : (json_str sha : Str → Str) → Record → Str
unfolding hashed_text
compute_hash json_str sha r = sha (hashed_text json_str r)

-- `contains(US)`.
abbrev pub contains_us : Str → Bool
contains_us s = any (λ c. c == us) s

unfoldable pub has_separator : Record → Bool
has_separator r =
    contains_us r.agent
    || contains_us r.server
    || any (λ f. contains_us (unwrap_or_empty f)) (r.method ∷ r.tool ∷ r.rule ∷ [])

-- U+241F in the separator's place.
unfoldable pub without_separator : Str → Str
without_separator s = if contains_us s then map (λ c. if c == us then 9247 else c) s else s
