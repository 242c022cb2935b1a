-- ===== src/Json/Canonical.antt =====
-- The canonical text of a JSON value: `canonical_json` and `write_canonical` of
-- crates/mcpdef-audit/src/lib.rs, and `canonicalize` of crates/mcpdef-pin/src/lib.rs. The text of
-- a string literal, serde_json's, is a parameter.
pub mod Laws
use mcpdef.Prelude.{ℕ, List, [], ◌∷◌, ◌++◌, Bool, true, false, ◌&&◌, ◌||◌, ltb, ◌==◌, if◌then◌else◌}
use mcpdef.Str.{Str, str}
use mcpdef.Json.{
  Value, null, boolean, number, string, array, object, Values, no_values, value, Members,
  no_members, member,
}

-- The order of `str`, by code point.
unfoldable pub str_lt : Str → Str → Bool
str_lt [] [] = false
str_lt [] (y ∷ t) = true
str_lt (x ∷ s) [] = false
str_lt (x ∷ s) (y ∷ t) = ltb x y || (x == y && str_lt s t)

-- A member's name and its value's text.
abbrev pub Named : Type 0
Named = Str × Str

unfoldable pub place : Str → Str → List Named → List Named
unfolding str_lt
place name text [] = (name, text) ∷ []
place name text ((other, more) ∷ rest) =
    let later = place name text rest in
    if str_lt other name then (other, more) ∷ later else (name, text) ∷ (other, more) ∷ rest

-- `sort_unstable_by` and `sort`, by name.
unfoldable pub sort_by_name : List Named → List Named
unfolding place
sort_by_name [] = []
sort_by_name ((name, text) ∷ rest) = place name text (sort_by_name rest)

-- `join(",")`, and what a loop writes that puts a comma before each piece but the first.
abbrev pub join_commas : List Str → Str
join_commas [] = []
join_commas (piece ∷ []) = piece
join_commas (piece ∷ next ∷ rest) = piece ++ (b',' ∷ join_commas (next ∷ rest))

module _ (json_str : Str → Str) where
  -- `"name":value`.
  abbrev pub written : List Named → List Str
  written [] = []
  written ((name, text) ∷ rest) = (json_str name ++ (b':' ∷ text)) ∷ written rest

  -- An object of the members, whose values are texts already.
  abbrev pub braced : List Named → Str
  braced members = b'{' ∷ (join_commas (written members) ++ (b'}' ∷ []))

  unfoldable mutual
    unfolding sort_by_name

    pub canonical_json : Value → Str
    canonical_json null = str "null"
    canonical_json (boolean b) = if b then str "true" else str "false"
    canonical_json (number n) = n
    canonical_json (string s) = json_str s
    canonical_json (array items) = b'[' ∷ (join_commas (canonical_items items) ++ (b']' ∷ []))
    canonical_json (object members) = braced (sort_by_name (canonical_members members))

    pub canonical_items : Values → List Str
    canonical_items no_values = []
    canonical_items (value v rest) = canonical_json v ∷ canonical_items rest

    -- The members, in the order of the object.
    pub canonical_members : Members → List Named
    canonical_members no_members = []
    canonical_members (member name v rest) = (name, canonical_json v) ∷ canonical_members rest
