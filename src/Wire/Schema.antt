-- ===== src/Wire/Schema.antt =====
-- The parameters that a tool asks to see in headers: `ParamHeader`, `SchemaError`, `param_headers`,
-- `walk_schema` and `is_field_token` of crates/mcpdef-core/src/wire.rs.
pub mod Laws
pub mod Found
pub mod Distinct
use mcpdef.Prelude.{
  ℕ, List, [], ◌∷◌, ◌++◌, Option, none, some, Bool, true, false, not, ◌&&◌, ◌||◌, all, any, ◌==◌,
  if◌then◌else◌,
}
use mcpdef.Str.{Str, str, str_eq, is_empty, is_ascii_alphanumeric, to_ascii_lowercase}
use mcpdef.Json.{
  Value, null, boolean, number, string, array, object, Values, no_values, value, Members,
  no_members, member, find_member, as_str,
}
use mcpdef.Wire.{param_prefix}

pub record ParamHeader : Type 0 where
  pub name : Str
  pub path : List Str

pub data SchemaError : Type 0 where
  not_a_name : (path : Str) → SchemaError
  not_a_token : (path name : Str) → SchemaError
  duplicate : (name : Str) → SchemaError
  not_primitive : (path name found : Str) → SchemaError
  not_statically_reachable : (path name : Str) → SchemaError

-- `Result<_, SchemaError>`.
pub data Walked {ℓ} (A : Type ℓ) : Type ℓ where
  walked : A → Walked A
  refused : SchemaError → Walked A

abbrev pub header_name : ParamHeader → Str
header_name h = param_prefix ++ to_ascii_lowercase h.name

-- `contains`.
abbrev pub contains : List Str → Str → Bool
contains names name = any (λ n. str_eq n name) names

-- The source reads bytes: those of a character above U+007F are no letters of a token.
abbrev pub is_token_char : ℕ → Bool
is_token_char c = is_ascii_alphanumeric c || any (λ d. d == c) (str "!#$%&'*+-.^_`|~")

unfoldable pub is_field_token : Str → Bool
is_field_token v = not (is_empty v) && all is_token_char v

-- `join(".")`.
abbrev pub join_dots : List Str → Str
join_dots [] = []
join_dots (piece ∷ []) = piece
join_dots (piece ∷ next ∷ rest) = piece ++ (b'.' ∷ join_dots (next ∷ rest))

abbrev pub place_of : List Str → Str
place_of [] = str "the schema root"
place_of (step ∷ path) = join_dots (step ∷ path)

abbrev pub is_root : List Str → Bool
is_root [] = true
is_root (step ∷ path) = false

-- A list of one type is that type.
abbrev pub declared_type : Option Value → Option Str
declared_type none = none
declared_type (some (array (value v no_values))) = as_str v
declared_type (some (array no_values)) = none
declared_type (some (array (value v (value w vs)))) = none
declared_type (some (string s)) = some s
declared_type (some null) = none
declared_type (some (boolean b)) = none
declared_type (some (number n)) = none
declared_type (some (object ms)) = none

abbrev pub is_primitive : Option Str → Bool
is_primitive none = false
is_primitive (some t) = contains (str "string" ∷ str "integer" ∷ str "boolean" ∷ []) t

abbrev pub type_name : Option Str → Str
type_name none = str "untyped"
type_name (some t) = t

-- `as_str` and `filter`: a string that is not empty.
abbrev pub annotation_name : Value → Option Str
annotation_name (string []) = none
annotation_name (string (c ∷ s)) = some (c ∷ s)
annotation_name null = none
annotation_name (boolean b) = none
annotation_name (number n) = none
annotation_name (array vs) = none
annotation_name (object ms) = none

abbrev pub annotated :
    List Str → Bool → Option Str → List ParamHeader → Option Str → Walked (List ParamHeader)
annotated path reachable type out none = refused (not_a_name (place_of path))
annotated path reachable type out (some name) =
    if not (is_field_token name)
    then refused (not_a_token (place_of path) name)
    else if not reachable || is_root path
    then refused (not_statically_reachable (place_of path) name)
    else if not (is_primitive type)
    then refused (not_primitive (place_of path) name (type_name type))
    else walked (out ++ (record { name = name; path = path } ∷ []))

-- The annotation of a schema, if it has one.
abbrev pub annotation :
    List Str → Bool → Members → List ParamHeader → Option Value → Walked (List ParamHeader)
annotation path reachable obj out none = walked out
annotation path reachable obj out (some raw) =
    annotated path reachable (declared_type (find_member obj (str "type"))) out
      (annotation_name raw)

abbrev pub instance_keywords : List Str
instance_keywords =
    str "const" ∷ str "default" ∷ str "enum" ∷ str "examples" ∷ str "dependentRequired" ∷ []

abbrev pub schema_map_keywords : List Str
schema_map_keywords =
    str "$defs" ∷ str "definitions" ∷ str "patternProperties" ∷ str "dependentSchemas" ∷ []

-- `?`.
abbrev pub after :
    Walked (List ParamHeader)
    → (List ParamHeader → Walked (List ParamHeader))
    → Walked (List ParamHeader)
after (refused e) next = refused e
after (walked out) next = next out

-- What a keyword's value is walked as.
pub data Keyword : Type 0 where
  instance_keyword properties_keyword map_keyword other_keyword : Keyword

abbrev pub keyword : Str → Keyword
keyword key =
    if contains instance_keywords key
    then instance_keyword
    else if str_eq key (str "properties")
    then properties_keyword
    else if contains schema_map_keywords key
    then map_keyword
    else other_keyword

unfoldable mutual
  unfolding str_eq find_member is_field_token

  pub walk_schema : Value → List Str → Bool → List ParamHeader → Walked (List ParamHeader)
  walk_schema (object obj) path reachable out =
      after (annotation path reachable obj out (find_member obj (str "x-mcp-header")))
        (walk_members obj path reachable)
  walk_schema null path reachable out = walked out
  walk_schema (boolean b) path reachable out = walked out
  walk_schema (number n) path reachable out = walked out
  walk_schema (string s) path reachable out = walked out
  walk_schema (array vs) path reachable out = walked out

  -- The loop over a schema's keywords.
  pub walk_members : Members → List Str → Bool → List ParamHeader → Walked (List ParamHeader)
  walk_members no_members path reachable out = walked out
  walk_members (member key (object child) rest) path reachable out =
      after
        (elim (keyword key) [
          | instance_keyword ↦ walked out
          | properties_keyword ↦ walk_properties child path reachable out
          | map_keyword ↦ walk_values child path out
          | other_keyword ↦ walk_schema (object child) path false out
        ])
        (walk_members rest path reachable)
  walk_members (member key (array items) rest) path reachable out =
      after
        (elim (keyword key) [
          | instance_keyword ↦ walked out
          | properties_keyword ↦ walked out
          | map_keyword ↦ walked out
          | other_keyword ↦ walk_items items path out
        ])
        (walk_members rest path reachable)
  walk_members (member key null rest) path reachable out = walk_members rest path reachable out
  walk_members (member key (boolean b) rest) path reachable out =
      walk_members rest path reachable out
  walk_members (member key (number n) rest) path reachable out =
      walk_members rest path reachable out
  walk_members (member key (string s) rest) path reachable out =
      walk_members rest path reachable out

  -- The properties: each one's name is the next step of the path.
  pub walk_properties : Members → List Str → Bool → List ParamHeader → Walked (List ParamHeader)
  walk_properties no_members path reachable out = walked out
  walk_properties (member prop sub rest) path reachable out =
      after (walk_schema sub (path ++ (prop ∷ [])) reachable out)
        (walk_properties rest path reachable)

  -- Schemas by name, none of them reachable.
  pub walk_values : Members → List Str → List ParamHeader → Walked (List ParamHeader)
  walk_values no_members path out = walked out
  walk_values (member name sub rest) path out =
      after (walk_schema sub path false out) (walk_values rest path)

  pub walk_items : Values → List Str → List ParamHeader → Walked (List ParamHeader)
  walk_items no_values path out = walked out
  walk_items (value item rest) path out =
      after (walk_schema item path false out) (walk_items rest path)

-- The names, seen so far and folded, against each one.
abbrev pub check_unique : List ParamHeader → List Str → List ParamHeader → Walked (List ParamHeader)
check_unique found seen [] = walked found
check_unique found seen (h ∷ rest) =
    let folded = to_ascii_lowercase h.name in
    let later = check_unique found (seen ++ (folded ∷ [])) rest in
    if contains seen folded then refused (duplicate h.name) else later

abbrev pub unique : Walked (List ParamHeader) → Walked (List ParamHeader)
unique (refused e) = refused e
unique (walked found) = check_unique found [] found

unfoldable pub param_headers : Value → Walked (List ParamHeader)
unfolding walk_schema str_eq to_ascii_lowercase
param_headers input_schema = unique (walk_schema input_schema [] true [])
