-- ===== src/Pin/Hash.antt =====
-- The hash of a tool's governed fields: `GOVERNED_FIELDS` and `tool_hash` of
-- crates/mcpdef-pin/src/lib.rs. The text of a string literal and SHA-256 are parameters.
use mcpdef.Prelude.{List, [], ◌∷◌, ◌++◌, Option, none, some, ◌≡◌, refl, ap, ap₂, All}
use mcpdef.Str.{Str, str}
use mcpdef.Json.{Value, get_member}
use mcpdef.Json.Canonical.{canonical_json, join_commas}
use mcpdef.Json.Canonical.Laws.{SameValue, canonical_json-SameValue}

abbrev pub governed_fields : List Str
governed_fields =
    str "name" ∷ str "description" ∷ str "inputSchema" ∷ str "outputSchema" ∷ str "annotations" ∷ []

module _ (json_str : Str → Str) where
  abbrev pub field_text : Option Value → Str
  field_text (some v) = canonical_json json_str v
  field_text none = str "null"

  -- `"field":value` for each.
  abbrev pub field_texts : Value → List Str → List Str
  field_texts tool [] = []
  field_texts tool (field ∷ rest) =
      (b'"' ∷ (field ++ (str "\":" ++ field_text (get_member tool field)))) ∷ field_texts tool rest

  unfoldable pub tool_hash : (Str → Str) → Value → Str
  tool_hash sha tool = sha (b'{' ∷ (join_commas (field_texts tool governed_fields) ++ (b'}' ∷ [])))

-- A governed field is absent from both tools, or has one value up to the order of members.
abbrev pub SameField : Option Value → Option Value → Type 0
SameField none none = Unit
SameField none (some w) = ⊥
SameField (some v) none = ⊥
SameField (some v) (some w) = SameValue v w

module _ (json_str : Str → Str) where
  field_text-SameField :
      (o p : Option Value) → SameField o p → field_text json_str o ≡ field_text json_str p
  field_text-SameField none none h = refl
  field_text-SameField (some v) (some w) h = canonical_json-SameValue json_str h
  field_text-SameField none (some w) h = absurd h
  field_text-SameField (some v) none h = absurd h

  field_texts-SameField :
      (v w : Value) (fields : List Str)
      → All (λ f. SameField (get_member v f) (get_member w f)) fields
      → field_texts json_str v fields ≡ field_texts json_str w fields
  field_texts-SameField v w [] h = refl
  field_texts-SameField v w (f ∷ fields) (h, k) =
      ap₂ (λ t ts. (b'"' ∷ (f ++ (str "\":" ++ t))) ∷ ts)
        (field_text-SameField (get_member v f) (get_member w f) h)
        (field_texts-SameField v w fields k)

  -- Tools whose governed fields agree, up to the order of members at any depth, have one hash,
  -- whatever their other fields are.
  pub tool_hash-SameField :
      (sha : Str → Str) (v w : Value)
      → All (λ f. SameField (get_member v f) (get_member w f)) governed_fields
      → tool_hash json_str sha v ≡ tool_hash json_str sha w
  unfolding tool_hash
  tool_hash-SameField sha v w h =
      ap (λ ts. sha (b'{' ∷ (join_commas ts ++ (b'}' ∷ []))))
        (field_texts-SameField v w governed_fields h)
