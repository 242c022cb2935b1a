-- ===== src/Wire/Schema/Laws.antt =====
-- Where the annotations lie that a walk of a tool's schema finds.
use mcpdef.Prelude.{
  List, [], ◌∷◌, ◌++◌, Option, none, some, Bool, true, false, not, ◌||◌, ◌≡◌, ◌⊎◌, inl, inr, refl,
  ◌∙◌, Bool-cases,
}
use mcpdef.Str.{Str, str}
use mcpdef.Json.{
  Value, null, boolean, number, string, array, object, Values, no_values, value, Members,
  no_members, member, find_member,
}
use mcpdef.Wire.Schema.{
  ParamHeader, Walked, walked, refused, is_field_token, is_root, declared_type, is_primitive,
  annotation_name, annotated, annotation, after, Keyword, instance_keyword, properties_keyword,
  map_keyword, other_keyword, keyword, walk_schema, walk_members, walk_properties, walk_values,
  walk_items,
}

pub after-walked :
    (w : Walked (List ParamHeader)) (next : List ParamHeader → Walked (List ParamHeader))
    (out : List ParamHeader)
    → after w next ≡ walked out
    → (m : List ParamHeader) × (w ≡ walked m) × (next m ≡ walked out)
after-walked (walked m) next out h = (m, refl, h)
after-walked (refused e) next out h = cc h

pub keyword-cases :
    (k : Keyword)
    → (k ≡ instance_keyword)
      ⊎ ((k ≡ properties_keyword) ⊎ ((k ≡ map_keyword) ⊎ (k ≡ other_keyword)))
keyword-cases instance_keyword = inl refl
keyword-cases properties_keyword = inr (inl refl)
keyword-cases map_keyword = inr (inr (inl refl))
keyword-cases other_keyword = inr (inr (inr refl))

pub walked-injective : {a b : List ParamHeader} → walked a ≡ walked b → a ≡ b
walked-injective h = cc h

neither : (a b : Bool) → (not a || b) ≡ false → (a ≡ true) × (b ≡ false)
neither true b e = (refl, e)
neither false b e = cc e

-- What an accepted annotation adds.
pub annotated-walked :
    (path : List Str) (reachable : Bool) (type : Option Str) (out o : List ParamHeader)
    (name : Option Str)
    → annotated path reachable type out name ≡ walked o
    → (n : Str) × (name ≡ some n)
      × (is_field_token n ≡ true)
      × (reachable ≡ true)
      × (is_root path ≡ false)
      × (is_primitive type ≡ true)
      × (out ++ (record { name = n; path = path } ∷ []) ≡ o)
annotated-walked path reachable type out o none h = cc h
annotated-walked path reachable type out o (some n) h = elim (Bool-cases (is_field_token n)) [
  | inr e ↦ cc (rw e at h)
  | inl t ↦ elim (Bool-cases (not reachable || is_root path)) [
    | inl e ↦ cc (rw (t, e) at h)
    | inr e ↦ elim (Bool-cases (is_primitive type)) [
      | inr p ↦ cc (rw (t, e, p) at h)
      | inl p ↦
          let (r, q) = neither reachable (is_root path) e in
          (n, refl, t, r, q, p, walked-injective (rw (t, e, p) at h))
    ]
  ]
]

annotation-unreachable :
    (path : List Str) (obj : Members) (out o : List ParamHeader) (raw : Option Value)
    → annotation path false obj out raw ≡ walked o
    → out ≡ o
annotation-unreachable path obj out o none h = walked-injective h
annotation-unreachable path obj out o (some raw) h =
    cc
      (annotated-walked path false (declared_type (find_member obj (str "type"))) out o
        (annotation_name raw) h).3

mutual
  unfolding walk_schema walk_members walk_properties walk_values walk_items

  -- Off the static path nothing is found.
  pub walk_schema-unreachable :
      (v : Value) (path : List Str) (out o : List ParamHeader)
      → walk_schema v path false out ≡ walked o
      → out ≡ o
  walk_schema-unreachable (object obj) path out o h =
      let (m, a, b) =
        after-walked (annotation path false obj out (find_member obj (str "x-mcp-header"))) _ o h in
      annotation-unreachable path obj out m (find_member obj (str "x-mcp-header")) a
      ∙ walk_members-unreachable obj path m o b
  walk_schema-unreachable null path out o h = walked-injective h
  walk_schema-unreachable (boolean b) path out o h = walked-injective h
  walk_schema-unreachable (number n) path out o h = walked-injective h
  walk_schema-unreachable (string s) path out o h = walked-injective h
  walk_schema-unreachable (array vs) path out o h = walked-injective h

  walk_members-unreachable :
      (ms : Members) (path : List Str) (out o : List ParamHeader)
      → walk_members ms path false out ≡ walked o
      → out ≡ o
  walk_members-unreachable no_members path out o h = walked-injective h
  walk_members-unreachable (member key (object child) rest) path out o h =
      let (m, a, b) = after-walked _ (walk_members rest path false) o h in
      elim (keyword-cases (keyword key)) [
        | inl e ↦ walked-injective (rw e at a) ∙ walk_members-unreachable rest path m o b
        | inr (inl e) ↦
            walk_properties-unreachable child path out m (rw e at a)
            ∙ walk_members-unreachable rest path m o b
        | inr (inr (inl e)) ↦
            walk_values-unreachable child path out m (rw e at a)
            ∙ walk_members-unreachable rest path m o b
        | inr (inr (inr e)) ↦
            walk_schema-unreachable (object child) path out m (rw e at a)
            ∙ walk_members-unreachable rest path m o b
      ]
  walk_members-unreachable (member key (array items) rest) path out o h =
      let (m, a, b) = after-walked _ (walk_members rest path false) o h in
      elim (keyword-cases (keyword key)) [
        | inl e ↦ walked-injective (rw e at a) ∙ walk_members-unreachable rest path m o b
        | inr (inl e) ↦ walked-injective (rw e at a) ∙ walk_members-unreachable rest path m o b
        | inr (inr (inl e)) ↦
            walked-injective (rw e at a) ∙ walk_members-unreachable rest path m o b
        | inr (inr (inr e)) ↦
            walk_items-unreachable items path out m (rw e at a)
            ∙ walk_members-unreachable rest path m o b
      ]
  walk_members-unreachable (member key null rest) path out o h =
      walk_members-unreachable rest path out o h
  walk_members-unreachable (member key (boolean b) rest) path out o h =
      walk_members-unreachable rest path out o h
  walk_members-unreachable (member key (number n) rest) path out o h =
      walk_members-unreachable rest path out o h
  walk_members-unreachable (member key (string s) rest) path out o h =
      walk_members-unreachable rest path out o h

  walk_properties-unreachable :
      (ms : Members) (path : List Str) (out o : List ParamHeader)
      → walk_properties ms path false out ≡ walked o
      → out ≡ o
  walk_properties-unreachable no_members path out o h = walked-injective h
  walk_properties-unreachable (member prop sub rest) path out o h =
      let (m, a, b) = after-walked _ (walk_properties rest path false) o h in
      walk_schema-unreachable sub (path ++ (prop ∷ [])) out m a
      ∙ walk_properties-unreachable rest path m o b

  pub walk_values-unreachable :
      (ms : Members) (path : List Str) (out o : List ParamHeader)
      → walk_values ms path out ≡ walked o
      → out ≡ o
  walk_values-unreachable no_members path out o h = walked-injective h
  walk_values-unreachable (member name sub rest) path out o h =
      let (m, a, b) = after-walked _ (walk_values rest path) o h in
      walk_schema-unreachable sub path out m a ∙ walk_values-unreachable rest path m o b

  pub walk_items-unreachable :
      (vs : Values) (path : List Str) (out o : List ParamHeader)
      → walk_items vs path out ≡ walked o
      → out ≡ o
  walk_items-unreachable no_values path out o h = walked-injective h
  walk_items-unreachable (value v rest) path out o h =
      let (m, a, b) = after-walked _ (walk_items rest path) o h in
      walk_schema-unreachable v path out m a ∙ walk_items-unreachable rest path m o b
