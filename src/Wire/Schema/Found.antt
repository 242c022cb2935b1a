-- ===== src/Wire/Schema/Found.antt =====
-- Where the parameters stand that a walk of a tool's schema finds.
use mcpdef.Prelude.{
  List, [], ◌∷◌, ◌++◌, Option, none, some, true, false, ◌≡◌, ◌⊎◌, inl, inr, refl, sym, ◌∙◌, subst,
  In, In-append, append_assoc, append-nil, Bool-cases,
}
use mcpdef.Str.{Str, str, str_eq}
use mcpdef.Str.Laws.{str_eq_iff}
use mcpdef.Json.{
  Value, null, boolean, number, string, array, object, Members, no_members, member, find_member,
}
use mcpdef.Wire.Schema.{
  ParamHeader, walked, is_field_token, is_root, declared_type, is_primitive, annotation_name,
  annotation, properties_keyword, keyword, instance_keywords, schema_map_keywords, walk_schema,
  walk_members, walk_properties, contains,
}
use mcpdef.Wire.Schema.Laws.{
  after-walked, keyword-cases, walked-injective, annotated-walked, walk_schema-unreachable,
  walk_values-unreachable, walk_items-unreachable,
}

-- The object has the member.
abbrev pub Has : Members → Str → Value → Type 0
Has no_members k v = ⊥
Has (member key w rest) k v = ((key ≡ k) × (w ≡ v)) ⊎ Has rest k v

-- A chain of `properties` keys from one schema to another.
pub data Chain : Members → List Str → Members → Type 0 where
  here : (obj : Members) → Chain obj [] obj
  through :
      (obj props sub target : Members) (prop : Str) (path : List Str)
      → Has obj (str "properties") (object props)
      → Has props prop (object sub)
      → Chain sub path target
      → Chain obj (prop ∷ path) target

-- The schema asks for the header: its annotation is the name, a token, and its type is one that a
-- header can mirror.
abbrev pub Asks : Members → Str → Type 0
Asks target name =
    (raw : Value) × (find_member target (str "x-mcp-header") ≡ some raw)
    × (annotation_name raw ≡ some name)
    × (is_field_token name ≡ true)
    × (is_primitive (declared_type (find_member target (str "type"))) ≡ true)

-- The header is asked for by a schema that the chain of its path, after `path`, leads to.
abbrev pub FoundIn : Value → List Str → ParamHeader → Type 0
FoundIn (object obj) path h =
    (sub : List Str) × (target : Members) × (h.path ≡ path ++ sub)
    × (is_root h.path ≡ false)
    × Chain obj sub target
    × Asks target h.name
FoundIn null path h = ⊥
FoundIn (boolean b) path h = ⊥
FoundIn (number n) path h = ⊥
FoundIn (string s) path h = ⊥
FoundIn (array vs) path h = ⊥

-- It is found in one of the properties.
abbrev InProperties : Members → List Str → ParamHeader → Type 0
InProperties props path h =
    (prop : Str) × (sub : Value) × Has props prop sub × FoundIn sub (path ++ (prop ∷ [])) h

abbrev InMembers : Members → List Str → ParamHeader → Type 0
InMembers ms path h =
    (props : Members) × Has ms (str "properties") (object props) × InProperties props path h

properties-keyword : (key : Str) → keyword key ≡ properties_keyword → key ≡ str "properties"
properties-keyword key e = elim (Bool-cases (contains instance_keywords key)) [
  | inl i ↦ cc (rw i at e)
  | inr i ↦ elim (Bool-cases (str_eq key (str "properties"))) [
    | inl p ↦ (str_eq_iff key (str "properties")).0 p
    | inr p ↦ elim (Bool-cases (contains schema_map_keywords key)) [
      | inl m ↦ cc (rw (i, p, m) at e)
      | inr m ↦ cc (rw (i, p, m) at e)
    ]
  ]
]

-- A header found in a property is found in the object.
FoundIn-through :
    (obj props : Members) (path : List Str) (h : ParamHeader) (prop : Str) (sub : Value)
    → Has obj (str "properties") (object props)
    → Has props prop sub
    → FoundIn sub (path ++ (prop ∷ [])) h
    → FoundIn (object obj) path h
FoundIn-through obj props path h prop (object sub) has has' (s, target, e, root, chain, asks) = (
  prop ∷ s,
  target,
  e ∙ append_assoc path (prop ∷ []) s,
  root,
  through obj props sub target prop s has has' chain,
  asks,
)
FoundIn-through obj props path h prop null has has' found = absurd found
FoundIn-through obj props path h prop (boolean b) has has' found = absurd found
FoundIn-through obj props path h prop (number n) has has' found = absurd found
FoundIn-through obj props path h prop (string s) has has' found = absurd found
FoundIn-through obj props path h prop (array vs) has has' found = absurd found

InMembers-FoundIn :
    (obj : Members) (path : List Str) (h : ParamHeader)
    → InMembers obj path h
    → FoundIn (object obj) path h
InMembers-FoundIn obj path h (props, has, (prop, sub, has', found)) =
    FoundIn-through obj props path h prop sub has has' found

annotation-FoundIn :
    (obj : Members) (path : List Str) (out o : List ParamHeader) (raw : Option Value)
    (h : ParamHeader)
    → find_member obj (str "x-mcp-header") ≡ raw
    → annotation path true obj out raw ≡ walked o
    → In h o
    → In h out ⊎ FoundIn (object obj) path h
annotation-FoundIn obj path out o none h e w within =
    inl (subst (In h) (sym (walked-injective w)) within)
annotation-FoundIn obj path out o (some raw) h e w within =
    let (n, same, token, _, root, prim, grown) =
      annotated-walked path true (declared_type (find_member obj (str "type"))) out o
        (annotation_name raw) w in
    elim (In-append h out (record { name = n; path = path } ∷ [])
      (subst (In h) (sym grown) within)) [
        | inl old ↦ inl old
        | inr (inl new) ↦ inr (
            subst (FoundIn (object obj) path) new
              ([], obj, sym (append-nil path), root, here obj, (raw, e, same, token, prim)))
        | inr (inr nothing) ↦ absurd nothing
      ]

later :
    {A : Type 0} (key : Str) (w : Value) (rest : Members) (path : List Str) (h : ParamHeader)
    → A ⊎ InMembers rest path h
    → A ⊎ InMembers (member key w rest) path h
later key w rest path h (inl old) = inl old
later key w rest path h (inr (props, has, within)) = inr (props, inr has, within)

mutual
  unfolding walk_schema walk_members walk_properties

  pub walk_schema-FoundIn :
      (v : Value) (path : List Str) (out o : List ParamHeader) (h : ParamHeader)
      → walk_schema v path true out ≡ walked o
      → In h o
      → In h out ⊎ FoundIn v path h
  walk_schema-FoundIn (object obj) path out o h w within =
      let (m, a, b) =
        after-walked (annotation path true obj out (find_member obj (str "x-mcp-header")))
          (walk_members obj path true) o w in
      elim (walk_members-FoundIn obj path m o h b within) [
        | inl first ↦ annotation-FoundIn obj path out m _ h refl a first
        | inr found ↦ inr (InMembers-FoundIn obj path h found)
      ]
  walk_schema-FoundIn null path out o h w within =
      inl (subst (In h) (sym (walked-injective w)) within)
  walk_schema-FoundIn (boolean b) path out o h w within =
      inl (subst (In h) (sym (walked-injective w)) within)
  walk_schema-FoundIn (number n) path out o h w within =
      inl (subst (In h) (sym (walked-injective w)) within)
  walk_schema-FoundIn (string s) path out o h w within =
      inl (subst (In h) (sym (walked-injective w)) within)
  walk_schema-FoundIn (array vs) path out o h w within =
      inl (subst (In h) (sym (walked-injective w)) within)

  walk_members-FoundIn :
      (ms : Members) (path : List Str) (out o : List ParamHeader) (h : ParamHeader)
      → walk_members ms path true out ≡ walked o
      → In h o
      → In h out ⊎ InMembers ms path h
  walk_members-FoundIn no_members path out o h w within =
      inl (subst (In h) (sym (walked-injective w)) within)
  walk_members-FoundIn (member key (object child) rest) path out o h w within =
      let (m, a, b) = after-walked _ (walk_members rest path true) o w in
      elim (walk_members-FoundIn rest path m o h b within) [
        | inr found ↦ later key (object child) rest path h (inr found)
        | inl first ↦ elim (keyword-cases (keyword key)) [
          | inl e ↦ inl (subst (In h) (sym (walked-injective (rw e at a))) first)
          | inr (inl e) ↦ elim (walk_properties-FoundIn child path out m h (rw e at a) first) [
            | inl old ↦ inl old
            | inr new ↦ inr (child, inl (properties-keyword key e, refl), new)
          ]
          | inr (inr (inl e)) ↦
              inl (subst (In h) (sym (walk_values-unreachable child path out m (rw e at a))) first)
          | inr (inr (inr e)) ↦ inl (
              subst (In h) (sym (walk_schema-unreachable (object child) path out m (rw e at a)))
                first)
        ]
      ]
  walk_members-FoundIn (member key (array items) rest) path out o h w within =
      let (m, a, b) = after-walked _ (walk_members rest path true) o w in
      elim (walk_members-FoundIn rest path m o h b within) [
        | inr found ↦ later key (array items) rest path h (inr found)
        | inl first ↦ elim (keyword-cases (keyword key)) [
          | inl e ↦ inl (subst (In h) (sym (walked-injective (rw e at a))) first)
          | inr (inl e) ↦ inl (subst (In h) (sym (walked-injective (rw e at a))) first)
          | inr (inr (inl e)) ↦ inl (subst (In h) (sym (walked-injective (rw e at a))) first)
          | inr (inr (inr e)) ↦
              inl (subst (In h) (sym (walk_items-unreachable items path out m (rw e at a))) first)
        ]
      ]
  walk_members-FoundIn (member key null rest) path out o h w within =
      later key null rest path h (walk_members-FoundIn rest path out o h w within)
  walk_members-FoundIn (member key (boolean b) rest) path out o h w within =
      later key (boolean b) rest path h (walk_members-FoundIn rest path out o h w within)
  walk_members-FoundIn (member key (number n) rest) path out o h w within =
      later key (number n) rest path h (walk_members-FoundIn rest path out o h w within)
  walk_members-FoundIn (member key (string s) rest) path out o h w within =
      later key (string s) rest path h (walk_members-FoundIn rest path out o h w within)

  walk_properties-FoundIn :
      (ms : Members) (path : List Str) (out o : List ParamHeader) (h : ParamHeader)
      → walk_properties ms path true out ≡ walked o
      → In h o
      → In h out ⊎ InProperties ms path h
  walk_properties-FoundIn no_members path out o h w within =
      inl (subst (In h) (sym (walked-injective w)) within)
  walk_properties-FoundIn (member prop sub rest) path out o h w within =
      let (m, a, b) = after-walked _ (walk_properties rest path true) o w in
      elim (walk_properties-FoundIn rest path m o h b within) [
        | inr (p, v, has, found) ↦ inr (p, v, inr has, found)
        | inl first ↦ elim (walk_schema-FoundIn sub (path ++ (prop ∷ [])) out m h a first) [
          | inl old ↦ inl old
          | inr found ↦ inr (prop, sub, inl (refl, refl), found)
        ]
      ]
