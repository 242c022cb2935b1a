-- ===== src/Audit/Hash/Fields.antt =====
-- The members that this release knows, read back from the text of the later members.
use mathlib.Core.Option
use mcpdef.Prelude.{
  some-injective, List, [], ◌∷◌, ◌++◌, Option, none, some, false, ◌≡◌, ◌≢◌, inl, inr, refl, sym, ap,
  ◌∙◌, subst, All, if◌then◌else◌, Bool-cases,
}
use mcpdef.Str.{Str, str, str_eq}
use mcpdef.Str.Laws.{different, str_eq_iff}
use mcpdef.Table.{get, str_key}
use mcpdef.Json.{array}
use mcpdef.Json.Canonical.{Named, str_lt, canonical_json}
use mcpdef.Audit.{Record, ToolChanges, to_value}
use mcpdef.Audit.Hash.{insert_sorted, insert_some, to_values, later_map, later_members}
use mcpdef.Audit.Hash.Members.{
  IsLiteral, Known, literal-injective, array-split, changes-split, object_of-injective,
}

get-insert_sorted :
    (n t : Str) (l : List Named) (k : Str)
    → get (insert_sorted n t l) k ≡ (if str_eq k n then some t else get l k)
unfolding insert_sorted get
get-insert_sorted n t [] k = refl
get-insert_sorted n t ((o, m) ∷ l) k = elim (Bool-cases (str_eq o n)) [
  | inl e ↦
      let same = (str_eq_iff o n).0 e in
      rw e (elim (Bool-cases (str_eq k n)) [
        | inl f ↦ rw f refl
        | inr f ↦ rw (f, subst (λ x. str_eq k x ≡ false) (sym same) f) refl
      ])
  | inr e ↦ elim (Bool-cases (str_lt o n)) [
    | inr f ↦ rw (e, f) refl
    | inl f ↦
        rw (e, f)
          (elim (Bool-cases (str_eq k o)) [
            | inl g ↦ rw (g, subst (λ x. str_eq x n ≡ false) (sym ((str_eq_iff k o).0 g)) e) refl
            | inr g ↦ rw g (get-insert_sorted n t l k)
          ])
  ]
]

abbrev over : {A : Type 0} → Option A → Option A → Option A
over (some a) b = some a
over none b = b

over-none : {A : Type 0} (a : Option A) → over a none ≡ a
over-none none = refl
over-none (some a) = refl

get-insert_some :
    (n : Str) (o : Option Str) (l : List Named) (k : Str)
    → get (insert_some n o l) k ≡ (if str_eq k n then over o (get l k) else get l k)
get-insert_some n none l k = elim (Bool-cases (str_eq k n)) [
  | inl e ↦ rw e refl
  | inr e ↦ rw e refl
]
get-insert_some n (some t) l k = get-insert_sorted n t l k

All-insert_sorted :
    (P : Named → Type 0) (n t : Str) (l : List Named)
    → P (n, t)
    → All P l
    → All P (insert_sorted n t l)
unfolding insert_sorted
All-insert_sorted P n t [] p h = (p, tt)
All-insert_sorted P n t ((o, m) ∷ l) p (q, h) = elim (Bool-cases (str_eq o n)) [
  | inl e ↦ rw e (p, h)
  | inr e ↦ elim (Bool-cases (str_lt o n)) [
    | inl f ↦ rw (e, f) (q, All-insert_sorted P n t l p h)
    | inr f ↦ rw (e, f) (p, (q, h))
  ]
]

map-injective :
    {A B : Type 0} (f : A → B)
    → ((a b : A) → f a ≡ f b → a ≡ b)
    → (o p : Option A) → Option.map f o ≡ Option.map f p
    → o ≡ p
map-injective f h none none e = refl
map-injective f h none (some b) e = cc e
map-injective f h (some a) none e = cc e
map-injective f h (some a) (some b) e = ap some (h a b (some-injective e))

-- The members that this release knows agree.
abbrev pub SameMembers : Record → Record → Type 0
SameMembers r s =
    (r.kind ≡ s.kind)
    × (r.uri ≡ s.uri)
    × (r.actor ≡ s.actor)
    × (r.peer ≡ s.peer)
    × (r.config_from ≡ s.config_from)
    × (r.config_to ≡ s.config_to)
    × (r.transforms ≡ s.transforms)
    × (r.tool_changes ≡ s.tool_changes)

-- A name that is that of a string.
abbrev IsText : Str → Type 0
IsText name = (name ≢ str "transforms") × (name ≢ str "tool_changes")

module _ (json_str : Str → Str) where
  -- The text that a map of members has at a name.
  abbrev at : Record → Str → Option Str
  at r name = get (later_map json_str r) name

  abbrev names_text : List Str → Str
  names_text ts = canonical_json json_str (array (to_values ts))

  abbrev changes_text : ToolChanges → Str
  changes_text c = canonical_json json_str (to_value c)

  -- The map of a record without unknown members, at each known name.
  later_map-at :
      (r : Record)
      → r.extra ≡ []
      → (at r (str "kind") ≡ Option.map json_str r.kind)
        × (at r (str "uri") ≡ Option.map json_str r.uri)
        × (at r (str "actor") ≡ Option.map json_str r.actor)
        × (at r (str "peer") ≡ Option.map json_str r.peer)
        × (at r (str "config_from") ≡ Option.map json_str r.config_from)
        × (at r (str "config_to") ≡ Option.map json_str r.config_to)
        × (at r (str "transforms") ≡ Option.map names_text r.transforms)
        × (at r (str "tool_changes") ≡ Option.map changes_text r.tool_changes)
  unfolding later_map str_eq get
  later_map-at r known = rw known (
    simp (get-insert_some, over-none),
    simp (get-insert_some, over-none),
    simp (get-insert_some, over-none),
    simp (get-insert_some, over-none),
    simp (get-insert_some, over-none),
    simp (get-insert_some, over-none),
    simp (get-insert_some, over-none),
    simp (get-insert_some, over-none),
  )

  module _ (literal : IsLiteral json_str) where
    text-Known :
        (n : Str) (o : Option Str) (l : List Named)
        → IsText n
        → All (Known json_str literal) l
        → All (Known json_str literal) (insert_some n (Option.map json_str o) l)
    text-Known n none l d h = h
    text-Known n (some a) l (p, q) h =
        All-insert_sorted (Known json_str literal) n (json_str a) l (inl (a, p, q, refl)) h

    names-Known :
        (o : Option (List Str)) (l : List Named)
        → All (Known json_str literal) l
        → All (Known json_str literal) (insert_some (str "transforms") (Option.map names_text o) l)
    names-Known none l h = h
    names-Known (some ts) l h =
        All-insert_sorted (Known json_str literal) (str "transforms") (names_text ts) l
          (inr (inl (ts, refl, refl))) h

    changes-Known :
        (o : Option ToolChanges) (l : List Named)
        → All (Known json_str literal) l
        → All
            (Known json_str literal)
            (insert_some (str "tool_changes") (Option.map changes_text o) l)
    changes-Known none l h = h
    changes-Known (some c) l h =
        All-insert_sorted (Known json_str literal) (str "tool_changes") (changes_text c) l
          (inr (inr (c, refl, refl))) h

    later_map-Known :
        (r : Record) → r.extra ≡ [] → All (Known json_str literal) (later_map json_str r)
    unfolding later_map str_eq
    later_map-Known r known =
        let text : (n : Str)
            → str_eq n (str "transforms") ≡ false
            → str_eq n (str "tool_changes") ≡ false
            → IsText n =
          λ n e f. (different n (str "transforms") e, different n (str "tool_changes") f) in
        rw known (
          changes-Known r.tool_changes _ (
            names-Known r.transforms _ (
              text-Known _ r.config_to _ (text (str "config_to") refl refl) (
                text-Known _ r.config_from _ (text (str "config_from") refl refl) (
                  text-Known _ r.peer _ (text (str "peer") refl refl) (
                    text-Known _ r.actor _ (text (str "actor") refl refl) (
                      text-Known _ r.uri _ (text (str "uri") refl refl)
                        (text-Known _ r.kind _ (text (str "kind") refl refl) tt))))))))

    names_text-injective : (ts us : List Str) → names_text ts ≡ names_text us → ts ≡ us
    names_text-injective ts us e =
        (array-split json_str literal ts us [] [] (ap (λ s. s ++ []) e)).0

    changes_text-injective : (c d : ToolChanges) → changes_text c ≡ changes_text d → c ≡ d
    changes_text-injective c d e =
        (changes-split json_str literal c d [] [] (ap (λ s. s ++ []) e)).0

    -- Records without unknown members whose later members have one text agree in each of them.
    pub later_members-SameMembers :
        (r s : Record)
        → r.extra ≡ []
        → s.extra ≡ []
        → later_members json_str r ≡ later_members json_str s
        → SameMembers r s
    unfolding later_members
    later_members-SameMembers r s h k e =
        let same : later_map json_str r ≡ later_map json_str s =
          object_of-injective json_str literal _ _ (later_map-Known r h) (later_map-Known s k) e in
        let (a, b, c, d, f, g, t, u) = later_map-at r h in
        let (a', b', c', d', f', g', t', u') = later_map-at s k in
        let text : (n : Str) (o p : Option Str)
            → at r n ≡ Option.map json_str o
            → at s n ≡ Option.map json_str p
            → o ≡ p =
          λ n o p x y.
            map-injective json_str (literal-injective json_str literal) o p
              (sym x ∙ ap (λ m. get m n) same ∙ y) in
        (
          text _ _ _ a a',
          text _ _ _ b b',
          text _ _ _ c c',
          text _ _ _ d d',
          text _ _ _ f f',
          text _ _ _ g g',
          map-injective names_text names_text-injective r.transforms s.transforms
              (sym t ∙ ap (λ m. get m (str "transforms")) same ∙ t'),
          map-injective changes_text changes_text-injective r.tool_changes s.tool_changes
              (sym u ∙ ap (λ m. get m (str "tool_changes")) same ∙ u'),
        )
