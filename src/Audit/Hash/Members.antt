-- ===== src/Audit/Hash/Members.antt =====
-- What the text of a record's later members fixes: the members that this release knows.
use mcpdef.Prelude.{
  some-injective, ℕ, ◌<◌, List, [], ◌∷◌, ◌++◌, ◌≡◌, ◌≢◌, ◌⊎◌, inl, inr, refl, sym, ap, ◌∙◌, subst,
  append-nil, append_assoc, All, arith,
}
use mathlib.Core.List.{tail}
use mcpdef.Str.{Str, str, str_eq}
use mcpdef.Str.Laws.{different, Free}
use mcpdef.Str.Decimal.{decimal, decimal-injective, decimal-Free, decimal-Free_above}
use mcpdef.Table.{str_key}
use mcpdef.Json.{array}
use mcpdef.Json.Canonical.{
  Named, str_lt, place, sort_by_name, join_commas, written, braced, canonical_json, canonical_items,
  canonical_members,
}
use mcpdef.Audit.{ToolChanges, to_value}
use mcpdef.Audit.Hash.{to_values, object_of}
use mcpdef.Audit.Hash.Laws.{peel_at}

abbrev first : Str → ℕ
first [] = 0
first (c ∷ s) = c

-- Pieces with a comma before each, and a closing character after them.
module _ {A : Type 0} (P : A → Type 0) (piece : A → Str)
    (split : (a b : A) (x y : Str)
      → P a
      → P b
      → piece a ++ x ≡ piece b ++ y
      → (a ≡ b) × (x ≡ y)) where
  abbrev after : List A → Str
  after [] = []
  after (a ∷ rest) = b',' ∷ (piece a ++ after rest)

  after-split :
      (close : ℕ)
      → close ≢ b','
      → (l m : List A) (x y : Str) → All P l
      → All P m
      → after l ++ (close ∷ x) ≡ after m ++ (close ∷ y)
      → (l ≡ m) × (x ≡ y)
  after-split close d [] [] x y p q e = (refl, ap tail e)
  after-split close d [] (b ∷ m) x y p q e = absurd (d cc e)
  after-split close d (a ∷ l) [] x y p q e = absurd (d (sym cc e))
  after-split close d (a ∷ l) (b ∷ m) x y (p, ps) (q, qs) e =
      let (f, g) = split a b (after l ++ (close ∷ x)) (after m ++ (close ∷ y)) p q (
        sym (append_assoc (piece a) (after l) (close ∷ x))
        ∙ ap tail e
        ∙ append_assoc (piece b) (after m) (close ∷ y)) in
      let (h, k) = after-split close d l m x y ps qs g in (cc (f, h), k)

bracket≢quote : ◌≢◌ {A = ℕ} b']' b'"'
bracket≢quote h = omega arith

apart : str "transforms" ≢ str "tool_changes"
unfolding str_eq
apart = different (str "transforms") (str "tool_changes") refl

-- The texts of string literals: each opens with a quote, and where one ends can be told.
pub record IsLiteral (json_str : Str → Str) : Type 0 where
  pub quoted : (a : Str) → (t : Str) × (json_str a ≡ b'"' ∷ t)
  pub ends : (a b x y : Str) → json_str a ++ x ≡ json_str b ++ y → (a ≡ b) × (x ≡ y)

module _ (json_str : Str → Str) (literal : IsLiteral json_str) where
  pub literal-injective : (a b : Str) → json_str a ≡ json_str b → a ≡ b
  literal-injective a b e = (literal.ends a b [] [] (ap (λ s. s ++ []) e)).0

  -- A member's text, which depends on its name.
  abbrev pub Known : Named → Type 0
  Known (name, text) =
      ((a : Str) × (name ≢ str "transforms") × (name ≢ str "tool_changes") × (text ≡ json_str a))
      ⊎ (((ts : List Str) × (name ≡ str "transforms")
            × (text ≡ canonical_json json_str (array (to_values ts))))
          ⊎ ((c : ToolChanges) × (name ≡ str "tool_changes")
              × (text ≡ canonical_json json_str (to_value c))))

  abbrev strings : List Str → Str
  strings = after (λ _. Unit) json_str (λ a b x y _ _ e. literal.ends a b x y e)

  all_strings : (ts : List Str) → All (λ _. Unit) ts
  all_strings [] = tt
  all_strings (t ∷ ts) = (tt, all_strings ts)

  strings-split :
      (ts us : List Str) (x y : Str)
      → strings ts ++ (b']' ∷ x) ≡ strings us ++ (b']' ∷ y)
      → (ts ≡ us) × (x ≡ y)
  strings-split ts us x y e =
      after-split (λ _. Unit) json_str (λ a b x y _ _ e. literal.ends a b x y e) b']'
        (λ h. omega arith) ts us x y (all_strings ts) (all_strings us) e

  items-strings :
      (t : Str) (ts : List Str)
      → join_commas (canonical_items json_str (to_values (t ∷ ts))) ≡ json_str t ++ strings ts
  unfolding canonical_items canonical_json
  items-strings t [] = sym (append-nil (json_str t))
  items-strings t (u ∷ ts) = ap (λ s. json_str t ++ (b',' ∷ s)) (items-strings u ts)

  array-strings :
      (t : Str) (ts : List Str) (x : Str)
      → canonical_json json_str (array (to_values (t ∷ ts))) ++ x
        ≡ b'[' ∷ (json_str t ++ (strings ts ++ (b']' ∷ x)))
  unfolding canonical_json
  array-strings t ts x =
      ap (λ s. b'[' ∷ ((s ++ (b']' ∷ [])) ++ x)) (items-strings t ts) ∙ simp append_assoc

  no_item : (t w x : Str) → b']' ∷ x ≢ json_str t ++ w
  no_item t w x e =
      let (q, h) = literal.quoted t in bracket≢quote (ap first (e ∙ ap (λ s. s ++ w) h))

  pub array-split :
      (ts us : List Str) (x y : Str)
      → canonical_json json_str (array (to_values ts)) ++ x
        ≡ canonical_json json_str (array (to_values us)) ++ y
      → (ts ≡ us) × (x ≡ y)
  unfolding canonical_json canonical_items
  array-split [] [] x y e = (refl, ap (λ s. tail (tail s)) e)
  array-split [] (u ∷ us) x y e = absurd (no_item u _ x (ap tail (e ∙ array-strings u us y)))
  array-split (t ∷ ts) [] x y e = absurd (no_item t _ y (ap tail (sym e ∙ array-strings t ts x)))
  array-split (t ∷ ts) (u ∷ us) x y e =
      let (f, g) =
        literal.ends t u _ _ (ap tail (sym (array-strings t ts x) ∙ e ∙ array-strings u us y)) in
      let (h, k) = strings-split ts us x y g in (cc (f, h), k)

  changes_text : ToolChanges → Str → Str
  changes_text c x =
      b'{'
      ∷ (json_str (str "added")
          ++ (b':'
              ∷ (decimal c.added
                  ++ (b','
                      ∷ (json_str (str "changed")
                          ++ (b':'
                              ∷ (decimal c.changed
                                  ++ (b','
                                      ∷ (json_str (str "drifted")
                                          ++ (b':'
                                              ∷ (decimal c.drifted
                                                  ++ (b','
                                                      ∷ (json_str (str "removed")
                                                          ++ (b':'
                                                            ∷ (decimal c.removed
                                                            ++ (b'}' ∷ x))))))))))))))))

  changes_text-canonical :
      (c : ToolChanges) (x : Str) → canonical_json json_str (to_value c) ++ x ≡ changes_text c x
  unfolding canonical_json canonical_members sort_by_name place str_lt changes_text
  changes_text-canonical c x = simp append_assoc

  member-split :
      (name : Str) (m n : ℕ) (x y : Str) (k : ℕ)
      → (k < 48) ⊎ (57 < k)
      → json_str name ++ (b':' ∷ (decimal m ++ (k ∷ x)))
        ≡ json_str name ++ (b':' ∷ (decimal n ++ (k ∷ y)))
      → (m ≡ n) × (x ≡ y)
  member-split name m n x y k h e =
      let rest = ap tail (literal.ends name name _ _ e).1 in
      let (f, g) = peel_at k (decimal m) (decimal n) x y (clear m) (clear n) rest in
      (decimal-injective m n f, g)
    where
      clear : (n : ℕ) → Free k (decimal n)
      clear n = elim h [ inl l ↦ decimal-Free k n l | inr l ↦ decimal-Free_above k n l ]

  pub changes-split :
      (c d : ToolChanges) (x y : Str)
      → canonical_json json_str (to_value c) ++ x ≡ canonical_json json_str (to_value d) ++ y
      → (c ≡ d) × (x ≡ y)
  unfolding changes_text
  changes-split c d x y e =
      let whole = ap tail (sym (changes_text-canonical c x) ∙ e ∙ changes_text-canonical d y) in
      let (a, e1) = member-split _ _ _ _ _ _ (inl (omega arith)) whole in
      let (b, e2) = member-split _ _ _ _ _ _ (inl (omega arith)) e1 in
      let (f, e3) = member-split _ _ _ _ _ _ (inl (omega arith)) e2 in
      let (g, e4) = member-split _ _ _ _ _ _ (inr (omega arith)) e3 in (cc (a, b, f, g), e4)

  Known-split :
      (n t u x y : Str) → Known (n, t) → Known (n, u) → t ++ x ≡ u ++ y → (t ≡ u) × (x ≡ y)
  Known-split n t u x y (inl (a, _, _, f)) (inl (b, _, _, g)) e =
      let (h, k) = literal.ends a b x y (ap (λ s. s ++ x) (sym f) ∙ e ∙ ap (λ s. s ++ y) g) in
      (f ∙ ap json_str h ∙ sym g, k)
  Known-split n t u x y (inr (inl (a, _, f))) (inr (inl (b, _, g))) e =
      let (h, k) = array-split a b x y (ap (λ s. s ++ x) (sym f) ∙ e ∙ ap (λ s. s ++ y) g) in
      (f ∙ ap (λ l. canonical_json json_str (array (to_values l))) h ∙ sym g, k)
  Known-split n t u x y (inr (inr (a, _, f))) (inr (inr (b, _, g))) e =
      let (h, k) = changes-split a b x y (ap (λ s. s ++ x) (sym f) ∙ e ∙ ap (λ s. s ++ y) g) in
      (f ∙ ap (λ c. canonical_json json_str (to_value c)) h ∙ sym g, k)
  Known-split n t u x y (inl (a, p, q, _)) (inr (inl (b, m, _))) e = absurd (p m)
  Known-split n t u x y (inl (a, p, q, _)) (inr (inr (b, m, _))) e = absurd (q m)
  Known-split n t u x y (inr (inl (a, m, _))) (inl (b, p, q, _)) e = absurd (p m)
  Known-split n t u x y (inr (inr (a, m, _))) (inl (b, p, q, _)) e = absurd (q m)
  Known-split n t u x y (inr (inl (a, m, _))) (inr (inr (b, o, _))) e = absurd (apart (sym m ∙ o))
  Known-split n t u x y (inr (inr (a, m, _))) (inr (inl (b, o, _))) e = absurd (apart (sym o ∙ m))

  abbrev named_text : Named → Str
  named_text (name, text) = json_str name ++ (b':' ∷ text)

  named-split :
      (a b : Named) (x y : Str)
      → Known a
      → Known b
      → named_text a ++ x ≡ named_text b ++ y
      → (a ≡ b) × (x ≡ y)
  named-split (n, t) (m, u) x y p q e =
      let (f, g) = literal.ends n m ((b':' ∷ t) ++ x) ((b':' ∷ u) ++ y) (
        sym (append_assoc (json_str n) (b':' ∷ t) x)
        ∙ e
        ∙ append_assoc (json_str m) (b':' ∷ u) y) in
      let (h, k) = Known-split n t u x y p (subst (λ z. Known (z, u)) (sym f) q) (ap tail g) in
      (cc (f, h), k)

  abbrev members_text : List Named → Str
  members_text = after Known named_text named-split

  written-members :
      (a : Named) (l : List Named)
      → join_commas (written json_str (a ∷ l)) ≡ named_text a ++ members_text l
  written-members a [] = sym (append-nil (named_text a))
  written-members a (b ∷ l) = ap (λ s. named_text a ++ (b',' ∷ s)) (written-members b l)

  pub object_of-injective :
      (l m : List Named)
      → All Known l
      → All Known m
      → object_of json_str l ≡ object_of json_str m
      → l ≡ m
  object_of-injective [] [] p q e = refl
  object_of-injective [] (b ∷ m) p q e = cc e
  object_of-injective (a ∷ l) [] p q e = cc e
  object_of-injective (a ∷ l) (b ∷ m) (p, ps) (q, qs) e =
      let plain : (c : Named) (n : List Named)
          → braced json_str (c ∷ n) ≡ b'{' ∷ (named_text c ++ (members_text n ++ (b'}' ∷ []))) =
        λ c n.
          ap (λ s. b'{' ∷ (s ++ (b'}' ∷ []))) (written-members c n)
          ∙ ap (λ s. b'{' ∷ s) (append_assoc (named_text c) (members_text n) (b'}' ∷ [])) in
      let (f, g) =
        named-split a b _ _ p q (ap tail (sym (plain a l) ∙ some-injective e ∙ plain b m)) in
      let (h, _) =
        after-split Known named_text named-split b'}' (λ h. omega arith) l m [] [] ps qs g in
      cc (f, h)
