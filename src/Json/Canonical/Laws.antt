-- ===== src/Json/Canonical/Laws.antt =====
-- The canonical text of a value does not depend on the order in which its objects list their
-- members.
use mcpdef.Prelude.{
  List, [], ◌∷◌, ◌++◌, true, false, ◌≡◌, ◌≢◌, inl, inr, refl, ap, ap₂, sym, ◌∙◌, Bool-cases, arith,
  false≢true,
}
use mcpdef.Str.{Str}
use mcpdef.Json.{Value, array, object, Values, no_values, value, Members, no_members, member}
use mcpdef.Json.Canonical.{
  str_lt, Named, place, sort_by_name, braced, canonical_json, canonical_items, canonical_members,
  join_commas,
}

pub str_lt_irrefl : (s : Str) → str_lt s s ≡ false
unfolding str_lt
str_lt_irrefl [] = refl
str_lt_irrefl (x ∷ s) = ground (arith, str_lt_irrefl s)

pub str_lt-asym : (s t : Str) → str_lt s t ≡ true → str_lt t s ≡ false
unfolding str_lt
str_lt-asym [] [] e = ground arith
str_lt-asym [] (y ∷ t) e = refl
str_lt-asym (x ∷ s) [] e = ground arith
str_lt-asym (x ∷ s) (y ∷ t) e = ground (arith, str_lt-asym s t)

-- Different texts are ordered one way.
pub str_lt-total : (s t : Str) → s ≢ t → str_lt s t ≡ false → str_lt t s ≡ true
unfolding str_lt
str_lt-total [] [] d e = absurd (d refl)
str_lt-total [] (y ∷ t) d e = ground arith
str_lt-total (x ∷ s) [] d e = refl
str_lt-total (x ∷ s) (y ∷ t) d e = ground (arith, str_lt-total s t)

-- From `u` not above `s` and `u` below `t`, so is `s`.
pub str_lt_trans : (s u t : Str) → str_lt u s ≡ false → str_lt u t ≡ true → str_lt s t ≡ true
unfolding str_lt
str_lt_trans [] [] [] h k = k
str_lt_trans [] (z ∷ u) [] h k = ground arith
str_lt_trans [] u (y ∷ t) h k = refl
str_lt_trans (x ∷ s) [] t h k = ground arith
str_lt_trans (x ∷ s) (z ∷ u) [] h k = ground arith
str_lt_trans (x ∷ s) (z ∷ u) (y ∷ t) h k = ground (arith, str_lt_trans s u t)

module _ (n a : Str) (o c : Str) (l : List Named) where
  place-later : str_lt o n ≡ true → place n a ((o, c) ∷ l) ≡ (o, c) ∷ place n a l
  unfolding place
  place-later e = rw e refl

  place-here : str_lt o n ≡ false → place n a ((o, c) ∷ l) ≡ (n, a) ∷ (o, c) ∷ l
  unfolding place
  place-here e = rw e refl

place-nil : (n a : Str) → place n a [] ≡ (n, a) ∷ []
unfolding place
place-nil n a = refl

not_below : (m n o : Str) → str_lt m n ≡ true → str_lt o n ≡ false → str_lt o m ≡ false
not_below m n o lt on = elim (Bool-cases (str_lt o m)) [
  | inl om ↦ absurd (false≢true (sym (str_lt-asym m n lt) ∙ str_lt_trans n o m on om))
  | inr om ↦ om
]

-- The order in which two members of different names are placed does not matter.
place-ordered :
    (m n a b : Str) (l : List Named)
    → str_lt m n ≡ true
    → place m a (place n b l) ≡ place n b (place m a l)
place-ordered m n a b [] lt =
    let x = place-here m a n b [] (str_lt-asym m n lt) in
    let y = place-later n b m a [] lt in cc (place-nil m a, place-nil n b, x, y)
place-ordered m n a b ((o, c) ∷ l) lt = elim (Bool-cases (str_lt o n)) [
  | inl on ↦ elim (Bool-cases (str_lt o m)) [
    | inl om ↦
        rw (place-later n b o c l on, place-later m a o c l om)
          (place-later m a o c (place n b l) om
            ∙ ap (λ t. (o, c) ∷ t) (place-ordered m n a b l lt)
            ∙ sym (place-later n b o c (place m a l) on))
    | inr om ↦
        rw (place-later n b o c l on, place-here m a o c l om)
          (place-here m a o c (place n b l) om
            ∙ ap (λ t. (m, a) ∷ t) (sym (place-later n b o c l on))
            ∙ sym (place-later n b m a ((o, c) ∷ l) lt))
  ]
  | inr on ↦
      let om : str_lt o m ≡ false = not_below m n o lt on in
      rw (place-here n b o c l on, place-here m a o c l om)
        (place-here m a n b ((o, c) ∷ l) (str_lt-asym m n lt)
          ∙ ap (λ t. (m, a) ∷ t) (sym (place-here n b o c l on))
          ∙ sym (place-later n b m a ((o, c) ∷ l) lt))
]

place-place :
    (m n a b : Str) (l : List Named) → m ≢ n → place m a (place n b l) ≡ place n b (place m a l)
place-place m n a b l d = elim (Bool-cases (str_lt m n)) [
  | inl lt ↦ place-ordered m n a b l lt
  | inr ge ↦ sym (place-ordered n m b a l (str_lt-total m n d ge))
]

-- Equal up to the order of an object's members, at every level.
mutual
  pub data SameValue : Value → Value → Type 0 where
    same : (v : Value) → SameValue v v
    same_array : {vs ws : Values} → SameValues vs ws → SameValue (array vs) (array ws)
    same_object : {ms ns : Members} → SameMembers ms ns → SameValue (object ms) (object ns)

  pub data SameValues : Values → Values → Type 0 where
    same_none : SameValues no_values no_values
    same_item :
        {v w : Value} {vs ws : Values}
        → SameValue v w
        → SameValues vs ws
        → SameValues (value v vs) (value w ws)

  pub data SameMembers : Members → Members → Type 0 where
    same_empty : SameMembers no_members no_members
    same_member :
        (name : Str) {v w : Value} {ms ns : Members}
        → SameValue v w
        → SameMembers ms ns
        → SameMembers (member name v ms) (member name w ns)
    swapped :
        (m n : Str) (v w : Value) (ms : Members)
        → m ≢ n
        → SameMembers (member m v (member n w ms)) (member n w (member m v ms))
    chained : {ls ms ns : Members} → SameMembers ls ms → SameMembers ms ns → SameMembers ls ns

module _ (json_str : Str → Str) where
  mutual
    unfolding canonical_json canonical_items canonical_members sort_by_name

    -- Values that differ in the order of their objects' members have one canonical text.
    pub canonical_json-SameValue :
        {v w : Value} → SameValue v w → canonical_json json_str v ≡ canonical_json json_str w
    canonical_json-SameValue (same v) = refl
    canonical_json-SameValue (same_array h) =
        ap (λ l. b'[' ∷ (join_commas l ++ (b']' ∷ []))) (canonical_items-SameValues h)
    canonical_json-SameValue (same_object h) =
        ap (braced json_str) (canonical_members-SameMembers h)

    canonical_items-SameValues :
        {vs ws : Values}
        → SameValues vs ws
        → canonical_items json_str vs ≡ canonical_items json_str ws
    canonical_items-SameValues same_none = refl
    canonical_items-SameValues (same_item h k) =
        ap₂ (λ t l. t ∷ l) (canonical_json-SameValue h) (canonical_items-SameValues k)

    canonical_members-SameMembers :
        {ms ns : Members}
        → SameMembers ms ns
        → sort_by_name (canonical_members json_str ms)
          ≡ sort_by_name (canonical_members json_str ns)
    canonical_members-SameMembers same_empty = refl
    canonical_members-SameMembers (same_member name h k) =
        ap₂ (place name) (canonical_json-SameValue h) (canonical_members-SameMembers k)
    canonical_members-SameMembers (swapped m n v w ms d) =
        place-place m n (canonical_json json_str v) (canonical_json json_str w)
          (sort_by_name (canonical_members json_str ms)) d
    canonical_members-SameMembers (chained h k) =
        canonical_members-SameMembers h ∙ canonical_members-SameMembers k
