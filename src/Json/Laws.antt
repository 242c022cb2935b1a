-- ===== src/Json/Laws.antt =====
-- What `get` says of an object after `insert` and `remove`.
use mcpdef.Prelude.{
  none, some, false, ◌≡◌, ◌≢◌, ◌⊎◌, inl, inr, refl, sym, ap, ◌∙◌, Bool-cases, eq-false_iff,
}
use mcpdef.Str.{Str, str_eq}
use mcpdef.Str.Laws.{str_eq_iff, str_eq_self}
use mcpdef.Json.{
  Value, null, boolean, number, string, array, object, get_member, as_object, Members, no_members,
  member, find_member, insert_member, remove_member,
}

pub find-insert_self :
    (ms : Members) (key : Str) (v : Value) → find_member (insert_member ms key v) key ≡ some v
unfolding find_member insert_member
find-insert_self no_members key v = rw (str_eq_self key) refl
find-insert_self (member k old rest) key v = elim (Bool-cases (str_eq k key)) [
  | inl e ↦ rw (e, e) refl
  | inr e ↦ rw (e, e) (find-insert_self rest key v)
]

apart : (j k : Str) → j ≢ k → str_eq j k ≡ false
apart j k d = (eq-false_iff (str_eq j k) (str_eq_iff j k)).1 d

pub find-insert_ne :
    (ms : Members) (key other : Str) (v : Value)
    → key ≢ other
    → find_member (insert_member ms key v) other ≡ find_member ms other
unfolding find_member insert_member
find-insert_ne no_members key other v d = rw (apart key other d) refl
find-insert_ne (member k old rest) key other v d = elim (Bool-cases (str_eq k key)) [
  | inl e ↦
      let f : str_eq k other ≡ false = apart k other (λ s. d (sym ((str_eq_iff k key).0 e) ∙ s)) in
      rw (e, f) refl
  | inr e ↦ elim (Bool-cases (str_eq k other)) [
    | inl f ↦ rw (e, f) refl
    | inr f ↦ rw (e, f) (find-insert_ne rest key other v d)
  ]
]

pub find-remove_ne :
    (ms : Members) (key other : Str)
    → key ≢ other
    → find_member (remove_member ms key) other ≡ find_member ms other
unfolding find_member remove_member
find-remove_ne no_members key other d = refl
find-remove_ne (member k v rest) key other d = elim (Bool-cases (str_eq k key)) [
  | inl e ↦
      let f : str_eq k other ≡ false = apart k other (λ s. d (sym ((str_eq_iff k key).0 e) ∙ s)) in
      rw (e, f) refl
  | inr e ↦ elim (Bool-cases (str_eq k other)) [
    | inl f ↦ rw (e, f) refl
    | inr f ↦ rw (e, f) (find-remove_ne rest key other d)
  ]
]

-- An object's key stands once.
abbrev pub IsObject : Members → Type 0
IsObject no_members = Unit
IsObject (member k v rest) = (find_member rest k ≡ none) × IsObject rest

pub find-remove_self :
    (ms : Members) (key : Str) → IsObject ms → find_member (remove_member ms key) key ≡ none
unfolding find_member remove_member
find-remove_self no_members key h = refl
find-remove_self (member k v rest) key (new, h) = elim (Bool-cases (str_eq k key)) [
  | inl e ↦ rw e (ap (find_member rest) (sym ((str_eq_iff k key).0 e)) ∙ new)
  | inr e ↦ rw (e, e) (find-remove_self rest key h)
]

pub remove-IsObject : (ms : Members) (key : Str) → IsObject ms → IsObject (remove_member ms key)
unfolding remove_member
remove-IsObject no_members key h = tt
remove-IsObject (member k v rest) key (new, h) = elim (Bool-cases (str_eq k key)) [
  | inl e ↦ rw e h
  | inr e ↦ rw e (
    find-remove_ne rest key k (λ s. (eq-false_iff (str_eq k key) (str_eq_iff k key)).0 e (sym s))
        ∙ new,
    remove-IsObject rest key h,
  )
]

-- Inserting a key's own value again changes nothing.
pub insert-insert_self :
    (ms : Members) (key : Str) (v w : Value)
    → insert_member (insert_member ms key v) key w ≡ insert_member ms key w
unfolding insert_member
insert-insert_self no_members key v w = rw (str_eq_self key) refl
insert-insert_self (member k old rest) key v w = elim (Bool-cases (str_eq k key)) [
  | inl e ↦ rw (e, e) refl
  | inr e ↦ rw (e, e) (ap (member k old) (insert-insert_self rest key v w))
]

pub object-cases :
    (v : Value)
    → ((ms : Members) × (v ≡ object ms))
      ⊎ ((as_object v ≡ none) × ((k : Str) → get_member v k ≡ none))
unfolding get_member
object-cases (object ms) = inl (ms, refl)
object-cases null = inr (refl, λ k. refl)
object-cases (boolean b) = inr (refl, λ k. refl)
object-cases (number n) = inr (refl, λ k. refl)
object-cases (string s) = inr (refl, λ k. refl)
object-cases (array vs) = inr (refl, λ k. refl)

-- A key that is there keeps its place, so the order of two insertions does not matter then.
pub insert-insert_ne :
    (ms : Members) (a b : Str) (v w old : Value)
    → a ≢ b
    → find_member ms a ≡ some old
    → insert_member (insert_member ms b w) a v ≡ insert_member (insert_member ms a v) b w
unfolding find_member insert_member
insert-insert_ne no_members a b v w old d h = cc h
insert-insert_ne (member k u rest) a b v w old d h = elim (Bool-cases (str_eq k a)) [
  | inl e ↦
      let f : str_eq k b ≡ false = apart k b (λ s. d (sym ((str_eq_iff k a).0 e) ∙ s)) in
      rw (e, f) (rw e refl)
  | inr e ↦ elim (Bool-cases (str_eq k b)) [
    | inl f ↦ rw (e, f) (rw e refl)
    | inr f ↦ rw (e, f) (rw e (ap (member k u) (insert-insert_ne rest a b v w old d (rw e at h))))
  ]
]
