-- ===== src/Transform/Laws.antt =====
-- What an edit leaves at its path.
use mcpdef.Prelude.{
  List, [], ◌∷◌, ◌++◌, Option, none, some, Bool, true, ◌≡◌, ◌⊎◌, inl, inr, refl, sym, ap, ◌∙◌,
  Option-cases,
}
use mcpdef.Str.{Str, split}
use mcpdef.Str.Laws.{split-cons}
use mcpdef.Json.{
  Value, null, boolean, number, string, array, object, Members, no_members, find_member,
  insert_member, get_member,
}
use mcpdef.Rules.{walk, resolve_path}
use mcpdef.Json.Laws.{find-insert_self}
use mcpdef.Transform.{
  Serde, set, Edited, done, refused, into, blocked, opened, Step, put_back, in_holder, as_changed,
  in_args, last_key, edit_at, apply_edit, differs,
}

last_key-cases :
    (segs keys : List Str) (last : Str)
    → last_key segs ≡ some (keys, last)
    → segs ≡ keys ++ (last ∷ [])
last_key-cases [] keys last e = cc e
last_key-cases (key ∷ []) keys last e = cc e
last_key-cases (key ∷ (next ∷ segs)) keys last e = elim (Option-cases (last_key (next ∷ segs))) [
  | inl f ↦ cc (rw f at e)
  | inr ((keys', last'), f) ↦
      let same : some (key ∷ keys', last') ≡ some (keys, last) = rw f at e in
      ap (λ l. key ∷ l) (last_key-cases (next ∷ segs) keys' last' f) ∙ cc same
]

opened-cases :
    (o : Option Value)
    → ((inner : Members) × (opened true o ≡ into inner))
      ⊎ ((other : Value) × (opened true o ≡ blocked other))
opened-cases none = inl (no_members, refl)
opened-cases (some null) = inl (no_members, refl)
opened-cases (some (object m)) = inl (m, refl)
opened-cases (some (boolean b)) = inr (boolean b, refl)
opened-cases (some (number n)) = inr (number n, refl)
opened-cases (some (string s)) = inr (string s, refl)
opened-cases (some (array v)) = inr (array v, refl)

put_back-done :
    (m : Members) (key : Str) (r : Edited (Bool × Members)) (changed : Bool) (after : Members)
    → put_back m key r ≡ done (changed, after)
    → (inner : Members) × (r ≡ done (changed, inner)) × (insert_member m key (object inner) ≡ after)
put_back-done m key (refused why) changed after e = cc e
put_back-done m key (done (c, inner)) changed after e = (inner, cc e, cc e)

walk-insert_member :
    (m : Members) (key : Str) (v : Value) (keys : List Str)
    → walk (object (insert_member m key v)) (key ∷ keys) ≡ walk v keys
unfolding walk get_member
walk-insert_member m key v keys = rw (find-insert_self m key v, walk, get_member) refl

module _ (S : Serde) (v : Value) (last : Str) where
  abbrev put : Step
  put m = done (differs S (find_member m last) v, insert_member m last v)

  in_holder-set :
      (before keys : List Str) (m : Members) (changed : Bool) (after : Members)
      → in_holder true before keys put m ≡ done (changed, after)
      → walk (object after) (keys ++ (last ∷ [])) ≡ some v
  unfolding in_holder walk
  in_holder-set before [] m changed after e =
      let same : insert_member m last v ≡ after = cc e in
      ap (λ x. walk (object x) (last ∷ [])) (sym same) ∙ walk-insert_member m last v []
  in_holder-set before (key ∷ keys) m changed after e = elim (opened-cases (find_member m key)) [
    | inl (inner, o) ↦
        let (inner', r, same) =
          put_back-done m key (in_holder true (before ++ (key ∷ [])) keys put inner) changed after
            (rw (o, in_holder) at e) in
        ap (λ x. walk (object x) (key ∷ (keys ++ (last ∷ [])))) (sym same)
        ∙ walk-insert_member m key (object inner') (keys ++ (last ∷ []))
        ∙ in_holder-set (before ++ (key ∷ [])) keys inner changed inner' r
    | inr (other, o) ↦ cc (rw (o, in_holder) at e)
  ]

  as_changed-set :
      (keys : List Str) (m : Members) (changed : Bool) (after : Value)
      → as_changed (in_holder true [] keys put m) ≡ done (changed, after)
      → walk after (keys ++ (last ∷ [])) ≡ some v
  as_changed-set keys m changed after e = found (in_holder true [] keys put m) refl e
    where
      found :
          (r : Edited (Bool × Members))
          → in_holder true [] keys put m ≡ r
          → as_changed r ≡ done (changed, after)
          → walk after (keys ++ (last ∷ [])) ≡ some v
      found (refused why) h f = cc f
      found (done (c, m')) h f =
          let same : object m' ≡ after = cc f in
          ap (λ x. walk x (keys ++ (last ∷ []))) (sym same) ∙ in_holder-set [] keys m c m' h

  in_args-set :
      (keys : List Str) (args : Value) (changed : Bool) (after : Value)
      → in_args true keys put args ≡ done (changed, after)
      → walk after (keys ++ (last ∷ [])) ≡ some v
  in_args-set keys null changed after e = as_changed-set keys no_members changed after e
  in_args-set keys (object m) changed after e = as_changed-set keys m changed after e
  in_args-set keys (boolean b) changed after e = cc e
  in_args-set keys (number n) changed after e = cc e
  in_args-set keys (string s) changed after e = cc e
  in_args-set keys (array w) changed after e = cc e

last_key-some : (key : Str) (keys : List Str) → ¬ (last_key (key ∷ keys) ≡ none)
last_key-some key [] e = cc e
last_key-some key (next ∷ keys) e = elim (Option-cases (last_key (next ∷ keys))) [
  | inl f ↦ last_key-some next keys f
  | inr (found, f) ↦ cc (rw f at e)
]

split-full : (path : Str) → ¬ (last_key (split b'.' path) ≡ none)
split-full path e =
    let (p, ps, f) = split-cons b'.' path in last_key-some p ps (sym (ap last_key f) ∙ e)

-- A `set` edit that applies leaves its value at its path, where a rule's argument test finds it:
-- whatever stood there, and whether the objects on the way were there or were made.
pub resolve_path-set :
    (S : Serde) (path : Str) (v args after : Value) (changed : Bool)
    → apply_edit S (record { path = path; op = set v }) args ≡ done (changed, after)
    → resolve_path after path ≡ some v
unfolding apply_edit edit_at resolve_path
resolve_path-set S path v args after changed e = elim (Option-cases (last_key (split b'.' path))) [
  | inl f ↦ absurd (split-full path f)
  | inr ((keys, last), f) ↦
      ap (walk after) (last_key-cases (split b'.' path) keys last f)
      ∙ in_args-set S v last keys args changed after (rw (f, apply_edit) at e)
]
