-- ===== src/Wire/Meta/Strip.antt =====
-- What a request says of itself after the newer revision's metadata is taken off.
use mcpdef.Prelude.{
  Option, none, some, true, false, ◌≡◌, ◌≢◌, ◌⊎◌, inl, inr, refl, sym, ap, ◌∙◌, if_cases,
}
use mcpdef.Str.{Str, str}
use mcpdef.Json.{Value, object, Members, no_members, member, find_member, remove_member, get_member}
use mcpdef.Json.Laws.{
  find-insert_self, find-insert_ne, find-remove_self, find-remove_ne, remove-IsObject, IsObject,
  object-cases,
}
use mcpdef.Message.{Message, then_get}
use mcpdef.Wire.{meta_version, meta_client, meta_capabilities, meta}
use mcpdef.Wire.Meta.{stripped, has_none, strip_meta, then_object, strip_modern_meta}
use mcpdef.Wire.Meta.Laws.{version≢client, version≢capabilities, client≢capabilities}

-- No key stands twice in the parameters, nor in their `_meta`.
abbrev pub IsWellFormed : Message → Type 0
IsWellFormed m =
    ((params : Members) → m.params ≡ some (object params) → IsObject params)
    × ((metas : Members) → meta m ≡ some (object metas) → IsObject metas)

-- A key that only the newer revision's `_meta` has.
abbrev pub IsModernKey : Str → Type 0
IsModernKey k = (k ≡ meta_version) ⊎ ((k ≡ meta_client) ⊎ (k ≡ meta_capabilities))

find-stripped :
    (m : Members) (k : Str)
    → IsObject m
    → (IsModernKey k → find_member (stripped m) k ≡ none)
      × (¬ IsModernKey k → find_member (stripped m) k ≡ find_member m k)
find-stripped m k h = (gone, kept)
  where
    one : Members
    one = remove_member m meta_version

    two : Members
    two = remove_member one meta_client

    gone : IsModernKey k → find_member (stripped m) k ≡ none
    gone (inl e) =
        ap (find_member (stripped m)) e
        ∙ find-remove_ne two meta_capabilities meta_version (λ s. version≢capabilities (sym s))
        ∙ find-remove_ne one meta_client meta_version (λ s. version≢client (sym s))
        ∙ find-remove_self m meta_version h
    gone (inr (inl e)) =
        ap (find_member (stripped m)) e
        ∙ find-remove_ne two meta_capabilities meta_client (λ s. client≢capabilities (sym s))
        ∙ find-remove_self one meta_client (remove-IsObject m meta_version h)
    gone (inr (inr e)) =
        ap (find_member (stripped m)) e
        ∙ find-remove_self two meta_capabilities
            (remove-IsObject one meta_client (remove-IsObject m meta_version h))

    kept : ¬ IsModernKey k → find_member (stripped m) k ≡ find_member m k
    kept d =
        find-remove_ne two meta_capabilities k (λ e. d (inr (inr (sym e))))
        ∙ find-remove_ne one meta_client k (λ e. d (inr (inl (sym e))))
        ∙ find-remove_ne m meta_version k (λ e. d (inl (sym e)))

empty-cases : (ms : Members) → ((has_none ms ≡ true) × (no_members ≡ ms)) ⊎ (has_none ms ≡ false)
empty-cases no_members = inl (refl, refl)
empty-cases (member k v rest) = inr refl

-- What a key of `_meta` holds after it is stripped.
then-strip_meta :
    (params metas : Members) (k : Str)
    → IsObject params
    → then_get (find_member (strip_meta params (some metas)) (str "_meta")) k
      ≡ find_member (stripped metas) k
unfolding get_member find_member
then-strip_meta params metas k h = elim (empty-cases (stripped metas)) [
  | inl (none_left, e) ↦ rw none_left (
      ap (λ o. then_get o k) (find-remove_self params (str "_meta") h)
      ∙ ap (λ ms. find_member ms k) e)
  | inr some_left ↦
      rw some_left
        (ap (λ o. then_get o k) (find-insert_self params (str "_meta") (object (stripped metas))))
]

other-strip_meta :
    (params : Members) (metas : Option Members) (k : Str)
    → k ≢ str "_meta"
    → find_member (strip_meta params metas) k ≡ find_member params k
other-strip_meta params none k d = refl
other-strip_meta params (some metas) k d =
    if_cases (λ x. find_member x k ≡ find_member params k) (has_none (stripped metas)) _ _
      (λ _. find-remove_ne params (str "_meta") k (λ e. d (sym e)))
      (λ _. find-insert_ne params (str "_meta") k (object (stripped metas)) (λ e. d (sym e)))

-- The parameters of a message, by what they are.
params-cases :
    (o : Option Value)
    → ((params : Members) × (o ≡ some (object params)))
      ⊎ ((then_object o ≡ none) × ((k : Str) → then_get o k ≡ none))
unfolding get_member
params-cases none = inr (refl, λ k. refl)
params-cases (some v) = elim (object-cases v) [
  | inl (params, e) ↦ inl (params, ap some e)
  | inr h ↦ inr h
]

-- The members of `_meta` after a stripping are the old ones but for the newer revision's.
abbrev pub Strips : Option Value → Option Value → Str → Type 0
Strips old new k =
    (IsModernKey k → then_get new k ≡ none) × (¬ IsModernKey k → then_get new k ≡ then_get old k)

meta-Strips :
    (params : Members) (k : Str)
    → IsObject params
    → ((metas : Members) → find_member params (str "_meta") ≡ some (object metas) → IsObject metas)
    → Strips
        (find_member params (str "_meta"))
        (find_member
          (strip_meta params (then_object (find_member params (str "_meta"))))
          (str "_meta"))
        k
unfolding get_member
meta-Strips params k h g = elim (params-cases (find_member params (str "_meta"))) [
  | inl (metas, e) ↦
      let (gone, kept) = find-stripped metas k (g metas e) in
      let after = then-strip_meta params metas k h in
      rw e (λ m. after ∙ gone m, λ d. after ∙ kept d)
  | inr (e, nothing) ↦ rw e (λ _. nothing k, λ _. refl)
]

-- Only the newer revision's keys of `_meta` are taken off a message, and all of them: every other
-- key of `_meta` and every other parameter is what it was, where no key stands twice in them.
pub then_get-strip :
    (m : Message) (k : Str)
    → IsWellFormed m
    → Strips (meta m) (meta (strip_modern_meta m)) k
      × (k ≢ str "_meta" → then_get (strip_modern_meta m).params k ≡ then_get m.params k)
unfolding strip_modern_meta get_member
then_get-strip m k (h, g) = elim (params-cases m.params) [
  | inl (params, e) ↦ rw e (
    meta-Strips params k (h params e) (λ metas f. g metas (rw e f)),
    other-strip_meta params (then_object (find_member params (str "_meta"))) k,
  )
  | inr (e, nothing) ↦
      rw e ((λ _. ap (λ o. then_get o k) (nothing (str "_meta")), λ _. refl), λ _. refl)
]
