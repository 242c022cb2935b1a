-- ===== src/Table/Laws.antt =====
-- Lookup and insertion.
use mcpdef.Prelude.{
  List, [], ◌∷◌, Option, none, some, true, false, ◌≡◌, ◌≢◌, inl, inr, refl, sym, ap, subst, ◌∙◌,
  All, Any, Bool-cases, eq-false_iff, false≢true,
}
use mcpdef.Table.{Key, get, insert, IsMap}

module _ {K : Type 0} ⦃key : Key K⦄ where
  pub same_self : (k : K) → key.same k k ≡ true
  same_self k = (key.same_iff k k).1 refl

  pub same_ne : (k k' : K) → k ≢ k' → key.same k k' ≡ false
  same_ne k k' d = (eq-false_iff (key.same k k') (key.same_iff k k')).1 d

module _ {K V : Type 0} ⦃key : Key K⦄ where
  pub get-insert_self : (t : List (K × V)) (k : K) (v : V) → get (insert t k v) k ≡ some v
  unfolding get insert
  get-insert_self [] k v = rw (same_self k) refl
  get-insert_self ((k', v') ∷ t) k v = elim (Bool-cases (key.same k k')) [
    | inl e ↦ rw (e, same_self k) refl
    | inr e ↦ rw (e, e) (get-insert_self t k v)
  ]

  pub get-insert_ne :
      (t : List (K × V)) (k k' : K) (v : V) → k' ≢ k → get (insert t k v) k' ≡ get t k'
  unfolding get insert
  get-insert_ne [] k k' v d = rw (same_ne k' k d) refl
  get-insert_ne ((j, w) ∷ t) k k' v d = elim (Bool-cases (key.same k j)) [
    | inl e ↦
        let apart : key.same k' j ≡ false =
          same_ne k' j (λ h. d (h ∙ sym ((key.same_iff k j).0 e))) in
        rw (e, same_ne k' k d, apart) refl
    | inr e ↦ rw e (elim (Bool-cases (key.same k' j)) [
      | inl f ↦ rw f refl
      | inr f ↦ rw f (get-insert_ne t k k' v d)
    ])
  ]

  pub All-insert :
      (P : K × V → Type 0) (t : List (K × V)) (k : K) (v : V)
      → P (k, v)
      → All P t
      → All P (insert t k v)
  unfolding insert
  All-insert P [] k v p h = (p, tt)
  All-insert P ((j, w) ∷ t) k v p h = elim (Bool-cases (key.same k j)) [
    | inl e ↦ rw e (p, h.1)
    | inr e ↦ rw e (h.0, All-insert P t k v p h.1)
  ]

  pub insert-IsMap : (t : List (K × V)) (k : K) (v : V) → IsMap t → IsMap (insert t k v)
  unfolding insert
  insert-IsMap [] k v h = (tt, tt)
  insert-IsMap ((j, w) ∷ t) k v h = elim (Bool-cases (key.same k j)) [
    | inl e ↦
        rw e (subst (λ x. All (λ entry. x ≢ entry.0) t) (sym ((key.same_iff k j).0 e)) h.0, h.1)
    | inr e ↦ rw e (
      All-insert (λ entry. j ≢ entry.0) t k v
          (λ g. false≢true (sym e ∙ (key.same_iff k j).1 (sym g))) h.0,
      insert-IsMap t k v h.1,
    )
  ]

  get-absent : (t : List (K × V)) (k : K) → All (λ entry. k ≢ entry.0) t → get t k ≡ none
  unfolding get
  get-absent [] k h = refl
  get-absent ((j, w) ∷ t) k h = rw (same_ne k j h.0) (get-absent t k h.1)

  -- In a map, the entries are what `get` finds.
  pub Any-get :
      (P : K → V → Type 0) (t : List (K × V))
      → IsMap t
      → Any (λ entry. P entry.0 entry.1) t
      → (k : K) × (v : V) × (get t k ≡ some v) × P k v
  unfolding get
  Any-get P [] m h = absurd h
  Any-get P ((j, w) ∷ t) m (inl p) = (j, w, rw (same_self j) refl, p)
  Any-get P ((j, w) ∷ t) m (inr h) =
      let (k, v, e, p) = Any-get P t m.1 h in
      elim (Bool-cases (key.same k j)) [
        | inl f ↦
            absurd
              (none≢some (sym (get-absent t j m.0) ∙ ap (get t) (sym ((key.same_iff k j).0 f)) ∙ e))
        | inr f ↦ (k, v, rw f e, p)
      ]
    where
      none≢some : {v : V} → ¬ (◌≡◌ {A = Option V} none (some v))
      none≢some e = cc

  pub get-Any :
      (P : K → V → Type 0) (t : List (K × V)) (k : K) (v : V)
      → get t k ≡ some v
      → P k v
      → Any (λ entry. P entry.0 entry.1) t
  unfolding get
  get-Any P [] k v e p = cc
  get-Any P ((j, w) ∷ t) k v e p = elim (Bool-cases (key.same k j)) [
    | inl f ↦
        inl (subst (λ x. P x w) ((key.same_iff k j).0 f) (subst (P k) (sym (found (rw f at e))) p))
    | inr f ↦ inr (get-Any P t k v (rw f at e) p)
  ]
    where
      found : some w ≡ some v → w ≡ v
      found e = cc

  pub All-get :
      (P : K × V → Type 0) (t : List (K × V)) (k : K) (v : V)
      → All P t
      → get t k ≡ some v
      → (j : K) × P (j, v)
  unfolding get
  All-get P [] k v h e = cc
  All-get P ((j, w) ∷ t) k v h e = elim (Bool-cases (key.same k j)) [
    | inl f ↦ (j, subst (λ x. P (j, x)) (found (rw f at e)) h.0)
    | inr f ↦ All-get P t k v h.1 (rw f at e)
  ]
    where
      found : some w ≡ some v → w ≡ v
      found e = cc
