-- ===== src/Glob/Pattern.antt =====
-- What a glob means, for both dialects of crates/mcpdef-policy/src/glob.rs: a sequence of items,
-- each one element or any run of elements. It knows nothing of how a match is found.
use mathlib.Core.List.{tail}
use mcpdef.Prelude.{
  ◌≡◌, refl, sym, ap, ◌∙◌, List, [], ◌∷◌, ◌++◌, map, append_assoc, ◌↔◌, length, suc, ◌≤◌, arith,
  length-append,
}

pub data Item {ℓ} (A : Type ℓ) : Type ℓ where
  any_run : Item A
  one : A → Item A

-- The items of runs with any run of elements between each two.
abbrev pub joined {ℓ} : {A : Type ℓ} → List (List A) → List A → List (Item A)
joined [] last = map one last
joined (r ∷ rs) last = map one r ++ (any_run ∷ joined rs last)

pub append_regroup {ℓ} :
    {B : Type ℓ} (u v n w : List B) → (u ++ (v ++ n)) ++ w ≡ u ++ (v ++ (n ++ w))
append_regroup u v n w = simp append_assoc

-- Of two suffixes of one list the later is a suffix of the earlier.
pub suffix_of_shorter {ℓ} :
    {B : Type ℓ} (xs t ys t' : List B)
    → xs ++ t ≡ ys ++ t'
    → length xs ≤ length ys
    → (w : List B) × (t ≡ w ++ t')
suffix_of_shorter [] t ys t' e h = (ys, e)
suffix_of_shorter (x ∷ xs) t [] t' e h = absurd (omega arith)
suffix_of_shorter (x ∷ xs) t (y ∷ ys) t' e h =
    suffix_of_shorter xs t ys t' (ap tail e) (omega arith)

module _ {A B : Type 0} (Fits : A → B → Type 0) where
  -- `s` is what the items of a pattern take, one after another.
  pub data Matches : List (Item A) → List B → Type 0 where
    done : Matches [] []
    element :
        {a : A} {b : B} {p : List (Item A)} {s : List B}
        → Fits a b
        → Matches p s
        → Matches (one a ∷ p) (b ∷ s)
    close : {p : List (Item A)} {s : List B} → Matches p s → Matches (any_run ∷ p) s
    absorb :
        {b : B} {p : List (Item A)} {s : List B}
        → Matches (any_run ∷ p) s
        → Matches (any_run ∷ p) (b ∷ s)

  -- A run of elements against a run of the same length.
  pub data FitsAll : List A → List B → Type 0 where
    nil : FitsAll [] []
    cons :
        {a : A} {b : B} {r : List A} {s : List B} → Fits a b → FitsAll r s → FitsAll (a ∷ r) (b ∷ s)

  -- The runs stand in `s`, in order and apart.
  abbrev pub Floats : List (List A) → List B → Type 0
  Floats [] s = Unit
  Floats (r ∷ rs) s =
      (u : List B) × (v : List B) × (t : List B) × (s ≡ u ++ (v ++ t)) × FitsAll r v × Floats rs t

  pub FitsAll-length : {r : List A} {s : List B} → FitsAll r s → length r ≡ length s
  FitsAll-length nil = refl
  FitsAll-length (cons _ h) = ap suc (FitsAll-length h)

  Matches-run :
      (r : List A) (p : List (Item A)) (s : List B)
      → Matches (map one r ++ p) s
      → (u : List B) × (t : List B) × (s ≡ u ++ t) × FitsAll r u × Matches p t
  Matches-run [] p s m = ([], s, refl, nil, m)
  Matches-run (a ∷ r) p [] m = elim m [ ]
  Matches-run (a ∷ r) p (b ∷ s) (element h m) =
      let (u, t, e, f, rest) = Matches-run r p s m in (b ∷ u, t, ap (λ l. b ∷ l) e, cons h f, rest)

  run-Matches :
      {r : List A} {u : List B} {p : List (Item A)} {t : List B}
      → FitsAll r u
      → Matches p t
      → Matches (map one r ++ p) (u ++ t)
  run-Matches nil m = m
  run-Matches (cons h f) m = element h (run-Matches f m)

  Matches-any_run :
      {p : List (Item A)} {s : List B}
      → Matches (any_run ∷ p) s
      → (u : List B) × (t : List B) × (s ≡ u ++ t) × Matches p t
  Matches-any_run {s} (close m) = ([], s, refl, m)
  Matches-any_run (absorb {b = b} m) =
      let (u, t, e, rest) = Matches-any_run m in (b ∷ u, t, ap (λ l. b ∷ l) e, rest)

  any_run-Matches :
      {p : List (Item A)} (u : List B) {t : List B} → Matches p t → Matches (any_run ∷ p) (u ++ t)
  any_run-Matches [] m = close m
  any_run-Matches (b ∷ u) m = absorb (any_run-Matches u m)

  -- Anything may stand in front of runs that float.
  pub Floats-append : (rs : List (List A)) (w s : List B) → Floats rs s → Floats rs (w ++ s)
  Floats-append [] w s h = tt
  Floats-append (r ∷ rs) w s (u, v, t, e, f, h) =
      (w ++ u, v, t, rw e (sym (append_assoc w u (v ++ t))), f, h)

  -- The leftmost place for the first run is never wrong: what floats behind any place for it
  -- floats behind the leftmost.
  pub Floats-leftmost :
      {r : List A} (rs : List (List A)) (u v t : List B)
      → FitsAll r v
      → (u' v' t' : List B) → u ++ (v ++ t) ≡ u' ++ (v' ++ t')
      → FitsAll r v'
      → length u ≤ length u'
      → Floats rs t'
      → Floats rs t
  Floats-leftmost rs u v t f u' v' t' e f' le h =
      let (w, same) =
        suffix_of_shorter (u ++ v) t (u' ++ v') t'
          (append_assoc u v t ∙ e ∙ sym (append_assoc u' v' t'))
          (omega
            (arith, length-append u v, length-append u' v', FitsAll-length f, FitsAll-length f')) in
      rw same (Floats-append rs w t' h)

  -- A whole run, and a last one that ends the text.
  Matches-last : (r : List A) (s : List B) → Matches (map one r) s → FitsAll r s
  Matches-last [] s done = nil
  Matches-last (a ∷ r) [] m = elim m [ ]
  Matches-last (a ∷ r) (b ∷ s) (element h m) = cons h (Matches-last r s m)

  last-Matches : {r : List A} {s : List B} → FitsAll r s → Matches (map one r) s
  last-Matches nil = done
  last-Matches (cons h f) = element h (last-Matches f)

  pub Matches-last_iff : (r : List A) (s : List B) → Matches (map one r) s ↔ FitsAll r s
  Matches-last_iff r s = (Matches-last r s, last-Matches)

  -- A text that ends in `last`, with the runs floating before it.
  abbrev pub EndsAfter : List (List A) → List A → List B → Type 0
  EndsAfter rs last s = (m : List B) × (v : List B) × (s ≡ m ++ v) × Floats rs m × FitsAll last v

  Matches-EndsAfter :
      (rs : List (List A)) (last : List A) (s : List B)
      → Matches (any_run ∷ joined rs last) s
      → EndsAfter rs last s
  Matches-EndsAfter [] last s m =
      let (u, t, e, rest) = Matches-any_run m in (u, t, e, tt, Matches-last last t rest)
  Matches-EndsAfter (r ∷ rs) last s m =
      let (u, t, e, rest) = Matches-any_run m in
      let (v, t', e', f, rest') = Matches-run r (any_run ∷ joined rs last) t rest in
      let (n, w, e'', h, l) = Matches-EndsAfter rs last t' rest' in
      (
        u ++ (v ++ n),
        w,
        e ∙ ap (λ l. u ++ l) (e' ∙ ap (λ l. v ++ l) e'') ∙ sym (append_regroup u v n w),
        (u, v, n, refl, f, h),
        l,
      )

  EndsAfter-Matches :
      (rs : List (List A)) (last : List A) (s : List B)
      → EndsAfter rs last s
      → Matches (any_run ∷ joined rs last) s
  EndsAfter-Matches [] last s (m, v, e, _, l) = rw e (any_run-Matches m (last-Matches l))
  EndsAfter-Matches (r ∷ rs) last s (m, w, e, (u, v, n, e', f, h), l) =
      rw (e, e', append_regroup u v n w)
        (any_run-Matches u (run-Matches f (EndsAfter-Matches rs last (n ++ w) (n, w, refl, h, l))))

  -- The shape of every pattern that holds a wildcard.
  pub Matches-joined_iff :
      (first : List A) (rs : List (List A)) (last : List A) (s : List B)
      → Matches (map one first ++ (any_run ∷ joined rs last)) s
        ↔ ((u : List B) × (t : List B) × (s ≡ u ++ t) × FitsAll first u × EndsAfter rs last t)
  Matches-joined_iff first rs last s = (
    λ m.
        let (u, t, e, f, rest) = Matches-run first (any_run ∷ joined rs last) s m in
        (u, t, e, f, Matches-EndsAfter rs last t rest),
    λ (u, t, e, f, h). rw e (run-Matches f (EndsAfter-Matches rs last t h)),
  )
