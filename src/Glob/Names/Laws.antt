-- ===== src/Glob/Names/Laws.antt =====
-- `names` decides what a pattern of the names dialect describes.
use mcpdef.Prelude.{
  ℕ, List, [], ◌∷◌, ◌++◌, map, ◌+◌, ◌≡◌, ◌↔◌, inl, inr, refl, sym, ◌∙◌, none, some, true, not, drop,
  length, filter, arith, false≢true, Option-cases, iff_trans, iff_sym, length-append, drop-append,
  append_assoc,
}
use mcpdef.Str.{Str, str_eq, is_empty, split, strip_prefix, strip_suffix}
use mcpdef.Str.Laws.{
  str_eq_iff, Free, split_once-cases, rsplit_once-cases, split-cons, strip_prefix_iff,
  strip_suffix-some, strip_suffix-append, find-cases,
}
use mcpdef.Glob.Pattern.{
  any_run, one, joined, Matches, FitsAll, nil, cons, Floats, Floats-append, Floats-leftmost,
  Matches-last_iff, EndsAfter, Matches-joined_iff,
}
use mcpdef.Glob.Names.{star, place_pieces, before_last, anchored, names, items, NameMatches}

abbrev Same : ℕ → ℕ → Type 0
Same a b = a ≡ b

FitsAll-eq : {r s : Str} → FitsAll Same r s → r ≡ s
FitsAll-eq nil = refl
FitsAll-eq (cons e f) = cc (e, FitsAll-eq f)

FitsAll-self : (r : Str) → FitsAll Same r r
FitsAll-self [] = nil
FitsAll-self (x ∷ r) = cons refl (FitsAll-self r)

-- Empty pieces say nothing.
Floats-filter :
    (rs : List Str) (s : Str) → Floats Same (filter (λ p. not (is_empty p)) rs) s → Floats Same rs s
unfolding filter is_empty
Floats-filter [] s h = tt
Floats-filter ([] ∷ rs) s h = ([], [], s, refl, nil, Floats-filter rs s h)
Floats-filter ((x ∷ r) ∷ rs) s (u, v, t, e, f, h) = (u, v, t, e, f, Floats-filter rs t h)

filter-Floats :
    (rs : List Str) (s : Str) → Floats Same rs s → Floats Same (filter (λ p. not (is_empty p)) rs) s
unfolding filter is_empty
filter-Floats [] s h = tt
filter-Floats ([] ∷ rs) s (u, v, t, e, f, h) =
    rw (e, sym (append_assoc u v t)) (Floats-append Same _ (u ++ v) t (filter-Floats rs t h))
filter-Floats ((x ∷ r) ∷ rs) s (u, v, t, e, f, h) = (u, v, t, e, f, filter-Floats rs t h)

drop_found : (u r t : Str) → drop (length u + length r) (u ++ (r ++ t)) ≡ t
drop_found u r t = rw (← length-append u r, ← append_assoc u r t) (drop-append (u ++ r) t)

place_pieces_iff : (rs : List Str) (s : Str) → (place_pieces rs s ≡ true) ↔ Floats Same rs s
unfolding place_pieces
place_pieces_iff [] s = (λ _. tt, λ _. refl)
place_pieces_iff (r ∷ rs) s = elim (find-cases r s) [
  | inl (e, nowhere) ↦
      rw (e, place_pieces)
        (
          λ h. absurd (false≢true h),
          λ (u, v, t, at, f, _). absurd (nowhere u t (rw (FitsAll-eq f) at)),
        )
  | inr (u, t, found, at, first) ↦
      rw (found, place_pieces)
        (
          λ h. (u, r, t, at, FitsAll-self r, (place_pieces_iff rs t).0 (rw (at, drop_found) at h)),
          λ (u', v', t', at', f, h).
              rw (at, drop_found)
                ((place_pieces_iff rs t).1 (
                  Floats-leftmost Same rs u r t (FitsAll-self r) u' v' t' (sym at ∙ at') f
                    (first u' t' (rw (FitsAll-eq f) at')) h)),
        )
]

before_last_iff :
    (middle last rest : Str)
    → (before_last middle last rest ≡ true) ↔ EndsAfter Same (split star middle) last rest
unfolding before_last
before_last_iff middle last rest = elim (Option-cases (strip_suffix last rest)) [
  | inl e ↦
      rw (e, before_last)
        (
          λ h. absurd (false≢true h),
          λ (m, v, at, _, f). absurd (not_suffix m v e at (FitsAll-eq f)),
        )
  | inr (m, e) ↦
      rw (e, before_last)
        (
          λ h. (
            m,
            last,
            strip_suffix-some last rest m e,
            Floats-filter (split star middle) m ((place_pieces_iff _ m).0 h),
            FitsAll-self last,
          ),
          λ (m', v, at, h, f).
              (place_pieces_iff _ m).1
                (filter-Floats (split star middle) m (rw (same_rest m m' v e at (FitsAll-eq f)) h)),
        )
]
  where
    not_suffix : (m v : Str) → strip_suffix last rest ≡ none → rest ≡ m ++ v → ¬ (last ≡ v)
    not_suffix m v e at l = cc (strip_suffix-append v m)

    same_rest :
        (m m' v : Str) → strip_suffix last rest ≡ some m → rest ≡ m' ++ v → last ≡ v → m ≡ m'
    same_rest m m' v e at l = cc (strip_suffix-append v m')

anchored_iff :
    (first middle last name : Str)
    → (anchored first middle last name ≡ true) ↔ (
        (u : Str) × (t : Str) × (name ≡ u ++ t)
        × FitsAll Same first u
        × EndsAfter Same (split star middle) last t)
unfolding anchored
anchored_iff first middle last name = elim (Option-cases (strip_prefix first name)) [
  | inl e ↦
      rw (e, anchored)
        (
          λ h. absurd (false≢true h),
          λ (u, t, at, f, _). absurd (not_prefix u t e at (FitsAll-eq f)),
        )
  | inr (rest, e) ↦
      rw (e, anchored)
        (
          λ h. (
            first,
            rest,
            (strip_prefix_iff first name rest).0 e,
            FitsAll-self first,
            (before_last_iff middle last rest).0 h,
          ),
          λ (u, t, at, f, h).
              (before_last_iff middle last rest).1 (rw (same_rest rest u t e at (FitsAll-eq f)) h),
        )
]
  where
    not_prefix : (u t : Str) → strip_prefix first name ≡ none → name ≡ u ++ t → ¬ (first ≡ u)
    not_prefix u t e at l = cc ((strip_prefix_iff u name t).1 at)

    same_rest :
        (rest u t : Str)
        → strip_prefix first name ≡ some rest
        → name ≡ u ++ t
        → first ≡ u
        → rest ≡ t
    same_rest rest u t e at l = cc ((strip_prefix_iff u name t).1 at)

items-Free : (s : Str) → Free star s → items s ≡ map one s
items-Free [] h = refl
items-Free (x ∷ s) (h, k) = ground (arith, items-Free s k)

items-append_star :
    (a b : Str) → Free star a → items (a ++ (star ∷ b)) ≡ map one a ++ (any_run ∷ items b)
items-append_star [] b h = refl
items-append_star (x ∷ a) b (h, k) = ground (arith, items-append_star a b k)

-- The pieces between the wildcards, and the wildcards, make the pattern.
items-joined :
    (m last : Str) → Free star last → items (m ++ (star ∷ last)) ≡ joined (split star m) last
unfolding split
items-joined [] last h = rw (items-Free last h)
items-joined (x ∷ m) last h =
    let (p, ps, e) = split-cons star m in ground (arith, items-joined m last h, e)

-- Where the pattern holds one wildcard, the code has one empty piece between its ends.
one_star_iff :
    (first last name : Str)
    → Free star last
    → (anchored first [] last name ≡ true)
      ↔ Matches Same (map one first ++ (any_run ∷ items last)) name
unfolding split
one_star_iff first last name free = rw (items-Free last free) (
  λ h.
      let (u, t, e, f, (m, v, e', _, l)) = (anchored_iff first [] last name).0 h in
      (Matches-joined_iff Same first [] last name).1 (u, t, e, f, (m, v, e', tt, l)),
  λ h.
      let (u, t, e, f, (m, v, e', _, l)) = (Matches-joined_iff Same first [] last name).0 h in
      (anchored_iff first [] last name).1 (u, t, e, f, (m, v, e', ([], [], m, refl, nil, tt), l)),
)

two_stars_iff :
    (first middle last name : Str)
    → Free star last
    → (anchored first middle last name ≡ true)
      ↔ Matches Same (map one first ++ (any_run ∷ items (middle ++ (star ∷ last)))) name
two_stars_iff first middle last name free = rw (items-joined middle last free) (
    iff_trans (anchored_iff first middle last name)
      (iff_sym (Matches-joined_iff Same first (split star middle) last name)))

no_star_iff :
    (pattern name : Str)
    → Free star pattern
    → (str_eq pattern name ≡ true) ↔ Matches Same (items pattern) name
no_star_iff pattern name free = rw (items-Free pattern free) (
  λ h.
      (Matches-last_iff Same pattern name).1
        (rw ((str_eq_iff pattern name).0 h) (FitsAll-self name)),
  λ h. (str_eq_iff pattern name).1 (FitsAll-eq ((Matches-last_iff Same pattern name).0 h)),
)

-- `names` answers true exactly for the names that the pattern describes, read as a sequence in
-- which `*` is any run of characters and every other character is itself.
pub names_iff : (pattern name : Str) → (names pattern name ≡ true) ↔ NameMatches pattern name
unfolding names
names_iff pattern name = elim (split_once-cases star pattern) [
  | inl (e, free) ↦ rw (e, names) (no_star_iff pattern name free)
  | inr (first, after, e, same, free) ↦ elim (rsplit_once-cases star after) [
    | inl (e', free') ↦
        rw (e, e', names)
          (rw (same, items-append_star first after free) (one_star_iff first after name free'))
    | inr (middle, last, e', same', free') ↦
        rw (e, e', names)
          (rw (same, items-append_star first after free, same')
            (two_stars_iff first middle last name free'))
  ]
]
