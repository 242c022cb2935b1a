-- ===== src/Str/Laws.antt =====
-- What the functions of `str` find.
use mathlib.Core.Option
use mathlib.Core.List.{tail}
use mcpdef.Prelude.{
  ℕ, ◌≤◌, List, [], ◌∷◌, ◌++◌, ◌≡◌, ◌≢◌, ◌↔◌, ◌⊎◌, inl, inr, refl, ap, none, some, true, false,
  eq-false_iff, ◌==◌, ==_iff, arith, Bool-cases, Option-cases, All, length, length-append,
}
use mcpdef.Str.{
  Str, str_eq, split_once, rsplit_once, split, strip_prefix, strip_suffix, find, find_char,
  rfind_char,
}

pub str_eq_iff : (s t : Str) → (str_eq s t ≡ true) ↔ (s ≡ t)
unfolding str_eq
str_eq_iff [] [] = (λ _. refl, λ _. refl)
str_eq_iff [] (y ∷ t) = (λ e. ground arith, λ e. ground arith)
str_eq_iff (x ∷ s) [] = (λ e. ground arith, λ e. ground arith)
str_eq_iff (x ∷ s) (y ∷ t) = ground (arith, str_eq_iff s t)

pub str_eq_self : (s : Str) → str_eq s s ≡ true
str_eq_self s = (str_eq_iff s s).1 refl

pub different : (s t : Str) → str_eq s t ≡ false → s ≢ t
different s t e = (eq-false_iff (str_eq s t) (str_eq_iff s t)).0 e

-- The text does not hold the character.
abbrev pub Free : ℕ → Str → Type 0
Free c = All (λ x. x ≢ c)

pub split_once-cases :
    (c : ℕ) (s : Str)
    → ((split_once c s ≡ none) × Free c s)
      ⊎ ((a : Str) × (b : Str) × (split_once c s ≡ some (a, b)) × (s ≡ a ++ (c ∷ b)) × Free c a)
unfolding split_once
split_once-cases c [] = inl (refl, tt)
split_once-cases c (x ∷ s) = elim (Bool-cases (x == c)) [
  | inl same ↦ inr ([], s, rw same, ap (λ y. y ∷ s) ((==_iff x c).0 same), tt)
  | inr other ↦ elim (split_once-cases c s) [
    | inl (e, free) ↦ inl (rw (other, e), ground arith)
    | inr (a, b, e, same, free) ↦ inr (x ∷ a, b, rw (other, e), ap (λ l. x ∷ l) same, ground arith)
  ]
]

pub rsplit_once-cases :
    (c : ℕ) (s : Str)
    → ((rsplit_once c s ≡ none) × Free c s)
      ⊎ ((a : Str) × (b : Str) × (rsplit_once c s ≡ some (a, b)) × (s ≡ a ++ (c ∷ b)) × Free c b)
unfolding rsplit_once
rsplit_once-cases c [] = inl (refl, tt)
rsplit_once-cases c (x ∷ s) = elim (rsplit_once-cases c s) [
  | inr (a, b, e, same, free) ↦ inr (x ∷ a, b, rw e, ap (λ l. x ∷ l) same, free)
  | inl (e, free) ↦ elim (Bool-cases (x == c)) [
    | inl same ↦ inr ([], s, rw (e, same), ap (λ y. y ∷ s) ((==_iff x c).0 same), free)
    | inr other ↦ inl (rw (e, other), ground arith)
  ]
]

-- A text has one piece at least.
pub split-cons : (c : ℕ) (s : Str) → (p : Str) × (ps : List Str) × (split c s ≡ p ∷ ps)
unfolding split
split-cons c [] = ([], [], refl)
split-cons c (x ∷ s) = elim (Bool-cases (x == c)) [
  | inl same ↦ ([], split c s, rw same)
  | inr other ↦ let (p, ps, e) = split-cons c s in (x ∷ p, ps, rw (other, e))
]

pub strip_prefix_iff : (p s t : Str) → (strip_prefix p s ≡ some t) ↔ (s ≡ p ++ t)
unfolding strip_prefix
strip_prefix_iff [] s t = (λ e. ground arith, λ e. ap some e)
strip_prefix_iff (x ∷ p) [] t = (λ e. ground arith, λ e. ground arith)
strip_prefix_iff (x ∷ p) (y ∷ s) t = ground (arith, strip_prefix_iff p s t)

pub strip_suffix-some : (q s t : Str) → strip_suffix q s ≡ some t → s ≡ t ++ q
unfolding strip_suffix
strip_suffix-some q [] t e = ground (arith, str_eq_iff q [])
strip_suffix-some q (x ∷ s) t e = elim (Bool-cases (str_eq q (x ∷ s))) [
  | inl same ↦ ground (arith, str_eq_iff q (x ∷ s))
  | inr other ↦
      let (rest, found, eq) = (Option.map-eq-some_iff _ _).0 (rw other at e) in
      rw (← eq) (ap (λ l. x ∷ l) (strip_suffix-some q s rest found))
]

longer_ne : (q t : Str) (x : ℕ) → q ≢ x ∷ (t ++ q)
longer_ne q t x e = omega (arith, ap length e, length-append t q)

pub strip_suffix-append : (q t : Str) → strip_suffix q (t ++ q) ≡ some t
unfolding strip_suffix
strip_suffix-append [] [] = refl
strip_suffix-append (x ∷ q) [] = rw (str_eq_self (x ∷ q))
strip_suffix-append q (x ∷ t) =
    ground (arith, str_eq_iff q (x ∷ (t ++ q)), longer_ne q t x, strip_suffix-append q t)

-- `p` stands in `s` between `u` and `t`.
abbrev pub StandsAt : Str → Str → Str → Str → Type 0
StandsAt p s u t = s ≡ u ++ (p ++ t)

-- The leftmost place.
abbrev pub IsFirst : Str → Str → Str → Type 0
IsFirst p s u = (u' t' : Str) → StandsAt p s u' t' → length u ≤ length u'

strip_prefix-none : (p s t : Str) → strip_prefix p s ≡ none → s ≢ p ++ t
strip_prefix-none p s t e same = cc ((strip_prefix_iff p s t).1 same)

not-StandsAt-nil : (p u t : Str) → strip_prefix p [] ≡ none → ¬ StandsAt p [] u t
not-StandsAt-nil p [] t e = strip_prefix-none p [] t e
not-StandsAt-nil p (y ∷ u) t e = λ h. cc

not-StandsAt-cons :
    (p s : Str) (x : ℕ)
    → strip_prefix p (x ∷ s) ≡ none
    → ((u t : Str) → ¬ StandsAt p s u t)
    → (u t : Str) → ¬ StandsAt p (x ∷ s) u t
not-StandsAt-cons p s x e h [] t = strip_prefix-none p (x ∷ s) t e
not-StandsAt-cons p s x e h (y ∷ u) t = λ same. h u t (ap tail same)

IsFirst-cons :
    (p s u : Str) (x : ℕ)
    → strip_prefix p (x ∷ s) ≡ none
    → IsFirst p s u
    → IsFirst p (x ∷ s) (x ∷ u)
IsFirst-cons p s u x e h [] t same = absurd (strip_prefix-none p (x ∷ s) t e same)
IsFirst-cons p s u x e h (y ∷ u') t same = omega (arith, h u' t (ap tail same))

-- `find` finds the leftmost place, or there is none.
pub find-cases :
    (p s : Str)
    → ((find p s ≡ none) × ((u t : Str) → ¬ StandsAt p s u t))
      ⊎ ((u : Str) × (t : Str) × (find p s ≡ some (length u)) × StandsAt p s u t × IsFirst p s u)
unfolding find
find-cases p [] = elim (Option-cases (strip_prefix p [])) [
  | inl e ↦ inl (rw e, λ u t. not-StandsAt-nil p u t e)
  | inr (t, e) ↦ inr ([], t, rw e, (strip_prefix_iff p [] t).0 e, λ u' t' _. omega arith)
]
find-cases p (x ∷ s) = elim (Option-cases (strip_prefix p (x ∷ s))) [
  | inr (t, e) ↦ inr ([], t, rw e, (strip_prefix_iff p (x ∷ s) t).0 e, λ u' t' _. omega arith)
  | inl e ↦ elim (find-cases p s) [
    | inl (absent, nowhere) ↦ inl (rw (e, absent), not-StandsAt-cons p s x e nowhere)
    | inr (u, t, found, at, first) ↦
        inr (x ∷ u, t, rw (e, found), ap (λ l. x ∷ l) at, IsFirst-cons p s u x e first)
  ]
]

pub find_char-cases :
    (c : ℕ) (s : Str)
    → ((find_char c s ≡ none) × Free c s)
      ⊎ ((a : Str) × (b : Str) × (find_char c s ≡ some (length a)) × (s ≡ a ++ (c ∷ b)) × Free c a)
unfolding find_char
find_char-cases c [] = inl (refl, tt)
find_char-cases c (x ∷ s) = elim (Bool-cases (x == c)) [
  | inl same ↦ inr ([], s, rw (same, find_char) refl, ap (λ y. y ∷ s) ((==_iff x c).0 same), tt)
  | inr other ↦ elim (find_char-cases c s) [
    | inl (e, free) ↦ inl (rw (other, find_char) (rw e), ground arith)
    | inr (a, b, e, same, free) ↦
        inr (x ∷ a, b, rw (other, find_char) (rw e), ap (λ l. x ∷ l) same, ground arith)
  ]
]

pub rfind_char-cases :
    (c : ℕ) (s : Str)
    → ((rfind_char c s ≡ none) × Free c s)
      ⊎ ((a : Str) × (b : Str) × (rfind_char c s ≡ some (length a)) × (s ≡ a ++ (c ∷ b)) × Free c b)
unfolding rfind_char
rfind_char-cases c [] = inl (refl, tt)
rfind_char-cases c (x ∷ s) = elim (rfind_char-cases c s) [
  | inr (a, b, e, same, free) ↦ inr (x ∷ a, b, rw e, ap (λ l. x ∷ l) same, free)
  | inl (e, free) ↦ elim (Bool-cases (x == c)) [
    | inl same ↦ inr ([], s, rw (e, same), ap (λ y. y ∷ s) ((==_iff x c).0 same), free)
    | inr other ↦ inl (rw (e, other), ground arith)
  ]
]

-- A text without the character is one piece.
pub split-Free : (c : ℕ) (s : Str) → Free c s → split c s ≡ s ∷ []
unfolding split
split-Free c [] h = refl
split-Free c (x ∷ s) (h, k) = ground (arith, split-Free c s k)

-- What follows the last place of the character is the last piece.
pub split-append : (c : ℕ) (a b : Str) → Free c b → split c (a ++ (c ∷ b)) ≡ split c a ++ (b ∷ [])
unfolding split
split-append c [] b h = rw ((==_iff c c).1 refl) (ap (λ l. [] ∷ l) (split-Free c b h))
split-append c (x ∷ a) b h =
    let (p, ps, e) = split-cons c a in ground (arith, split-append c a b h, e)

pub Free-append : (c : ℕ) (a b : Str) → Free c a → Free c b → Free c (a ++ b)
Free-append c [] b h k = k
Free-append c (x ∷ a) b (p, h) k = (p, Free-append c a b h k)
