-- ===== src/Glob/Overlap/Begins.antt =====
-- How a name pattern that begins with a given character matches.
use mcpdef.Prelude.{ℕ, [], ◌∷◌, ◌≡◌, inl, inr, refl, sym, ap, true, false, ◌==◌, Bool-cases}
use mcpdef.Str.{Str}
use mcpdef.Glob.Pattern.{any_run, one, Matches, element, close, absorb}
use mcpdef.Glob.Names.{star, items, NameMatches}

pub skip_star : (c : ℕ) (p s : Str) → c == star ≡ true → NameMatches p s → NameMatches (c ∷ p) s
skip_star c p s e m = rw e (close m)

pub grow_star :
    (c x : ℕ) (p s : Str) → c == star ≡ true → NameMatches (c ∷ p) s → NameMatches (c ∷ p) (x ∷ s)
grow_star c x p s e m = rw e (absorb (rw e at m))

pub take_char :
    (c : ℕ) (p s : Str) → c == star ≡ false → NameMatches p s → NameMatches (c ∷ p) (c ∷ s)
take_char c p s e m = rw e (element refl m)

-- How a pattern that begins with `c` can match.
pub data Begins (c : ℕ) (p s : Str) : Type 0 where
  skips : c == star ≡ true → NameMatches p s → Begins c p s
  grows : (x : ℕ) (t : Str) → c == star ≡ true → s ≡ x ∷ t → NameMatches (c ∷ p) t → Begins c p s
  takes : (t : Str) → c == star ≡ false → s ≡ c ∷ t → NameMatches p t → Begins c p s

star-Begins :
    (c : ℕ) (p s : Str)
    → c == star ≡ true
    → Matches (λ a b. a ≡ b) (any_run ∷ items p) s
    → Begins c p s
star-Begins c p s e (close m) = skips e m
star-Begins c p (x ∷ t) e (absorb m) = grows x t e refl (rw e m)

char-Begins :
    (c : ℕ) (p s : Str)
    → c == star ≡ false
    → Matches (λ a b. a ≡ b) (one c ∷ items p) s
    → Begins c p s
char-Begins c p [] e m = elim m [ ]
char-Begins c p (x ∷ t) e (element same m) = takes t e (ap (λ y. y ∷ t) (sym same)) m

pub NameMatches-Begins : (c : ℕ) (p s : Str) → NameMatches (c ∷ p) s → Begins c p s
NameMatches-Begins c p s m = elim (Bool-cases (c == star)) [
  | inl e ↦ star-Begins c p s e (rw e at m)
  | inr e ↦ char-Begins c p s e (rw e at m)
]

pub NameMatches-nil : (s : Str) → NameMatches [] s → s ≡ []
NameMatches-nil [] m = refl
NameMatches-nil (x ∷ s) m = elim m [ ]
