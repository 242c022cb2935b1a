-- ===== src/Glob/Shared/Laws.antt =====
-- Whether two segment patterns, or two patterns of a query or a fragment, have a part in common.
use mcpdef.Prelude.{
  [], ◌∷◌, ◌≡◌, ◌≢◌, ◌↔◌, refl, sym, ◌∙◌, Option, none, some, Bool, true, false, false≢true,
}
use mcpdef.Str.{Str, is_empty, split_once, str_eq}
use mcpdef.Glob.Names.{names}
use mcpdef.Glob.Search.{answer}
use mcpdef.Glob.Overlap.Laws.{patterns_overlap_iff}
use mcpdef.Glob.Paths.{segment}
use mcpdef.Glob.UriGlob.{optional}
use mcpdef.Glob.Shared.{segments_overlap, optional_overlap}

-- A pattern without characters takes the empty name only.
names-nil : (x : _) (s : Str) → names [] (x ∷ s) ≡ false
unfolding names split_once str_eq
names-nil x s = refl

-- `segments_overlap` always answers, and answers true exactly if some segment matches both segment
-- patterns.
pub segments_overlap_iff :
    (a c : Str)
    → (b : Bool) × (segments_overlap a c ≡ answer b)
      × ((b ≡ true) ↔ ((seg : Str) × (segment a seg ≡ true) × (segment c seg ≡ true)))
unfolding segments_overlap segment is_empty
segments_overlap_iff [] [] = (true, refl, (λ _. ([], refl, refl), λ _. refl))
segments_overlap_iff [] (y ∷ c) =
    (false, refl, (λ e. absurd (false≢true e), λ (seg, f, g). absurd (apart seg f g)))
  where
    apart : (seg : Str) → segment [] seg ≡ true → segment (y ∷ c) seg ≡ true → ⊥
    apart [] f g = false≢true g
    apart (x ∷ s) f g = false≢true (sym (names-nil x s) ∙ f)
segments_overlap_iff (x ∷ a) [] =
    (false, refl, (λ e. absurd (false≢true e), λ (seg, f, g). absurd (apart seg f g)))
  where
    apart : (seg : Str) → segment (x ∷ a) seg ≡ true → segment [] seg ≡ true → ⊥
    apart [] f g = false≢true f
    apart (y ∷ s) f g = false≢true (sym (names-nil y s) ∙ g)
segments_overlap_iff (x ∷ a) (y ∷ c) =
    let (b, e, (to, from)) = patterns_overlap_iff (x ∷ a) (y ∷ c) true in
    (
      b,
      e,
      (λ h. let (s, f, g, ne) = to h in fitting s f g (ne refl), λ (s, f, g). from (taken s f g)),
    )
  where
    fitting :
        (s : Str)
        → names (x ∷ a) s ≡ true
        → names (y ∷ c) s ≡ true
        → s ≢ []
        → (seg : Str) × (segment (x ∷ a) seg ≡ true) × (segment (y ∷ c) seg ≡ true)
    fitting [] f g ne = absurd (ne refl)
    fitting (z ∷ s) f g ne = (z ∷ s, f, g)

    taken :
        (s : Str)
        → segment (x ∷ a) s ≡ true
        → segment (y ∷ c) s ≡ true
        → (t : Str) × (names (x ∷ a) t ≡ true) × (names (y ∷ c) t ≡ true) × (true ≡ true → t ≢ [])
    taken [] f g = absurd (false≢true f)
    taken (z ∷ s) f g = (z ∷ s, f, g, λ _ e. cc e)

-- `optional_overlap` always answers, and answers true exactly if some query or fragment, or its
-- absence, matches both patterns.
pub optional_overlap_iff :
    (p q : Option Str)
    → (b : Bool) × (optional_overlap p q ≡ answer b)
      × ((b ≡ true) ↔ ((part : Option Str) × (optional p part ≡ true) × (optional q part ≡ true)))
unfolding optional_overlap optional
optional_overlap_iff none none = (true, refl, (λ _. (none, refl, refl), λ _. refl))
optional_overlap_iff none (some c) =
    (false, refl, (λ e. absurd (false≢true e), λ (part, f, g). absurd (apart part f g)))
  where
    apart : (part : Option Str) → optional none part ≡ true → optional (some c) part ≡ true → ⊥
    apart none f g = false≢true g
    apart (some t) f g = false≢true f
optional_overlap_iff (some a) none =
    (false, refl, (λ e. absurd (false≢true e), λ (part, f, g). absurd (apart part f g)))
  where
    apart : (part : Option Str) → optional (some a) part ≡ true → optional none part ≡ true → ⊥
    apart none f g = false≢true f
    apart (some t) f g = false≢true g
optional_overlap_iff (some a) (some c) =
    let (b, e, (to, from)) = patterns_overlap_iff a c false in
    (b, e, (λ h. let (s, f, g, _) = to h in (some s, f, g), λ (part, f, g). from (named part f g)))
  where
    named :
        (part : Option Str)
        → optional (some a) part ≡ true
        → optional (some c) part ≡ true
        → (t : Str) × (names a t ≡ true) × (names c t ≡ true) × (false ≡ true → t ≢ [])
    named none f g = absurd (false≢true f)
    named (some t) f g = (t, f, g, λ e. absurd (false≢true e))
