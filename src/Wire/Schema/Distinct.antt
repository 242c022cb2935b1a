-- ===== src/Wire/Schema/Distinct.antt =====
-- The headers that a tool's schema asks for: no two are one header.
use mcpdef.Prelude.{
  List, [], ◌∷◌, ◌++◌, true, false, ◌≡◌, ◌≢◌, inl, inr, refl, sym, subst, In, Bool-cases, All,
  arith,
}
use mcpdef.Str.{Str, to_ascii_lowercase}
use mcpdef.Str.Laws.{str_eq_iff}
use mcpdef.Json.{Value}
use mcpdef.Wire.Schema.{
  ParamHeader, Walked, walked, refused, walk_schema, contains, check_unique, unique, param_headers,
}
use mcpdef.Wire.Schema.Found.{FoundIn, walk_schema-FoundIn}
use mcpdef.Wire.Schema.Laws.{walked-injective}

-- No two are one header: their names differ, their case folded.
abbrev pub Distinct : List ParamHeader → Type 0
Distinct [] = Unit
Distinct (h ∷ hs) =
    All (λ g. to_ascii_lowercase h.name ≢ to_ascii_lowercase g.name) hs × Distinct hs

contains-append :
    (seen : List Str) (f x : Str)
    → contains (seen ++ (f ∷ [])) x ≡ false
    → (contains seen x ≡ false) × (f ≢ x)
contains-append [] f x e = ground (arith, str_eq_iff f x)
contains-append (s ∷ seen) f x e = ground (arith, contains-append seen f x)

All-apart :
    (seen : List Str) (f : Str) (hs : List ParamHeader)
    → All (λ h. contains (seen ++ (f ∷ [])) (to_ascii_lowercase h.name) ≡ false) hs
    → All (λ h. contains seen (to_ascii_lowercase h.name) ≡ false) hs
      × All (λ g. f ≢ to_ascii_lowercase g.name) hs
All-apart seen f [] h = (tt, tt)
All-apart seen f (g ∷ hs) (p, h) =
    let (old, apart) = contains-append seen f (to_ascii_lowercase g.name) p in
    let (olds, aparts) = All-apart seen f hs h in ((old, olds), (apart, aparts))

unique-walked :
    (w : Walked (List ParamHeader)) (hs : List ParamHeader)
    → unique w ≡ walked hs
    → (found : List ParamHeader) × (w ≡ walked found) × (check_unique found [] found ≡ walked hs)
unique-walked (walked found) hs e = (found, refl, e)
unique-walked (refused err) hs e = cc e

-- The names that passed the check are new, and differ.
check_unique-Distinct :
    (found : List ParamHeader) (seen : List Str) (rest o : List ParamHeader)
    → check_unique found seen rest ≡ walked o
    → All (λ h. contains seen (to_ascii_lowercase h.name) ≡ false) rest
      × Distinct rest
      × (found ≡ o)
check_unique-Distinct found seen [] o e = (tt, tt, walked-injective e)
check_unique-Distinct found seen (h ∷ rest) o e =
    elim (Bool-cases (contains seen (to_ascii_lowercase h.name))) [
      | inl f ↦ cc (rw f at e)
      | inr f ↦
          let (new, distinct, same) =
            check_unique-Distinct found (seen ++ (to_ascii_lowercase h.name ∷ [])) rest o
              (rw f at e) in
          let (old, apart) = All-apart seen (to_ascii_lowercase h.name) rest new in
          ((f, old), (apart, distinct), same)
    ]

-- The headers that a schema is found to ask for are each asked for by a parameter that a chain of
-- `properties` keys leads to, which is a string, an integer or a boolean, by a name that is a token,
-- and no two have one name, their case folded.
pub param_headers-FoundIn :
    (schema : Value) (hs : List ParamHeader)
    → param_headers schema ≡ walked hs
    → ((h : ParamHeader) → In h hs → FoundIn schema [] h) × Distinct hs
unfolding param_headers
param_headers-FoundIn schema hs e =
    let (found, w, u) = unique-walked (walk_schema schema [] true []) hs e in
    let (_, distinct, same) = check_unique-Distinct found [] found hs u in
    (
      (λ h within.
          elim (walk_schema-FoundIn schema [] [] found h w (subst (In h) (sym same) within)) [
            | inl nothing ↦ absurd nothing
            | inr chain ↦ chain
          ]),
      subst Distinct same distinct,
    )
