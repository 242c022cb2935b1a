-- ===== src/Rules/Laws.antt =====
-- Which rule decides.
use mcpdef.Prelude.{List, [], ◌∷◌, ◌++◌, true, false, ◌≡◌, ◌⊎◌, inl, inr, refl, ap, All, Bool-cases}
use mcpdef.Decision.{Decision, allow}
use mcpdef.Rules.{
  Effect, allows, denies, transforms, Rule, PolicyContext, matches, denied_by, evaluate,
}

module _ {T : Type 0} where
  -- The rule decides nothing on the request: it is a transform, or it does not match.
  abbrev pub Passes : PolicyContext → Rule T → Type 0
  Passes ctx r = ((t : T) × (r.effect ≡ transforms t)) ⊎ (matches r ctx ≡ false)

  -- The rule matches and says what the decision is.
  abbrev pub Decides : PolicyContext → Rule T → Decision → Type 0
  Decides ctx r d =
      (matches r ctx ≡ true)
      × (((r.effect ≡ allows) × (d ≡ allow)) ⊎ ((r.effect ≡ denies) × (d ≡ denied_by r ctx)))

  effect-cases : (e : Effect T) → ((t : T) × (e ≡ transforms t)) ⊎ ((e ≡ allows) ⊎ (e ≡ denies))
  effect-cases allows = inr (inl refl)
  effect-cases denies = inr (inr refl)
  effect-cases (transforms t) = inl (t, refl)

  -- The first rule that decides.
  abbrev pub FirstDecides : List (Rule T) → PolicyContext → Decision → Type 0
  FirstDecides rules ctx d =
      (before : List (Rule T)) × (r : Rule T) × (after : List (Rule T)) × (rules
        ≡ before ++ (r ∷ after))
      × All (Passes ctx) before
      × Decides ctx r d

  pass_on :
      (r : Rule T) (rules : List (Rule T)) (ctx : PolicyContext) (d : Decision)
      → Passes ctx r
      → (All (Passes ctx) rules × (d ≡ allow)) ⊎ FirstDecides rules ctx d
      → (All (Passes ctx) (r ∷ rules) × (d ≡ allow)) ⊎ FirstDecides (r ∷ rules) ctx d
  pass_on r rules ctx d p (inl (h, e)) = inl ((p, h), e)
  pass_on r rules ctx d p (inr (before, found, after, e, h, decides)) =
      inr (r ∷ before, found, after, ap (λ l. r ∷ l) e, (p, h), decides)

  skip :
      (r : Rule T) (rules : List (Rule T)) (ctx : PolicyContext)
      → Passes ctx r
      → evaluate (r ∷ rules) ctx ≡ evaluate rules ctx
      → (All (Passes ctx) rules × (evaluate rules ctx ≡ allow))
        ⊎ FirstDecides rules ctx (evaluate rules ctx)
      → (All (Passes ctx) (r ∷ rules) × (evaluate (r ∷ rules) ctx ≡ allow))
        ⊎ FirstDecides (r ∷ rules) ctx (evaluate (r ∷ rules) ctx)
  skip r rules ctx p e h = rw e (pass_on r rules ctx (evaluate rules ctx) p h)

  -- The first rule that is no transform and matches decides the request, by its effect; the rules
  -- after it have no say. Where there is none, the request is allowed.
  pub evaluate-first :
      (rules : List (Rule T)) (ctx : PolicyContext)
      → (All (Passes ctx) rules × (evaluate rules ctx ≡ allow))
        ⊎ FirstDecides rules ctx (evaluate rules ctx)
  unfolding evaluate
  evaluate-first [] ctx = inl (tt, refl)
  evaluate-first (r ∷ rules) ctx = elim (effect-cases r.effect) [
    | inl (t, e) ↦ skip r rules ctx (inl (t, e)) (rw (e, evaluate) refl) (evaluate-first rules ctx)
    | inr decides ↦ elim (Bool-cases (matches r ctx)) [
      | inr m ↦
          skip r rules ctx (inr m)
            (elim decides [
              | inl f ↦ rw (f, evaluate) (rw m refl)
              | inr f ↦ rw (f, evaluate) (rw m refl)
            ])
            (evaluate-first rules ctx)
      | inl m ↦ inr (
        [],
        r,
        rules,
        refl,
        tt,
        (
          m,
          elim decides [
            | inl e ↦ inl (e, rw (e, evaluate) (rw m refl))
            | inr e ↦ inr (e, rw (e, evaluate) (rw m refl))
          ],
        ),
      )
    ]
  ]
