-- ===== src/Passes/Laws.antt =====
-- When the pass has nothing to do.
use mcpdef.Prelude.{
  List, [], ◌∷◌, none, Bool, true, false, not, ◌||◌, ◌≡◌, refl, Bool-cases, inl, inr,
}
use mcpdef.Str.{Str}
use mcpdef.Json.{Value}
use mcpdef.Policy.{is_nil}
use mcpdef.Rules.{Effect, allows, denies, transforms, Rule}
use mcpdef.Transform.{Serde}
use mcpdef.Passes.{
  Transform, Transformed, nothing_done, effect_edits, edits_args, policy_rules, transforms_args,
  met, run_pass, transform,
}

module _ {R : Type 0} (S : Serde) (agent server target : Str) where
  met-none :
      (r : Rule (Transform R)) (args : Value)
      → effect_edits (λ t. not (is_nil t.edits)) r.effect ≡ false
      → met S agent server target r args ≡ none
  met-none r args h = by_effect r.effect refl h
    where
      by_effect :
          (e : Effect (Transform R))
          → r.effect ≡ e
          → effect_edits (λ t. not (is_nil t.edits)) e ≡ false
          → met S agent server target r args ≡ none
      by_effect allows f g = rw (f, met) refl
      by_effect denies f g = rw (f, met) refl
      by_effect (transforms t) f g = elim (Bool-cases (is_nil t.edits)) [
        | inl e ↦ rw (f, met) (rw e refl)
        | inr e ↦ cc (rw e at g)
      ]

  run_pass-idle :
      (rules : List (Rule (Transform R))) (d : Transformed) (args : Value)
      → edits_args rules ≡ false
      → run_pass S agent server target d args rules ≡ (d, args)
  unfolding run_pass
  run_pass-idle [] d args h = refl
  run_pass-idle (r ∷ rules) d args h =
      let halves =
        or-false (effect_edits (λ t. not (is_nil t.edits)) r.effect) (edits_args rules) h in
      rw (met-none r args halves.0, run_pass) (run_pass-idle rules d args halves.1)
    where
      or-false : (a b : Bool) → (a || b) ≡ false → (a ≡ false) × (b ≡ false)
      or-false true b e = cc e
      or-false false b e = (refl, e)

-- Where `transforms` says that no rule edits arguments, the pass over any call leaves the arguments
-- as they are and has nothing to report, so a caller may leave it out.
pub transform-idle :
    (R : Type 0) (S : Serde) (agent server target : Str) (rules : List (Rule (Transform R)))
    (args : Value)
    → transforms_args R (policy_rules R rules) ≡ false
    → transform S agent server target (policy_rules R rules) args ≡ (nothing_done, args)
unfolding transform
transform-idle R S agent server target rules args h =
    run_pass-idle S agent server target rules nothing_done args h
