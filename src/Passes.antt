-- ===== src/Passes.antt =====
-- The pass of the transform rules over a call's arguments: `PolicyRules`, `new`, `is_empty`,
-- `transforms`, `transforms_results` and `transform` of crates/mcpdef-policy/src/rules.rs, with
-- `Transform` and `Transformed` of transform.rs. A result edit is the type parameter `R`, and the
-- secret detector, which only results need, is left out. A rule that skips leaves the arguments as
-- they were, and one that denies as its edits before the refusal left them.
pub mod Laws
use mcpdef.Prelude.{List, [], ◌∷◌, ◌++◌, Option, none, some, Bool, true, false, not, ◌||◌, any}
use mcpdef.Str.{Str, str}
use mcpdef.Json.{Value}
use mcpdef.Decision.{Decision, deny}
use mcpdef.Policy.{is_nil}
use mcpdef.Transform.{
  Serde, ArgEdit, OnError, deny_call, skip_rule, Edited, done, refused, apply, left_by,
}
use mcpdef.Rules.{Effect, allows, denies, transforms, Rule, PolicyContext, tool, matches}

pub record Transform (R : Type 0) : Type 0 where
  pub edits : List ArgEdit
  pub result : List R
  pub on_error : OnError

pub record Transformed : Type 0 where
  pub fired : List Str
  pub changed : Bool
  pub skipped : List (Str × Str)
  pub refused_by : Option Decision

-- `Transformed::default`.
abbrev pub nothing_done : Transformed
nothing_done = record { fired = []; changed = false; skipped = []; refused_by = none }

module _ {R : Type 0} where
  abbrev pub effect_edits : (Transform R → Bool) → Effect (Transform R) → Bool
  effect_edits of allows = false
  effect_edits of denies = false
  effect_edits of (transforms t) = of t

  abbrev pub edits_args : List (Rule (Transform R)) → Bool
  edits_args rules = any (λ r. effect_edits (λ t. not (is_nil t.edits)) r.effect) rules

  abbrev pub edits_results : List (Rule (Transform R)) → Bool
  edits_results rules = any (λ r. effect_edits (λ t. not (is_nil t.result)) r.effect) rules

module _ (R : Type 0) where
  pub record PolicyRules : Type 0 where
    pub rules : List (Rule (Transform R))
    pub args_edited : Bool
    pub results_edited : Bool

  abbrev pub policy_rules : List (Rule (Transform R)) → PolicyRules
  policy_rules rules = record {
    rules = rules;
    args_edited = edits_args rules;
    results_edited = edits_results rules;
  }

  abbrev pub has_no_rules : PolicyRules → Bool
  has_no_rules p = is_nil p.rules

  abbrev pub transforms_args : PolicyRules → Bool
  transforms_args p = p.args_edited

  abbrev pub transforms_results : PolicyRules → Bool
  transforms_results p = p.results_edited

abbrev pub note_fired : Transformed → Str → Bool → Transformed
note_fired d name now = record {
  fired = d.fired ++ (name ∷ []);
  changed = d.changed || now;
  skipped = d.skipped;
  refused_by = d.refused_by;
}

abbrev pub note_skipped : Transformed → Str → Str → Transformed
note_skipped d name why = record {
  fired = d.fired;
  changed = d.changed;
  skipped = d.skipped ++ ((name, why) ∷ []);
  refused_by = d.refused_by;
}

abbrev pub note_refused : Transformed → Str → Str → Str → Str → Transformed
note_refused d name server target why = record {
  fired = d.fired;
  changed = d.changed;
  skipped = d.skipped;
  refused_by = some (
      deny name (
        str "transform rule '"
        ++ (name
            ++ (str "' could not apply to '"
                ++ (target ++ (str "' on '" ++ (server ++ (str "': " ++ why))))))));
}

abbrev pub context : Str → Str → Str → Value → PolicyContext
context agent server target args = record {
  agent = agent;
  server = server;
  target = tool target;
  args = args;
}

module _ {R : Type 0} (S : Serde) (agent server target : Str) where
  -- The edits of a rule that a call meets: a transform with edits, which matches.
  abbrev pub met : Rule (Transform R) → Value → Option (Transform R)
  met r args = elim r.effect [
    | allows ↦ none
    | denies ↦ none
    | transforms t ↦ elim (is_nil t.edits) [
      | true ↦ none
      | false ↦ elim (matches r (context agent server target args)) [ true ↦ some t | false ↦ none ]
    ]
  ]

  unfoldable pub run_pass : Transformed → Value → List (Rule (Transform R)) → Transformed × Value
  unfolding matches apply left_by
  run_pass d args [] = (d, args)
  run_pass d args (r ∷ rules) = elim (met r args) [
    | none ↦ run_pass d args rules
    | some t ↦ elim (apply S t.edits args) [
      | done (now, args') ↦ run_pass (note_fired d r.name now) args' rules
      | refused why ↦ elim t.on_error [
        | skip_rule ↦ run_pass (note_skipped d r.name why) args rules
        | deny_call ↦ (note_refused d r.name server target why, left_by S t.edits args)
      ]
    ]
  ]

  unfoldable pub transform : PolicyRules R → Value → Transformed × Value
  unfolding run_pass
  transform p args = run_pass nothing_done args p.rules
