-- ===== src/Policy/Tools.antt =====
-- Which tool calls are allowed.
use mcpdef.Prelude.{
  List, [], ◌∷◌, Option, none, some, true, ◌≡◌, ◌↔◌, inl, inr, refl, sym, ◌∙◌, All, Any, any,
  any_iff, Bool-cases, Option-cases, eq-false_iff, false≢true,
}
use mcpdef.Str.{Str}
use mcpdef.Glob.Names.{names, NameMatches}
use mcpdef.Glob.Names.Laws.{names_iff}
use mcpdef.Table.{get, str_key}
use mcpdef.Decision.{Decision, allow, deny, is_allow}
use mcpdef.Policy.{
  ServerPolicy, Policy, first_denied, off_allowlist, deny_reason, through_active, through_server,
  decide_tool, tool_is_exposed, with_active,
}

-- On the allowlist, where there is one.
abbrev pub Listed : Option (List Str) → Str → Type 0
Listed none tool = Unit
Listed (some globs) tool = Any (λ glob. NameMatches glob tool) globs

-- A tool that no deny glob describes, on the allowlist if there is one.
pub record Permits (sp : ServerPolicy) (tool : Str) : Type 0 where
  pub not_denied : All (λ glob. ¬ NameMatches glob tool) sp.deny_globs
  pub listed : Listed sp.allow_tools tool

abbrev pub ActivePermits : Option ServerPolicy → Str → Type 0
ActivePermits none tool = Unit
ActivePermits (some active) tool = Permits active tool

allow≢deny : {rule reason : Str} → ¬ (deny rule reason ≡ allow)
allow≢deny e = cc e

first_denied_iff :
    (globs : List Str) (tool : Str)
    → (first_denied globs tool ≡ none) ↔ All (λ glob. ¬ NameMatches glob tool) globs
first_denied_iff [] tool = (λ _. tt, λ _. refl)
first_denied_iff (glob ∷ globs) tool = elim (Bool-cases (names glob tool)) [
  | inl e ↦ (λ h. cc (rw e at h), λ h. absurd (h.0 ((names_iff glob tool).0 e)))
  | inr e ↦
      let (to, from) = first_denied_iff globs tool in
      (
        λ h. ((eq-false_iff (names glob tool) (names_iff glob tool)).0 e, to (rw e at h)),
        λ h. rw e (from h.1),
      )
]

off_allowlist_iff :
    (listed : Option (List Str)) (tool : Str)
    → (off_allowlist listed tool ≡ none) ↔ Listed listed tool
off_allowlist_iff none tool = (λ _. tt, λ _. refl)
off_allowlist_iff (some globs) tool =
    let found = any_iff (λ p. names p tool) (λ glob. names_iff glob tool) globs in
    elim (Bool-cases (any (λ p. names p tool) globs)) [
      | inl e ↦ (λ _. found.0 e, λ _. rw e refl)
      | inr e ↦ (λ h. cc (rw e at h), λ h. absurd (false≢true (sym e ∙ found.1 h)))
    ]

-- A server's own rules permit a tool exactly if no deny glob describes it and it is on the
-- allowlist, where there is one: a deny glob wins over the allowlist.
pub deny_reason_iff :
    (sp : ServerPolicy) (tool : Str) → (deny_reason sp tool ≡ none) ↔ Permits sp tool
unfolding deny_reason
deny_reason_iff sp tool = elim (Option-cases (first_denied sp.deny_globs tool)) [
  | inl e ↦
      rw (e, deny_reason)
        (
          λ h. record {
            not_denied = (first_denied_iff sp.deny_globs tool).0 e;
            listed = (off_allowlist_iff sp.allow_tools tool).0 h;
          },
          λ p. (off_allowlist_iff sp.allow_tools tool).1 p.listed,
        )
  | inr (found, e) ↦
      rw (e, deny_reason)
        (λ h. cc h, λ p. cc (sym e ∙ (first_denied_iff sp.deny_globs tool).1 p.not_denied))
]

through_active_iff :
    (active : Option ServerPolicy) (tool : Str)
    → (through_active active tool ≡ allow) ↔ ActivePermits active tool
through_active_iff none tool = (λ _. tt, λ _. refl)
through_active_iff (some sp) tool = elim (Option-cases (deny_reason sp tool)) [
  | inl e ↦ (λ _. (deny_reason_iff sp tool).0 e, λ _. rw e refl)
  | inr (found, e) ↦ (λ h. cc (rw e at h), λ p. cc (sym e ∙ (deny_reason_iff sp tool).1 p))
]

through_server_iff :
    (active : Option ServerPolicy) (sp : ServerPolicy) (server tool : Str)
    → (through_server active sp server tool ≡ allow) ↔ (Permits sp tool × ActivePermits active tool)
through_server_iff active sp server tool = elim (Option-cases (deny_reason sp tool)) [
  | inl e ↦
      let (to, from) = through_active_iff active tool in
      rw (e, through_server) (λ h. ((deny_reason_iff sp tool).0 e, to h), λ h. from h.1)
  | inr (found, e) ↦
      rw (e, through_server) (λ h. cc h, λ h. cc (sym e ∙ (deny_reason_iff sp tool).1 h.0))
]

-- A tool call is allowed exactly if the server is governed, the server's own rules permit the tool
-- (no deny glob, and on the allowlist where there is one), and so does the gateway's active
-- profile, where there is one.
pub decide_tool_iff :
    (p : Policy) (server tool : Str)
    → (decide_tool p server tool ≡ allow) ↔ (
        (sp : ServerPolicy) × (get p.servers server ≡ some sp)
        × Permits sp tool
        × ActivePermits p.active tool)
unfolding decide_tool
decide_tool_iff p server tool = elim (Option-cases (get p.servers server)) [
  | inl e ↦ rw (e, decide_tool) (λ h. cc h, λ h. cc h.1)
  | inr (sp, e) ↦
      let (to, from) = through_server_iff p.active sp server tool in
      rw (e, decide_tool)
        (
          λ h. (sp, refl, (to h).0, (to h).1),
          λ (other, same, own, over). from (rw (same_some same) own, over),
        )
]
  where
    same_some : {a b : ServerPolicy} → some a ≡ some b → a ≡ b
    same_some e = cc

is_allow_iff : (d : Decision) → (is_allow d ≡ true) ↔ (d ≡ allow)
is_allow_iff allow = (λ _. refl, λ _. refl)
is_allow_iff (deny rule reason) = (λ e. absurd (false≢true e), λ e. cc e)

-- An active profile only narrows: a tool exposed with the profile is exposed without it.
pub with_active-narrows :
    (p : Policy) (active : Option ServerPolicy) (server tool : Str)
    → tool_is_exposed (with_active p active) server tool ≡ true
    → tool_is_exposed (with_active p none) server tool ≡ true
unfolding tool_is_exposed
with_active-narrows p active server tool h =
    let (sp, found, own, _) =
      (decide_tool_iff (with_active p active) server tool).0
        ((is_allow_iff (decide_tool (with_active p active) server tool)).0 h) in
    (is_allow_iff (decide_tool (with_active p none) server tool)).1
      ((decide_tool_iff (with_active p none) server tool).1 (sp, found, own, tt))
