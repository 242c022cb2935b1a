-- ===== src/Policy/Updates.antt =====
-- What the gateway offers, and what an update of the policy changes.
use mcpdef.Prelude.{
  List, Option, none, some, Bool, true, not, ◌&&◌, ◌≡◌, ◌≢◌, ◌↔◌, inl, inr, refl, sym, ap, ◌∙◌, any,
  any_iff, and_iff, Bool-cases, false≢true,
}
use mcpdef.Str.{Str}
use mcpdef.Table.{get, str_key, IsMap}
use mcpdef.Table.Laws.{Any-get, get-Any, get-insert_ne}
use mcpdef.Uri.Parts.{Uri}
use mcpdef.Policy.{
  ServerPolicy, ResourcePolicy, Policy, is_nil, is_empty, is_governed, resources, prompts, keep_if,
  exposes_resources, exposes_prompts, insert, decide_tool, decide_resource, decide_prompt,
  decide_template, shows_prompt,
}
use mcpdef.Policy.Lists.{Governed, is_governed_iff}

keep_if_iff {ℓ} :
    {A : Type ℓ} (f : A → Bool) (o : Option A) (a : A)
    → (keep_if f o ≡ some a) ↔ ((o ≡ some a) × (f a ≡ true))
keep_if_iff f none a = (λ e. cc e, λ h. h.0)
keep_if_iff f (some b) a = elim (Bool-cases (f b)) [
  | inl e ↦ rw e (λ h. (h, ap f (sym (same h)) ∙ e), λ h. h.0)
  | inr e ↦ rw e (λ h. cc h, λ h. absurd (false≢true (sym e ∙ ap f (same h.0) ∙ h.1)))
]
  where
    same : some b ≡ some a → b ≡ a
    same e = cc

-- The entries of a table that stand for a governed server and pass a test.
offered_iff :
    {V : Type 0} (p : Policy) (keep : V → Bool) (table : List (Str × V))
    → IsMap table
    → (any (λ e. is_governed p e.0 && keep e.1) table ≡ true)
      ↔ ((server : Str) × (v : V) × Governed p server × (keep_if keep (get table server) ≡ some v))
offered_iff p keep table m =
    let (to, from) =
      any_iff (λ e. is_governed p e.0 && keep e.1)
        (λ e. and_iff (is_governed p e.0) (keep e.1) (is_governed_iff p e.0) (λ h. h, λ h. h))
        table in
    (
      λ h.
          let (server, v, e, gk) = Any-get (λ s v. Governed p s × (keep v ≡ true)) table m (to h) in
          (server, v, gk.0, (keep_if_iff keep (get table server) v).1 (e, gk.1)),
      λ (server, v, g, kept).
          let (e, k) = (keep_if_iff keep (get table server) v).0 kept in
          from (get-Any (λ s v. Governed p s × (keep v ≡ true)) table server v e (g, k)),
    )

-- The gateway offers resources exactly if some governed server exposes a resource or a template:
-- an entry for a server that is not governed does not count, nor does an empty one.
pub exposes_resources_iff :
    (p : Policy)
    → IsMap p.resource_lists
    → (exposes_resources p ≡ true)
      ↔ ((server : Str) × (r : ResourcePolicy) × Governed p server × (resources p server ≡ some r))
unfolding exposes_resources resources
exposes_resources_iff p m = offered_iff p (λ r. not (is_empty r)) p.resource_lists m

-- The gateway offers prompts exactly if some governed server exposes one.
pub exposes_prompts_iff :
    (p : Policy)
    → IsMap p.prompt_lists
    → (exposes_prompts p ≡ true)
      ↔ ((server : Str) × (globs : List Str) × Governed p server × (prompts p server ≡ some globs))
unfolding exposes_prompts prompts
exposes_prompts_iff p m = offered_iff p (λ globs. not (is_nil globs)) p.prompt_lists m

-- Rules inserted for one server change no decision on another server: not on its tools, its
-- resources, its templates or its prompts.
pub insert-other :
    (p : Policy) (server other : Str) (policy : ServerPolicy) (name : Str) (uri : Uri)
    → other ≢ server
    → (decide_tool (insert p server policy) other name ≡ decide_tool p other name)
      × (decide_resource (insert p server policy) other uri ≡ decide_resource p other uri)
      × (decide_template (insert p server policy) other name ≡ decide_template p other name)
      × (decide_prompt (insert p server policy) other name ≡ decide_prompt p other name)
unfolding insert decide_tool decide_resource decide_template decide_prompt is_governed resources
    shows_prompt prompts
insert-other p server other policy name uri d =
    let e : get (insert p server policy).servers other ≡ get p.servers other =
      get-insert_ne p.servers server other policy d in
    (
      rw (e, decide_tool) refl,
      rw (e, decide_resource, is_governed) refl,
      rw (e, decide_template, is_governed) refl,
      rw (e, decide_prompt, is_governed) refl,
    )
