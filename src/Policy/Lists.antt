-- ===== src/Policy/Lists.antt =====
-- Which resources, templates and prompts are allowed, and what the gateway offers.
use mcpdef.Prelude.{
  List, [], ◌∷◌, Option, none, some, Bool, true, false, not, ◌&&◌, if◌then◌else◌, ◌≡◌, ◌↔◌, inl,
  inr, refl, sym, ap, ◌∙◌, Any, any, any_iff, Bool-cases, Option-cases, iff_trans, false≢true,
}
use mcpdef.Str.{Str}
use mcpdef.Glob.Names.{names, NameMatches}
use mcpdef.Glob.Names.Laws.{names_iff}
use mcpdef.Glob.UriGlob
use mcpdef.Uri.Parts.{Uri}
use mcpdef.Table.{get, str_key}
use mcpdef.Decision.{Decision, allow, deny}
use mcpdef.Policy.{
  ServerPolicy, ResourcePolicy, Policy, is_nil, is_empty, allows, shows_template, is_governed,
  resources, prompts, keep_if, is_some_and, shows_prompt, decide_resource, decide_template,
  decide_prompt,
}

-- `server` has an entry.
abbrev pub Governed : Policy → Str → Type 0
Governed p server = (sp : ServerPolicy) × (get p.servers server ≡ some sp)

pub is_governed_iff :
    (p : Policy) (server : Str) → (is_governed p server ≡ true) ↔ Governed p server
unfolding is_governed
is_governed_iff p server = elim (Option-cases (get p.servers server)) [
  | inl e ↦ rw e (λ h. absurd (false≢true h), λ h. cc h.1)
  | inr (sp, e) ↦ rw e (λ _. (sp, refl), λ _. refl)
]

-- The gate that the three decisions share: the server is governed, and the test passes.
gate_iff :
    (governed passes : Bool) (unknown refused : Decision)
    → ¬ (unknown ≡ allow)
    → ¬ (refused ≡ allow)
    → ((if not governed then unknown else if passes then allow else refused) ≡ allow)
      ↔ ((governed ≡ true) × (passes ≡ true))
gate_iff true true unknown refused h k = (λ _. (refl, refl), λ _. refl)
gate_iff true false unknown refused h k = (λ e. absurd (k e), λ e. absurd (false≢true e.1))
gate_iff false passes unknown refused h k = (λ e. absurd (h e), λ e. absurd (false≢true e.0))

deny≢allow : {rule reason : Str} → ¬ (deny rule reason ≡ allow)
deny≢allow e = cc e

-- A test on an entry that `keep_if` drops only where the test fails on it.
kept_iff {ℓ} :
    {A : Type ℓ} (keep test : A → Bool) (o : Option A)
    → ((a : A) → test a ≡ true → keep a ≡ true)
    → (is_some_and test (keep_if keep o) ≡ true) ↔ ((a : A) × (o ≡ some a) × (test a ≡ true))
kept_iff keep test none h = (λ e. absurd (false≢true e), λ e. cc e.1)
kept_iff keep test (some a) h = elim (Bool-cases (keep a)) [
  | inl e ↦ rw e (λ t. (a, refl, t), λ (b, same, t). cc (ap (λ o. is_some_and test o) same))
  | inr e ↦ rw e (
    λ t. absurd (false≢true t),
    λ (b, same, t). absurd (false≢true (sym e ∙ h a (ap (is_some_and test) same ∙ t))),
  )
]

any-not_nil {ℓ} :
    {A : Type ℓ} (f : A → Bool) (xs : List A) → any f xs ≡ true → not (is_nil xs) ≡ true
any-not_nil f [] h = absurd (false≢true h)
any-not_nil f (x ∷ xs) h = refl

entry_iff :
    {A : Type 0} (o : Option A) (P Q : A → Type 0)
    → ((a : A) → P a ↔ Q a)
    → ((a : A) × (o ≡ some a) × P a) ↔ ((a : A) × (o ≡ some a) × Q a)
entry_iff o P Q h = (λ (a, e, p). (a, e, (h a).0 p), λ (a, e, q). (a, e, (h a).1 q))

×_iff : {P P' Q Q' : Type 0} → P ↔ P' → Q ↔ Q' → (P × Q) ↔ (P' × Q')
×_iff f g = (λ (p, q). (f.0 p, g.0 q), λ (p, q). (f.1 p, g.1 q))

not-true : (b : Bool) → not b ≡ true → b ≡ false
not-true true e = absurd (false≢true e)
not-true false e = refl

allows-not_empty : (uri : Uri) (r : ResourcePolicy) → allows r uri ≡ true → not (is_empty r) ≡ true
unfolding allows
allows-not_empty uri r h =
    rw (not-true (is_nil r.uris) (any-not_nil (λ glob. UriGlob.matches glob uri) r.uris h)) refl

shows-not_empty :
    (template : Str) (r : ResourcePolicy)
    → shows_template r template ≡ true
    → not (is_empty r) ≡ true
unfolding shows_template
shows-not_empty template r h =
    rw (not-true (is_nil r.templates) (any-not_nil (λ glob. names glob template) r.templates h))
      (both (is_nil r.uris))
  where
    both : (b : Bool) → not (b && false) ≡ true
    both true = refl
    both false = refl

-- A resource read is allowed exactly if the server is governed and one of the URI globs that are
-- listed for the server matches the URI: nothing is exposed that no glob names.
pub decide_resource_iff :
    (p : Policy) (server : Str) (uri : Uri)
    → (decide_resource p server uri ≡ allow) ↔ (
        Governed p server
        × ((r : ResourcePolicy) × (get p.resource_lists server ≡ some r)
            × Any (λ glob. UriGlob.matches glob uri ≡ true) r.uris))
unfolding decide_resource resources allows
decide_resource_iff p server uri =
    iff_trans
      (gate_iff (is_governed p server) (is_some_and (λ r. allows r uri) (resources p server)) _ _
        deny≢allow deny≢allow)
      (×_iff (is_governed_iff p server) (
        iff_trans
          (kept_iff (λ r. not (is_empty r)) (λ r. allows r uri) (get p.resource_lists server)
            (allows-not_empty uri))
          (entry_iff (get p.resource_lists server) (λ r. allows r uri ≡ true)
            (λ r. Any (λ glob. UriGlob.matches glob uri ≡ true) r.uris) listed)))
  where
    listed :
        (r : ResourcePolicy)
        → (allows r uri ≡ true) ↔ Any (λ glob. UriGlob.matches glob uri ≡ true) r.uris
    listed r = any_iff (λ glob. UriGlob.matches glob uri) (λ glob. (λ e. e, λ e. e)) r.uris

-- A completion for a resource template is allowed exactly if the server is governed and one of the
-- template globs that are listed for the server describes the template.
pub decide_template_iff :
    (p : Policy) (server template : Str)
    → (decide_template p server template ≡ allow) ↔ (
        Governed p server
        × ((r : ResourcePolicy) × (get p.resource_lists server ≡ some r)
            × Any (λ glob. NameMatches glob template) r.templates))
unfolding decide_template resources shows_template
decide_template_iff p server template =
    iff_trans
      (gate_iff (is_governed p server)
        (is_some_and (λ r. shows_template r template) (resources p server)) _ _ deny≢allow
        deny≢allow)
      (×_iff (is_governed_iff p server) (
        iff_trans
          (kept_iff (λ r. not (is_empty r)) (λ r. shows_template r template)
            (get p.resource_lists server) (shows-not_empty template))
          (entry_iff (get p.resource_lists server) (λ r. shows_template r template ≡ true)
            (λ r. Any (λ glob. NameMatches glob template) r.templates) listed)))
  where
    listed :
        (r : ResourcePolicy)
        → (shows_template r template ≡ true) ↔ Any (λ glob. NameMatches glob template) r.templates
    listed r = any_iff (λ glob. names glob template) (λ glob. names_iff glob template) r.templates

-- A prompt is allowed exactly if the server is governed and one of the prompt globs that are listed
-- for the server describes the prompt's name.
pub decide_prompt_iff :
    (p : Policy) (server name : Str)
    → (decide_prompt p server name ≡ allow) ↔ (
        Governed p server
        × ((globs : List Str) × (get p.prompt_lists server ≡ some globs)
            × Any (λ glob. NameMatches glob name) globs))
unfolding decide_prompt shows_prompt prompts
decide_prompt_iff p server name =
    iff_trans
      (gate_iff (is_governed p server)
        (is_some_and (any (λ glob. names glob name)) (prompts p server)) _ _ deny≢allow deny≢allow)
      (×_iff (is_governed_iff p server) (
        iff_trans
          (kept_iff (λ globs. not (is_nil globs)) (any (λ glob. names glob name))
            (get p.prompt_lists server) (any-not_nil (λ glob. names glob name)))
          (entry_iff (get p.prompt_lists server)
            (λ globs. any (λ glob. names glob name) globs ≡ true)
            (Any (λ glob. NameMatches glob name))
            (λ globs. any_iff (λ glob. names glob name) (λ glob. names_iff glob name) globs))))
