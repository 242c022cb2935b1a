-- ===== src/Rbac/Laws.antt =====
-- What a caller's roles grant.
use mcpdef.Prelude.{
  List, [], ◌∷◌, none, some, Bool, true, false, if◌then◌else◌, any, ◌≡◌, ◌↔◌, inl, inr, refl, sym,
  ◌∙◌, Any, any_iff, and_iff, iff_trans, Bool-cases, Option-cases, false≢true, subst,
}
use mcpdef.Str.{Str}
use mcpdef.Glob.Names.{names, NameMatches}
use mcpdef.Glob.Names.Laws.{names_iff}
use mcpdef.Glob.UriGlob
use mcpdef.Glob.UriGlob.{UriGlob}
use mcpdef.Uri.Parts.{Uri}
use mcpdef.Table.{str_key, get}
use mcpdef.Decision.{allow, deny}
use mcpdef.Rbac.{
  Rbac, holds, granted, both_match, uri_matches, decide, decide_prompt, decide_resource,
  decide_template,
}

-- A role among the subjects has a grant that satisfies `P`.
abbrev pub Grants : {G : Type 0} → List (Str × List G) → (G → Type 0) → Str → Type 0
Grants roles P subject = (held : _) × (get roles subject ≡ some held) × Any P held

if-false : {b c : Bool} → b ≡ false → (if b then true else c) ≡ c
if-false e = rw e refl

module _ {G : Type 0} (P : G → Type 0) (test : G → Bool)
    (test_iff : (g : G) → (test g ≡ true) ↔ P g) (roles : List (Str × List G)) where
  holds-absent :
      (subject : Str) (subjects : List Str)
      → get roles subject ≡ none
      → holds roles test (subject ∷ subjects) ≡ holds roles test subjects
  unfolding holds
  holds-absent subject subjects e = rw (e, holds) refl

  holds-held :
      (subject : Str) (subjects : List Str) (held : List G)
      → get roles subject ≡ some held
      → holds roles test (subject ∷ subjects)
        ≡ (if any test held then true else holds roles test subjects)
  unfolding holds
  holds-held subject subjects held e = rw (e, holds) refl

  Grants-held :
      (subject : Str) (held : List G)
      → get roles subject ≡ some held
      → Grants roles P subject
      → Any P held
  Grants-held subject held e (other, same, p) = subst (Any P) (same_held (sym same ∙ e)) p
    where
      same_held : {a b : List G} → some b ≡ some a → b ≡ a
      same_held h = cc

  holds_iff :
      (subjects : List Str) → (holds roles test subjects ≡ true) ↔ Any (Grants roles P) subjects
  unfolding holds
  holds_iff [] = (λ e. absurd (false≢true e), λ h. absurd h)
  holds_iff (subject ∷ subjects) =
      let (to, from) = holds_iff subjects in
      elim (Option-cases (get roles subject)) [
        | inl e ↦
            let same = holds-absent subject subjects e in
            (
              λ h. inr (to (sym same ∙ h)),
              λ h. elim h [ inl (held, found, _) ↦ cc (sym e ∙ found) | inr h' ↦ same ∙ from h' ],
            )
        | inr (held, e) ↦
            let same = holds-held subject subjects held e in
            elim (Bool-cases (any test held)) [
              | inl t ↦
                  (λ _. inl (held, e, (any_iff test test_iff held).0 t), λ _. same ∙ rw t refl)
              | inr t ↦
                  let skipped = same ∙ if-false t in
                  (
                    λ h. inr (to (sym skipped ∙ h)),
                    λ h. elim h [
                      | inl g ↦ absurd (
                          false≢true
                            (sym t ∙ (any_iff test test_iff held).1 (Grants-held subject held e g)))
                      | inr h' ↦ skipped ∙ from h'
                    ],
                  )
            ]
      ]

choose_iff :
    (b : Bool) (rule reason : Str) → ((if b then allow else deny rule reason) ≡ allow) ↔ (b ≡ true)
choose_iff true rule reason = (λ _. refl, λ _. refl)
choose_iff false rule reason = (λ e. cc e, λ e. absurd (false≢true e))

-- A grant whose server glob and name glob describe the server and the name.
abbrev pub NamesBoth : Str → Str → Str × Str → Type 0
NamesBoth server name grant = NameMatches grant.0 server × NameMatches grant.1 name

both_match_iff :
    (server name : Str) (grant : Str × Str)
    → (both_match server name grant ≡ true) ↔ NamesBoth server name grant
both_match_iff server name grant =
    and_iff (names grant.0 server) (names grant.1 name) (names_iff grant.0 server)
      (names_iff grant.1 name)

-- A caller may call a tool exactly if one of its subjects names a role that has a grant whose
-- server glob describes the server and whose tool glob describes the tool.
pub rbac_tool_iff :
    (r : Rbac) (subjects : List Str) (server tool : Str)
    → (decide r subjects server tool ≡ allow)
      ↔ Any (Grants r.roles (NamesBoth server tool)) subjects
unfolding decide granted
rbac_tool_iff r subjects server tool =
    iff_trans (choose_iff (granted r.roles subjects server tool) _ _) (
      holds_iff (NamesBoth server tool) (both_match server tool) (both_match_iff server tool)
        r.roles subjects)

-- A caller may get a prompt exactly if one of its subjects names a role that has such a grant for
-- prompts.
pub rbac_prompt_iff :
    (r : Rbac) (subjects : List Str) (server name : Str)
    → (decide_prompt r subjects server name ≡ allow)
      ↔ Any (Grants r.prompt_roles (NamesBoth server name)) subjects
unfolding decide_prompt granted
rbac_prompt_iff r subjects server name =
    iff_trans (choose_iff (granted r.prompt_roles subjects server name) _ _) (
      holds_iff (NamesBoth server name) (both_match server name) (both_match_iff server name)
        r.prompt_roles subjects)

-- A grant whose server glob describes the server and whose URI pattern matches the URI.
abbrev pub NamesUri : Str → Uri → Str × UriGlob → Type 0
NamesUri server uri grant = NameMatches grant.0 server × (UriGlob.matches grant.1 uri ≡ true)

-- A caller may read a resource exactly if one of its subjects names a role that has a resource
-- grant for the server whose URI pattern matches.
pub rbac_resource_iff :
    (r : Rbac) (subjects : List Str) (server : Str) (uri : Uri)
    → (decide_resource r subjects server uri ≡ allow)
      ↔ Any (Grants r.resource_roles (NamesUri server uri)) subjects
unfolding decide_resource
rbac_resource_iff r subjects server uri =
    iff_trans (choose_iff (holds r.resource_roles (uri_matches server uri) subjects) _ _) (
      holds_iff (NamesUri server uri) (uri_matches server uri)
        (λ grant.
          and_iff (names grant.0 server) (UriGlob.matches grant.1 uri) (names_iff grant.0 server)
            (λ e. e, λ e. e))
        r.resource_roles subjects)

-- Who may read some resource on a server may ask for completions of its templates.
pub read-completes :
    (r : Rbac) (subjects : List Str) (server template : Str) (uri : Uri)
    → decide_resource r subjects server uri ≡ allow
    → decide_template r subjects server template ≡ allow
unfolding decide_template
read-completes r subjects server template uri h =
    (choose_iff (holds r.resource_roles (λ grant. names grant.0 server) subjects) _ _).1 (
      (holds_iff (λ grant. NameMatches grant.0 server) (λ grant. names grant.0 server)
          (λ grant. names_iff grant.0 server) r.resource_roles subjects).1
        (Any-weaken subjects ((rbac_resource_iff r subjects server uri).0 h)))
  where
    weaken_held :
        (held : List (Str × UriGlob))
        → Any (NamesUri server uri) held
        → Any (λ grant. NameMatches grant.0 server) held
    weaken_held [] p = absurd p
    weaken_held (g ∷ gs) (inl p) = inl p.0
    weaken_held (g ∷ gs) (inr p) = inr (weaken_held gs p)

    Any-weaken :
        (l : List Str)
        → Any (Grants r.resource_roles (NamesUri server uri)) l
        → Any (Grants r.resource_roles (λ grant. NameMatches grant.0 server)) l
    Any-weaken [] p = absurd p
    Any-weaken (s ∷ l) (inl (held, e, p)) = inl (held, e, weaken_held held p)
    Any-weaken (s ∷ l) (inr p) = inr (Any-weaken l p)
