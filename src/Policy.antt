-- ===== src/Policy.antt =====
-- The allowlists: `ServerPolicy`, `ResourcePolicy` and `Policy` of
-- crates/mcpdef-policy/src/lib.rs. A method that changes the policy returns it.
pub mod Tools
pub mod Lists
pub mod Updates
use mathlib.Core.Option
use mcpdef.Prelude.{
  List, [], ◌∷◌, ◌++◌, Option, none, some, Bool, true, false, not, ◌&&◌, if◌then◌else◌, any,
}
use mcpdef.Str.{Str, str, str_eq, is_some}
use mcpdef.Glob.Names.{names}
use mcpdef.Glob.UriGlob
use mcpdef.Glob.UriGlob.{UriGlob}
use mcpdef.Uri.Parts.{Uri}
use mcpdef.Table.{str_key, get, contains_key}
use mcpdef.Table
use mcpdef.Decision.{Decision, allow, deny, is_allow}

pub record ServerPolicy : Type 0 where
  pub allow_tools : Option (List Str)
  pub deny_globs : List Str

pub record ResourcePolicy : Type 0 where
  pub uris : List UriGlob
  pub templates : List Str

pub record Policy : Type 0 where
  pub servers : List (Str × ServerPolicy)
  pub active : Option ServerPolicy
  pub resource_lists : List (Str × ResourcePolicy)
  pub prompt_lists : List (Str × List Str)

-- `is_empty` of a list.
abbrev pub is_nil {ℓ} : {A : Type ℓ} → List A → Bool
is_nil [] = true
is_nil (x ∷ xs) = false

-- The loop over the deny globs.
abbrev pub first_denied : List Str → Str → Option (Str × Str)
first_denied [] tool = none
first_denied (pattern ∷ globs) tool =
    let later = first_denied globs tool in
    if names pattern tool
    then some (
      str "deny-glob",
      str "tool '" ++ (tool ++ (str "' matches deny pattern '" ++ (pattern ++ str "'"))),
    )
    else later

abbrev pub off_allowlist : Option (List Str) → Str → Option (Str × Str)
off_allowlist none tool = none
off_allowlist (some listed) tool =
    if not (any (λ p. names p tool) listed)
    then some (str "not-on-allowlist", str "tool '" ++ (tool ++ str "' is not on the allowlist"))
    else none

unfoldable pub deny_reason : ServerPolicy → Str → Option (Str × Str)
unfolding names
deny_reason sp tool = elim (first_denied sp.deny_globs tool) [
  | some found ↦ some found
  | none ↦ off_allowlist sp.allow_tools tool
]

abbrev pub is_empty : ResourcePolicy → Bool
is_empty r = is_nil r.uris && is_nil r.templates

unfoldable pub allows : ResourcePolicy → Uri → Bool
unfolding UriGlob.matches
allows r uri = any (λ glob. UriGlob.matches glob uri) r.uris

unfoldable pub shows_template : ResourcePolicy → Str → Bool
unfolding names
shows_template r template = any (λ pattern. names pattern template) r.templates

-- `Policy::new`.
abbrev pub empty_policy : Policy
empty_policy = record { servers = []; active = none; resource_lists = []; prompt_lists = [] }

abbrev pub from_map : List (Str × ServerPolicy) → Policy
from_map servers = record {
  servers = servers;
  active = none;
  resource_lists = [];
  prompt_lists = [];
}

abbrev pub with_active : Policy → Option ServerPolicy → Policy
with_active p active = record {
  servers = p.servers;
  active = active;
  resource_lists = p.resource_lists;
  prompt_lists = p.prompt_lists;
}

unfoldable pub insert : Policy → Str → ServerPolicy → Policy
unfolding Table.insert str_eq
insert p server policy = record {
  servers = Table.insert p.servers server policy;
  active = p.active;
  resource_lists = p.resource_lists;
  prompt_lists = p.prompt_lists;
}

unfoldable pub insert_resources : Policy → Str → ResourcePolicy → Policy
unfolding Table.insert str_eq
insert_resources p server resources = record {
  servers = p.servers;
  active = p.active;
  resource_lists = Table.insert p.resource_lists server resources;
  prompt_lists = p.prompt_lists;
}

unfoldable pub insert_prompts : Policy → Str → List Str → Policy
unfolding Table.insert str_eq
insert_prompts p server prompts = record {
  servers = p.servers;
  active = p.active;
  resource_lists = p.resource_lists;
  prompt_lists = Table.insert p.prompt_lists server prompts;
}

unfoldable pub is_governed : Policy → Str → Bool
unfolding get str_eq
is_governed p server = contains_key p.servers server

abbrev pub unknown_server : Str → Decision
unknown_server server =
    deny (str "unknown-server") (str "server '" ++ (server ++ str "' is not governed by MCPdef"))

abbrev pub through_active : Option ServerPolicy → Str → Decision
through_active none tool = allow
through_active (some active) tool =
    if is_some (deny_reason active tool)
    then deny (str "not-in-active-profile")
        (str "tool '" ++ (tool ++ str "' is not in the gateway's active profile"))
    else allow

abbrev pub through_server : Option ServerPolicy → ServerPolicy → Str → Str → Decision
through_server active sp server tool = elim (deny_reason sp tool) [
  | some found ↦ deny found.0 (found.1 ++ (str " for '" ++ (server ++ str "'")))
  | none ↦ through_active active tool
]

unfoldable pub decide_tool : Policy → Str → Str → Decision
unfolding get deny_reason str_eq
decide_tool p server tool = elim (get p.servers server) [
  | none ↦ unknown_server server
  | some sp ↦ through_server p.active sp server tool
]

unfoldable pub tool_is_exposed : Policy → Str → Str → Bool
unfolding decide_tool
tool_is_exposed p server tool = is_allow (decide_tool p server tool)

abbrev pub names_itself : Option (List Str) → Str → Bool
names_itself none tool = false
names_itself (some listed) tool = any (λ entry. str_eq entry tool) listed

unfoldable pub lists_tool : Policy → Str → Str → Bool
unfolding get str_eq
lists_tool p server tool = elim (get p.servers server) [
  | none ↦ false
  | some sp ↦ names_itself sp.allow_tools tool
]

-- `Option::filter`.
abbrev pub keep_if {ℓ} : {A : Type ℓ} → (A → Bool) → Option A → Option A
keep_if f none = none
keep_if f (some a) = if f a then some a else none

-- `Option::is_some_and`.
abbrev pub is_some_and {ℓ} : {A : Type ℓ} → (A → Bool) → Option A → Bool
is_some_and f none = false
is_some_and f (some a) = f a

unfoldable pub resources : Policy → Str → Option ResourcePolicy
unfolding get str_eq
resources p server = keep_if (λ r. not (is_empty r)) (get p.resource_lists server)

unfoldable pub prompts : Policy → Str → Option (List Str)
unfolding get str_eq
prompts p server = keep_if (λ globs. not (is_nil globs)) (get p.prompt_lists server)

unfoldable pub exposes_resources : Policy → Bool
unfolding is_governed
exposes_resources p = any (λ e. is_governed p e.0 && not (is_empty e.1)) p.resource_lists

unfoldable pub exposes_templates : Policy → Bool
unfolding is_governed
exposes_templates p = any (λ e. is_governed p e.0 && not (is_nil e.1.templates)) p.resource_lists

unfoldable pub exposes_prompts : Policy → Bool
unfolding is_governed
exposes_prompts p = any (λ e. is_governed p e.0 && not (is_nil e.1)) p.prompt_lists

unfoldable pub decide_resource : Policy → Str → Uri → Decision
unfolding is_governed resources allows
decide_resource p server uri =
    if not (is_governed p server)
    then unknown_server server
    else if is_some_and (λ r. allows r uri) (resources p server)
    then allow
    else deny (str "resource-not-allowed") (
        str "resource '"
        ++ (uri.text ++ (str "' is not on the resource allowlist of '" ++ (server ++ str "'"))))

unfoldable pub decide_template : Policy → Str → Str → Decision
unfolding is_governed resources shows_template
decide_template p server template =
    if not (is_governed p server)
    then unknown_server server
    else if is_some_and (λ r. shows_template r template) (resources p server)
    then allow
    else deny (str "template-not-allowed") (
        str "resource template '"
        ++ (template ++ (str "' is not on the template allowlist of '" ++ (server ++ str "'"))))

unfoldable pub shows_prompt : Policy → Str → Str → Bool
unfolding prompts names
shows_prompt p server name = is_some_and (any (λ glob. names glob name)) (prompts p server)

unfoldable pub decide_prompt : Policy → Str → Str → Decision
unfolding is_governed shows_prompt
decide_prompt p server name =
    if not (is_governed p server)
    then unknown_server server
    else if shows_prompt p server name
    then allow
    else deny (str "prompt-not-allowed") (
        str "prompt '"
        ++ (name ++ (str "' is not on the prompt allowlist of '" ++ (server ++ str "'"))))
