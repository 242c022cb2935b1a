-- ===== src/Tests/Policies.antt =====
-- The allowlists and rules of crates/mcpdef-policy at a concrete policy.
use mcpdef.Prelude.{List, [], ◌∷◌, ◌≡◌, ◌↔◌, ◌⊎◌, refl, none, some, true, false, Any, All}
use mcpdef.Str.{Str, str}
use mcpdef.Glob.Names.{NameMatches}
use mcpdef.Glob.UriGlob
use mcpdef.Glob.Paths.{segment}
use mcpdef.Glob.UriGlob.{UriGlob, uri_shape}
use mcpdef.Table.{get, str_key}
use mcpdef.Decision.{allow}
use mcpdef.Policy.{
  ServerPolicy, ResourcePolicy, Policy, decide_tool, tool_is_exposed, with_active, decide_resource,
  decide_template,
}
use mcpdef.Policy.Tools.{Permits, ActivePermits, decide_tool_iff}
use mcpdef.Policy.Lists.{Governed, decide_resource_iff, decide_template_iff}
use mcpdef.Json.{null}
use mcpdef.Rules.{denies, Rule, PolicyContext, tool, evaluate}
use mcpdef.Rules.Laws.{Passes, FirstDecides, evaluate-first}
use mcpdef.Tests.Uris.{plain}

abbrev github : ServerPolicy
github = record {
  allow_tools = some (str "list_*" ∷ str "get_*" ∷ []);
  deny_globs = str "*_secret" ∷ [];
}

abbrev read_only : ServerPolicy
read_only = record { allow_tools = some (str "get_*" ∷ []); deny_globs = [] }

abbrev files_glob : UriGlob
files_glob = record {
  source = str "file:///a/*";
  shape = uri_shape (str "file://") ((str "" ∷ str "a" ∷ str "*" ∷ []) ∷ []) none none;
}

abbrev files : ResourcePolicy
files = record { uris = files_glob ∷ []; templates = str "file:///{*}" ∷ [] }

abbrev sample : Policy
sample = record {
  servers = (str "github", github) ∷ [];
  active = some read_only;
  resource_lists = (str "github", files) ∷ [];
  prompt_lists = (str "github", str "review_*" ∷ []) ∷ [];
}

decide_tool_iff_example : (decide_tool sample (str "github") (str "get_file") ≡ allow) ↔ (
    (sp : ServerPolicy) × (get sample.servers (str "github") ≡ some sp)
    × Permits sp (str "get_file")
    × ActivePermits sample.active (str "get_file"))
decide_tool_iff_example = decide_tool_iff sample (str "github") (str "get_file")

exposed :
    tool_is_exposed (with_active sample (some read_only)) (str "github") (str "get_file") ≡ true
unfolding tool_is_exposed
exposed = refl

hidden : tool_is_exposed sample (str "github") (str "list_issues") ≡ false
unfolding tool_is_exposed
hidden = refl

decide_resource_iff_example : (decide_resource sample (str "github") plain ≡ allow) ↔ (
    Governed sample (str "github")
    × ((r : ResourcePolicy) × (get sample.resource_lists (str "github") ≡ some r)
        × Any (λ glob. UriGlob.matches glob plain ≡ true) r.uris))
decide_resource_iff_example = decide_resource_iff sample (str "github") plain

decide_resource_run : decide_resource sample (str "github") plain ≡ allow
unfolding decide_resource segment
decide_resource_run = refl

decide_template_iff_example :
    (decide_template sample (str "github") (str "file:///{p}") ≡ allow) ↔ (
      Governed sample (str "github")
      × ((r : ResourcePolicy) × (get sample.resource_lists (str "github") ≡ some r)
          × Any (λ glob. NameMatches glob (str "file:///{p}")) r.templates))
decide_template_iff_example = decide_template_iff sample (str "github") (str "file:///{p}")

abbrev no_deletes : Rule (List Str)
no_deletes = record {
  name = str "no-deletes";
  effect = denies;
  agents = none;
  servers = none;
  tools = some (str "delete_*" ∷ []);
  uris = none;
  prompts = none;
  args = [];
}

abbrev deletion : PolicyContext
deletion = record {
  agent = str "ann";
  server = str "github";
  target = tool (str "delete_repo");
  args = null;
}

evaluate-first_example :
    (All (Passes deletion) (no_deletes ∷ []) × (evaluate (no_deletes ∷ []) deletion ≡ allow))
    ⊎ FirstDecides (no_deletes ∷ []) deletion (evaluate (no_deletes ∷ []) deletion)
evaluate-first_example = evaluate-first (no_deletes ∷ []) deletion
