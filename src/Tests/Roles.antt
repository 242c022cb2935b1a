-- ===== src/Tests/Roles.antt =====
-- The roles of crates/mcpdef-policy/src/lib.rs at a concrete set of roles.
use mcpdef.Prelude.{[], ◌∷◌, ◌≡◌, ◌↔◌, refl, none, Any}
use mcpdef.Str.{str}
use mcpdef.Glob.Paths.{segment}
use mcpdef.Glob.UriGlob.{UriGlob, uri_shape}
use mcpdef.Decision.{allow}
use mcpdef.Rbac.{Rbac, decide, decide_resource}
use mcpdef.Rbac.Laws.{Grants, NamesBoth, NamesUri, rbac_tool_iff, rbac_resource_iff}
use mcpdef.Tests.Uris.{plain}

abbrev files_glob : UriGlob
files_glob = record {
  source = str "file:///a/*";
  shape = uri_shape (str "file://") ((str "" ∷ str "a" ∷ str "*" ∷ []) ∷ []) none none;
}

abbrev sample : Rbac
sample = record {
  roles = (str "dev", (str "git*", str "get_*") ∷ []) ∷ [];
  resource_roles = (str "dev", (str "git*", files_glob) ∷ []) ∷ [];
  prompt_roles = (str "dev", (str "*", str "review") ∷ []) ∷ [];
  cert_map = [];
}

rbac_tool_iff_example :
    (decide sample (str "ops" ∷ str "dev" ∷ []) (str "github") (str "get_file") ≡ allow)
    ↔ Any
        (Grants sample.roles (NamesBoth (str "github") (str "get_file")))
        (str "ops" ∷ str "dev" ∷ [])
rbac_tool_iff_example =
    rbac_tool_iff sample (str "ops" ∷ str "dev" ∷ []) (str "github") (str "get_file")

decide_run : decide sample (str "ops" ∷ str "dev" ∷ []) (str "github") (str "get_file") ≡ allow
unfolding decide
decide_run = refl

rbac_resource_iff_example :
    (decide_resource sample (str "dev" ∷ []) (str "github") plain ≡ allow)
    ↔ Any (Grants sample.resource_roles (NamesUri (str "github") plain)) (str "dev" ∷ [])
rbac_resource_iff_example = rbac_resource_iff sample (str "dev" ∷ []) (str "github") plain

reads : decide_resource sample (str "dev" ∷ []) (str "github") plain ≡ allow
unfolding decide_resource segment
reads = refl
