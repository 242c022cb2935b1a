-- ===== src/Rbac.antt =====
-- The roles of an authenticated caller: `Rbac` and `granted` of
-- crates/mcpdef-policy/src/lib.rs. The subjects, an iterator over the caller's scopes and roles,
-- are a list; a method that changes the roles returns them.
pub mod Laws
use mathlib.Core.Option
use mcpdef.Prelude.{
  List, [], ◌∷◌, ◌++◌, Option, none, some, Bool, true, false, ◌&&◌, if◌then◌else◌, any, filter,
}
use mcpdef.Str.{Str, str, str_eq}
use mcpdef.Glob.Names.{names}
use mcpdef.Glob.UriGlob
use mcpdef.Glob.UriGlob.{UriGlob}
use mcpdef.Uri.Parts.{Uri}
use mcpdef.Table
use mcpdef.Table.{str_key, get}
use mcpdef.Decision.{Decision, allow, deny}
use mcpdef.Policy.{is_nil}

pub record Rbac : Type 0 where
  pub roles : List (Str × List (Str × Str))
  pub resource_roles : List (Str × List (Str × UriGlob))
  pub prompt_roles : List (Str × List (Str × Str))
  pub cert_map : List (Str × List Str)

-- `Rbac::new`.
abbrev pub no_roles : Rbac
no_roles = record { roles = []; resource_roles = []; prompt_roles = []; cert_map = [] }

unfoldable pub insert_role : Rbac → Str → List (Str × Str) → Rbac
unfolding Table.insert str_eq
insert_role r name grants = record {
  roles = Table.insert r.roles name grants;
  resource_roles = r.resource_roles;
  prompt_roles = r.prompt_roles;
  cert_map = r.cert_map;
}

unfoldable pub insert_resource_grants : Rbac → Str → List (Str × UriGlob) → Rbac
unfolding Table.insert str_eq
insert_resource_grants r name grants = record {
  roles = r.roles;
  resource_roles = Table.insert r.resource_roles name grants;
  prompt_roles = r.prompt_roles;
  cert_map = r.cert_map;
}

unfoldable pub insert_prompt_grants : Rbac → Str → List (Str × Str) → Rbac
unfolding Table.insert str_eq
insert_prompt_grants r name grants = record {
  roles = r.roles;
  resource_roles = r.resource_roles;
  prompt_roles = Table.insert r.prompt_roles name grants;
  cert_map = r.cert_map;
}

unfoldable pub is_empty : Rbac → Bool
is_empty r = is_nil r.roles && (is_nil r.resource_roles && is_nil r.prompt_roles)

unfoldable pub map_certificates : Rbac → Str → List Str → Rbac
map_certificates r pattern roles = record {
  roles = r.roles;
  resource_roles = r.resource_roles;
  prompt_roles = r.prompt_roles;
  cert_map = r.cert_map ++ ((pattern, roles) ∷ []);
}

-- `filter`, then `flat_map`.
unfoldable pub roles_of : List (Str × List Str) → Str → List Str
unfolding names
roles_of [] identity = []
roles_of ((pattern, roles) ∷ entries) identity =
    let rest = roles_of entries identity in if names pattern identity then roles ++ rest else rest

unfoldable pub certificate_roles : Rbac → Str → List Str
unfolding roles_of
certificate_roles r identity = roles_of r.cert_map identity

-- `filter_map` over the subjects that are roles, then `any` over each one's grants.
unfoldable pub holds : {G : Type 0} → List (Str × List G) → (G → Bool) → List Str → Bool
unfolding get str_eq
holds roles grants [] = false
holds roles grants (subject ∷ subjects) = elim (get roles subject) [
  | none ↦ holds roles grants subjects
  | some held ↦ if any grants held then true else holds roles grants subjects
]

abbrev pub both_match : Str → Str → Str × Str → Bool
both_match server name grant = names grant.0 server && names grant.1 name

unfoldable pub granted : List (Str × List (Str × Str)) → List Str → Str → Str → Bool
unfolding holds names
granted roles subjects server name = holds roles (both_match server name) subjects

unfoldable pub decide_template : Rbac → List Str → Str → Str → Decision
unfolding holds names
decide_template r subjects server template =
    if holds r.resource_roles (λ grant. names grant.0 server) subjects
    then allow
    else deny (str "rbac") (
        str "no role grants a resource on '"
        ++ (server ++ (str "' to complete '" ++ (template ++ str "'"))))

unfoldable pub decide_prompt : Rbac → List Str → Str → Str → Decision
unfolding granted
decide_prompt r subjects server name =
    if granted r.prompt_roles subjects server name
    then allow
    else deny (str "rbac")
        (str "no role grants prompt '" ++ (name ++ (str "' on '" ++ (server ++ str "'"))))

abbrev pub uri_matches : Str → Uri → Str × UriGlob → Bool
uri_matches server uri grant = names grant.0 server && UriGlob.matches grant.1 uri

unfoldable pub decide_resource : Rbac → List Str → Str → Uri → Decision
unfolding holds names UriGlob.matches
decide_resource r subjects server uri =
    if holds r.resource_roles (uri_matches server uri) subjects
    then allow
    else deny (str "rbac")
        (str "no role grants '" ++ (uri.text ++ (str "' on '" ++ (server ++ str "'"))))

unfoldable pub decide : Rbac → List Str → Str → Str → Decision
unfolding granted
decide r subjects server tool =
    if granted r.roles subjects server tool
    then allow
    else deny (str "rbac")
        (str "no role grants '" ++ (tool ++ (str "' on '" ++ (server ++ str "'"))))
