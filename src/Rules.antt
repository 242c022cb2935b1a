-- ===== src/Rules.antt =====
-- The policy rules: `Effect`, `ArgOp`, `ArgMatch`, `Rule`, `Target`, `PolicyContext`,
-- `PolicyRules::evaluate` and their helpers in crates/mcpdef-policy/src/rules.rs. What a
-- `transform` effect holds is the type parameter `T`: `evaluate` reads no more than that it is one.
pub mod Laws
use mathlib.Core.Option
use mcpdef.Prelude.{
  List, [], ◌∷◌, ◌++◌, Option, none, some, Bool, true, false, not, ◌&&◌, if◌then◌else◌, any, all,
}
use mcpdef.Str.{Str, str, str_eq, split, is_some, find}
use mcpdef.Glob.Names.{names}
use mcpdef.Glob.UriGlob
use mcpdef.Glob.UriGlob.{UriGlob}
use mcpdef.Uri.Parts.{Uri}
use mcpdef.Decision.{Decision, allow, deny}
use mcpdef.Json.{Value, null, boolean, number, string, array, object, get_member}

pub data Effect (T : Type 0) : Type 0 where
  allows : Effect T
  denies : Effect T
  transforms : T → Effect T

pub data ArgOp : Type 0 where
  exists : ArgOp
  equals : Str → ArgOp
  glob : Str → ArgOp
  contains : Str → ArgOp

pub record ArgMatch : Type 0 where
  pub path : Str
  pub op : ArgOp

pub data Target : Type 0 where
  tool : Str → Target
  resource : Uri → Target
  prompt : Str → Target
  template : Str → Target

pub record Rule (T : Type 0) : Type 0 where
  pub name : Str
  pub effect : Effect T
  pub agents : Option (List Str)
  pub servers : Option (List Str)
  pub tools : Option (List Str)
  pub uris : Option (List UriGlob)
  pub prompts : Option (List Str)
  pub args : List ArgMatch

pub record PolicyContext : Type 0 where
  pub agent : Str
  pub server : Str
  pub target : Target
  pub args : Value

abbrev pub target_name : Target → Str
target_name (tool name) = name
target_name (resource uri) = uri.text
target_name (prompt name) = name
target_name (template name) = name

abbrev pub is_none {ℓ} : {A : Type ℓ} → Option A → Bool
is_none o = not (is_some o)

unfoldable pub glob_any : Option (List Str) → Str → Bool
unfolding names
glob_any none s = true
glob_any (some globs) s = any (λ p. names p s) globs

-- The loop over the path's segments.
unfoldable pub walk : Value → List Str → Option Value
unfolding get_member
walk v [] = some v
walk v (seg ∷ segs) = elim (get_member v seg) [ none ↦ none | some inside ↦ walk inside segs ]

unfoldable pub resolve_path : Value → Str → Option Value
unfolding walk split
resolve_path v path = walk v (split b'.' path)

abbrev pub scalar_str : Option Value → Option Str
scalar_str (some (string s)) = some s
scalar_str (some (number n)) = some n
scalar_str (some (boolean b)) = some (if b then str "true" else str "false")
scalar_str (some null) = none
scalar_str (some (array v)) = none
scalar_str (some (object m)) = none
scalar_str none = none

abbrev pub is_present : Option Value → Bool
is_present none = false
is_present (some null) = false
is_present (some (boolean b)) = true
is_present (some (number n)) = true
is_present (some (string s)) = true
is_present (some (array v)) = true
is_present (some (object m)) = true

-- `Option::is_some_and`.
abbrev pub scalar_is : (Str → Bool) → Option Str → Bool
scalar_is f none = false
scalar_is f (some s) = f s

abbrev pub compare_arg : ArgOp → Option Value → Bool
compare_arg exists v = is_present v
compare_arg (equals s) v = scalar_is (λ text. str_eq text s) (scalar_str v)
compare_arg (glob g) v = scalar_is (λ text. names g text) (scalar_str v)
compare_arg (contains sub) v = scalar_is (λ text. is_some (find sub text)) (scalar_str v)

unfoldable pub arg_matches : ArgMatch → Value → Bool
unfolding resolve_path str_eq names find
arg_matches a args = compare_arg a.op (resolve_path args a.path)

abbrev pub any_uri_matches : Option (List UriGlob) → Uri → Bool
any_uri_matches none uri = true
any_uri_matches (some globs) uri = any (λ g. UriGlob.matches g uri) globs

module _ {T : Type 0} where
  -- Whether the rule is about the request's kind, and names what it asks for.
  abbrev pub target_matches : Rule T → Target → Bool
  target_matches r (tool name) = is_none r.uris && (is_none r.prompts && glob_any r.tools name)
  target_matches r (resource uri) =
      is_none r.tools && (is_none r.prompts && any_uri_matches r.uris uri)
  target_matches r (prompt name) = is_none r.tools && (is_none r.uris && glob_any r.prompts name)
  target_matches r (template name) = is_none r.tools && (is_none r.uris && is_none r.prompts)

  unfoldable pub matches : Rule T → PolicyContext → Bool
  unfolding glob_any UriGlob.matches arg_matches
  matches r ctx =
      target_matches r ctx.target
      && (glob_any r.agents ctx.agent
          && (glob_any r.servers ctx.server && all (λ a. arg_matches a ctx.args) r.args))

  abbrev pub denied_by : Rule T → PolicyContext → Decision
  denied_by r ctx = deny r.name (
      str "policy rule '"
      ++ (r.name
          ++ (str "' denied '"
              ++ (target_name ctx.target ++ (str "' on '" ++ (ctx.server ++ str "'"))))))

  -- `None` for a transform, which decides nothing.
  abbrev pub denies_it : Effect T → Option Bool
  denies_it allows = some false
  denies_it denies = some true
  denies_it (transforms t) = none

  unfoldable pub evaluate : List (Rule T) → PolicyContext → Decision
  unfolding matches
  evaluate [] ctx = allow
  evaluate (r ∷ rules) ctx = elim (denies_it r.effect) [
    | none ↦ evaluate rules ctx
    | some is_deny ↦ elim (matches r ctx) [
      | true ↦ if not is_deny then allow else denied_by r ctx
      | false ↦ evaluate rules ctx
    ]
  ]
