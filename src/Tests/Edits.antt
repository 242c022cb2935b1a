-- ===== src/Tests/Edits.antt =====
-- The edits of crates/mcpdef-policy/src/transform.rs at concrete arguments.
use Prim.Native.Nat.{Ordering}
use mcpdef.Prelude.{[], ◌∷◌, ◌≡◌, refl, none, some, true, false}
use mcpdef.Str.{Str, str, split}
use mcpdef.Json.{Value, null, number, string, object, no_members, member}
use mcpdef.Rules.{Rule, transforms, resolve_path}
use mcpdef.Transform.{Serde, set, clamp_op, default, done, refused, apply_edit, apply, deny_call}
use mcpdef.Transform.Laws.{resolve_path-set}
use mcpdef.Passes.{Transform, policy_rules, nothing_done, transform}
use mcpdef.Passes.Laws.{transform-idle}

-- A reading of no number.
abbrev serde : Serde
serde = record {
  same_value = λ v w. false;
  as_i64 = λ n. none;
  as_u64 = λ n. none;
  compare_floats = λ n m. some Ordering.gt;
}

abbrev args : Value
args = object (member (str "target") null (member (str "n") (number (str "7")) no_members))

abbrev edited : Value
edited = object (
    member (str "target") (object (member (str "env") (string (str "dev")) no_members))
      (member (str "n") (number (str "7")) no_members))

set_run :
    apply_edit serde (record { path = str "target.env"; op = set (string (str "dev")) }) args
    ≡ done (true, edited)
unfolding apply_edit split
set_run = refl

resolve_path-set_example : resolve_path edited (str "target.env") ≡ some (string (str "dev"))
resolve_path-set_example =
    resolve_path-set serde (str "target.env") (string (str "dev")) args edited true set_run

clamp_run :
    apply serde (record { path = str "n"; op = clamp_op none (some (str "5")) } ∷ []) args
    ≡ done
        (true, object (member (str "target") null (member (str "n") (number (str "5")) no_members)))
unfolding apply split
clamp_run = refl

blocked_run :
    apply_edit serde (record { path = str "n.x"; op = default null }) args
    ≡ refused (str "`n` is a number, not an object")
unfolding apply_edit split
blocked_run = refl

abbrev masks : Rule (Transform Str)
masks = record {
  name = str "mask";
  effect = transforms (record { edits = []; result = str "mask" ∷ []; on_error = deny_call });
  agents = none;
  servers = none;
  tools = some (str "get_*" ∷ []);
  uris = none;
  prompts = none;
  args = [];
}

transform-idle_example :
    transform serde (str "ann") (str "github") (str "get_file") (policy_rules Str (masks ∷ [])) args
    ≡ (nothing_done, args)
transform-idle_example =
    transform-idle Str serde (str "ann") (str "github") (str "get_file") (masks ∷ []) args refl
