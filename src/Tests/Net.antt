-- ===== src/Tests/Net.antt =====
-- The egress guard of crates/mcpdef-transport/src/egress.rs at concrete addresses, with a parser
-- that answers one URL, and the hash of a tool.
use mcpdef.Prelude.{true, ◌≡◌, ◌≢◌, ◌↔◌, refl, some, inl, inr, [], ◌∷◌, All, Any, arith}
use mcpdef.Str.{str, str_eq}
use mcpdef.Json.{Value, null, string, object, no_members, member, find_member, get_member}
use mcpdef.Json.Canonical.Laws.{SameValue, same, same_object, swapped}
use mcpdef.Pin.Hash.{governed_fields, tool_hash, SameField, tool_hash-SameField}
use mcpdef.Str.Laws.{str_eq_iff}
use mcpdef.Prelude.{eq-false_iff}
use mcpdef.Egress.{
  Resolved, Ipv4, v4, v6, Url, Net, domain, ok, public, check_ip, validate, classify_v4,
  default_policy,
}
use mcpdef.Egress.Blocks.{bits, InBlock, never, internal, classify_v4-public_iff}
use mcpdef.Egress.Laws.{IsTarget, IsSafe, validate-IsSafe}
use mcpdef.Egress.Never.{mapped, check_ip-never}

abbrev metadata : Ipv4
metadata = record { a = 169; b = 254; c = 169; d = 254 }

abbrev resolver : Ipv4
resolver = record { a = 9; b = 9; c = 9; d = 9 }

abbrev site : Url
site = record { scheme = str "https"; host = some (domain (str "x.org")); port = some 443 }

abbrev net : Net
net = record {
  parse_url = λ s. ok site;
  lookup_host = λ host port. ok (v4 resolver ∷ []);
  show_ip = λ ip. str "ip";
}

abbrev pinned : Resolved
pinned = record { host = str "x.org"; addrs = (v4 resolver, 443) ∷ []; is_domain = true }

classify_v4-public_iff_example :
    (classify_v4 resolver ≡ public)
    ↔ ((¬ Any (InBlock (bits resolver)) never) × (¬ Any (InBlock (bits resolver)) internal))
classify_v4-public_iff_example =
    classify_v4-public_iff resolver (omega arith, omega arith, omega arith, omega arith)

check_ip-never_example :
    (check_ip net (str "h") (v4 metadata) default_policy ≢ ok true)
    × (check_ip net (str "h") (v6 (mapped metadata)) default_policy ≢ ok true)
check_ip-never_example =
    check_ip-never net (str "h") default_policy metadata true
      (omega arith, omega arith, omega arith, omega arith) (inr (inl (omega arith, omega arith)))

pinned_run : validate net (str "https://x.org") default_policy ≡ ok pinned
unfolding validate str_eq classify_v4
pinned_run = refl

validate-IsSafe_example :
    (url : Url) × IsTarget net (str "https://x.org") url
    × IsSafe net url.scheme default_policy pinned
validate-IsSafe_example = validate-IsSafe net (str "https://x.org") default_policy pinned pinned_run

abbrev kind : Value
kind = object (member (str "b") null (member (str "a") null no_members))

abbrev kind_turned : Value
kind_turned = object (member (str "a") null (member (str "b") null no_members))

abbrev tool : Value
tool =
    object (member (str "name") (string (str "get")) (member (str "inputSchema") kind no_members))

abbrev tool_turned : Value
tool_turned = object (
    member (str "title") null (
      member (str "inputSchema") kind_turned (member (str "name") (string (str "get")) no_members)))

b-a : str "b" ≢ str "a"
unfolding str_eq
b-a = (eq-false_iff _ (str_eq_iff (str "b") (str "a"))).0 refl

kinds : SameValue kind kind_turned
kinds = same_object (swapped (str "b") (str "a") null null no_members b-a)

fields : All (λ f. SameField (get_member tool f) (get_member tool_turned f)) governed_fields
unfolding get_member find_member str_eq
fields = (same (string (str "get")), (tt, (kinds, (tt, (tt, tt)))))

tool_hash-SameField_example :
    tool_hash (λ s. s) (λ s. s) tool ≡ tool_hash (λ s. s) (λ s. s) tool_turned
tool_hash-SameField_example = tool_hash-SameField (λ s. s) (λ s. s) tool tool_turned fields
