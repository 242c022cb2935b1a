-- ===== src/Decision.antt =====
-- The decision on a call: `Decision` of crates/mcpdef-core/src/lib.rs.
use mcpdef.Prelude.{Bool, true, false}
use mcpdef.Str.{Str, str}

pub data Decision : Type 0 where
  allow : Decision
  deny : (rule reason : Str) → Decision

abbrev pub as_str : Decision → Str
as_str allow = str "allow"
as_str (deny rule reason) = str "deny"

abbrev pub is_allow : Decision → Bool
is_allow allow = true
is_allow (deny rule reason) = false
