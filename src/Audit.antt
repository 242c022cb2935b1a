-- ===== src/Audit.antt =====
-- The audit ledger's data: `Record`, `Entry`, `Attrs`, `ToolChanges`, `Kind`, `AuditError` and
-- `GENESIS` of crates/mcpdef-audit/src/lib.rs. The child modules hold the hash, the file, the
-- ledger and its verification.
pub mod Hash
pub mod Lines
pub mod Store
pub mod Verify
pub mod Tamper
use mcpdef.Prelude.{ℕ, List, Option, replicate}
use mcpdef.Str.{Str, str}
use mcpdef.Str.Decimal.{decimal}
use mcpdef.Json.{Value, number, object, Members, no_members, member}
use mcpdef.Decision.{Decision}

-- The anchor of the first record: 64 zeros.
abbrev pub genesis : Str
genesis = replicate 64 b'0'

-- `AuditError`, less the input and output errors and those of a page's cursor.
pub data AuditError : Type 0 where
  corrupt : (line : ℕ) (detail : Str) → AuditError

-- `Result<_, AuditError>`.
pub data Audited {ℓ} (A : Type ℓ) : Type ℓ where
  ok : A → Audited A
  failed : AuditError → Audited A

-- `serde_json::from_str` of a line.
pub data Parsed {ℓ} (A : Type ℓ) : Type ℓ where
  parsed : A → Parsed A
  refused : Str → Parsed A

pub record ToolChanges : Type 0 where
  pub added : ℕ
  pub removed : ℕ
  pub changed : ℕ
  pub drifted : ℕ

-- The fields' order of the source.
abbrev pub to_value : ToolChanges → Value
to_value c = object (
    member (str "added") (number (decimal c.added)) (
      member (str "removed") (number (decimal c.removed)) (
        member (str "changed") (number (decimal c.changed))
          (member (str "drifted") (number (decimal c.drifted)) no_members))))

-- The members after `latency_ms`, but for the two hashes, are the later ones.
pub record Record : Type 0 where
  pub seq : ℕ
  pub ts_unix_ms : ℕ
  pub agent : Str
  pub server : Str
  pub method : Option Str
  pub tool : Option Str
  pub decision : Str
  pub rule : Option Str
  pub latency_ms : ℕ
  pub kind : Option Str
  pub uri : Option Str
  pub transforms : Option (List Str)
  pub actor : Option Str
  pub peer : Option Str
  pub config_from : Option Str
  pub config_to : Option Str
  pub tool_changes : Option ToolChanges
  pub extra : List (Str × Value)
  pub prev_hash : Str
  pub hash : Str

pub data Kind : Type 0 where
  call admin reload upstream : Kind

abbrev pub as_str : Kind → Str
as_str call = str "call"
as_str admin = str "admin"
as_str reload = str "reload"
as_str upstream = str "upstream"

pub record Attrs : Type 0 where
  pub kind : Kind
  pub uri : Option Str
  pub transforms : List Str
  pub actor : Option Str
  pub peer : Option Str
  pub config_from : Option Str
  pub config_to : Option Str
  pub rule : Option Str
  pub tool_changes : Option ToolChanges

pub record Entry : Type 0 where
  pub agent : Str
  pub server : Str
  pub method : Option Str
  pub tool : Option Str
  pub decision : Decision
  pub latency_ms : ℕ
  pub attrs : Attrs

-- What the ledger uses of other crates: the text of a string literal, SHA-256 as lowercase hex, and
-- a record's line of JSON, printed and read; a line that is no record is read as the error's text.
pub record Codec : Type 0 where
  pub json_str : Str → Str
  pub sha : Str → Str
  pub print_record : Record → Str
  pub parse_record : Str → Parsed Record
