-- ===== src/Audit/Store.antt =====
-- The ledger: `Ledger::open` and `append`, `read_all` and `tail` of crates/mcpdef-audit/src/lib.rs.
-- A file is its text, and none where there is no file; a write is taken to succeed, and the clock's
-- reading is an argument.
pub mod Laws
pub mod Resume
pub mod Steps
use mathlib.Core.Option
use mcpdef.Prelude.{
  ℕ, suc, ◌+◌, ◌-◌, ◌%◌, List, [], ◌∷◌, ◌++◌, Option, none, some, Bool, true, false, not, ◌&&◌, ltb,
  length, drop, if◌then◌else◌,
}
use mcpdef.Str.{Str, str, is_empty}
use mcpdef.Decision.{Decision, allow, deny}
use mcpdef.Audit.{
  Record, Entry, Attrs, Codec, Kind, call, admin, reload, upstream, as_str, genesis, Audited, ok,
  failed,
}
use mcpdef.Audit.Hash.{compute_hash, without_separator}
use mcpdef.Audit.Lines.{lines, each_record}

-- The path and the descriptor left out; `file` is the file's text.
pub record Ledger : Type 0 where
  pub file : Str
  pub head : Str
  pub next_seq : ℕ

abbrev pub two_64 : ℕ
two_64 = 18446744073709551616

-- `+= 1` on a `u64`.
abbrev pub add_one : ℕ → ℕ
add_one n = (n + 1) % two_64

abbrev pub resume : Str × ℕ → Record → Str × ℕ
resume (head, count) r = (r.hash, add_one count)

abbrev pub contents : Option Str → Str
contents none = []
contents (some file) = file

abbrev pub ledger_of : Str → Audited (Str × ℕ) → Audited Ledger
ledger_of file (ok (head, count)) = ok record { file = file; head = head; next_seq = count }
ledger_of file (failed e) = failed e

abbrev pub transforms_member : List Str → Option (List Str)
transforms_member [] = none
transforms_member (t ∷ ts) = some (t ∷ ts)

abbrev pub kind_member : Kind → Option Str
kind_member call = none
kind_member admin = some (as_str admin)
kind_member reload = some (as_str reload)
kind_member upstream = some (as_str upstream)

abbrev pub decided_rule : Decision → Option Str → Option Str
decided_rule allow rule = rule
decided_rule (deny rule reason) attr = some rule

abbrev pub decided : Decision → Str
decided allow = str "allow"
decided (deny rule reason) = str "deny"

module _ (codec : Codec) where
  unfoldable pub open_ledger : Option Str → Audited Ledger
  unfolding lines each_record
  open_ledger path =
      ledger_of (contents path)
        (each_record codec.parse_record resume (λ s. s.1) (lines (contents path)) (genesis, 0))

  -- The record that `append` writes, before its hash.
  unfoldable pub unhashed : Ledger → ℕ → Entry → Record
  unfolding without_separator
  unhashed l now e = record {
    seq = l.next_seq;
    ts_unix_ms = now;
    agent = without_separator e.agent;
    server = without_separator e.server;
    method = Option.map without_separator e.method;
    tool = Option.map without_separator e.tool;
    decision = decided e.decision;
    rule = Option.map without_separator (decided_rule e.decision e.attrs.rule);
    latency_ms = e.latency_ms;
    kind = kind_member e.attrs.kind;
    uri = e.attrs.uri;
    transforms = transforms_member e.attrs.transforms;
    actor = e.attrs.actor;
    peer = e.attrs.peer;
    config_from = e.attrs.config_from;
    config_to = e.attrs.config_to;
    tool_changes = e.attrs.tool_changes;
    extra = [];
    prev_hash = l.head;
    hash = [];
  }

  abbrev pub with_hash : Record → Str → Record
  with_hash r h = record r { hash = h }

  -- The record and the ledger after it.
  unfoldable pub append : Ledger → ℕ → Entry → Record × Ledger
  unfolding unhashed compute_hash
  append l now e =
      let blank = unhashed l now e in
      let rec = with_hash blank (compute_hash codec.json_str codec.sha blank) in
      (
        rec,
        record {
          file = l.file ++ (codec.print_record rec ++ (10 ∷ []));
          head = rec.hash;
          next_seq = add_one l.next_seq;
        },
      )

  unfoldable pub read_all : Option Str → Audited (List Record)
  unfolding lines each_record
  read_all none = ok []
  read_all (some file) =
      each_record codec.parse_record (λ out r. out ++ (r ∷ [])) length (lines file) []

  abbrev pub last_of : ℕ → Audited (List Record) → Audited (List Record)
  last_of n (ok all) = ok (if ltb n (length all) then drop (length all - n) all else all)
  last_of n (failed e) = failed e

  unfoldable pub tail : Option Str → ℕ → Audited (List Record)
  unfolding read_all
  tail path n = last_of n (read_all path)
