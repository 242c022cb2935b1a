-- ===== src/Audit/Lines.antt =====
-- The lines of a ledger's file and the loop over the records they hold, which `Ledger::open`,
-- `read_all` and `verify_marked` of crates/mcpdef-audit/src/lib.rs share.
pub mod Laws
use mcpdef.Prelude.{ℕ, List, [], ◌∷◌, Bool, true, false, ◌||◌, ◌&&◌, all, ◌==◌, leb, if◌then◌else◌}
use mcpdef.Str.{Str, onto_first}
use mcpdef.Audit.{Record, AuditError, corrupt, Audited, ok, failed, Parsed, parsed, refused}

abbrev pub starts_line : Str → Bool
starts_line [] = false
starts_line (c ∷ s) = c == 10

-- A character before lines: a newline ends one, and a carriage return before a newline is dropped.
abbrev pub extend : ℕ → Bool → List Str → List Str
extend c at_end rest =
    if c == 10 then [] ∷ rest else if c == 13 && at_end then rest else onto_first c rest

-- `BufRead::lines`: there is no line after the last newline.
unfoldable pub lines : Str → List Str
lines [] = []
lines (c ∷ s) = extend c (starts_line s) (lines s)

-- `char::is_whitespace`.
abbrev pub is_whitespace : ℕ → Bool
is_whitespace c =
    (leb 9 c && leb c 13)
    || c == 32
    || c == 133
    || c == 160
    || c == 5760
    || (leb 8192 c && leb c 8202)
    || c == 8232
    || c == 8233
    || c == 8239
    || c == 8287
    || c == 12288

-- `line.trim().is_empty()`.
unfoldable pub is_blank : Str → Bool
is_blank s = all is_whitespace s

module _ {S : Type 0} (parse : Str → Parsed Record) (step : S → Record → S) (line : S → ℕ) where
  -- The loop: a blank line is skipped, and one that is no record ends it. `line` is the number that
  -- the error names.
  unfoldable pub each_record : List Str → S → Audited S
  unfolding is_blank
  each_record [] s = ok s
  each_record (l ∷ rest) s = elim (is_blank l) [
    | true ↦ each_record rest s
    | false ↦ elim (parse l) [
      | parsed r ↦ each_record rest (step s r)
      | refused detail ↦ failed (corrupt (line s) detail)
    ]
  ]
