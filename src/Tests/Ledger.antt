-- ===== src/Tests/Ledger.antt =====
-- The audit ledger of crates/mcpdef-audit at one record, with a hash that answers one text and a
-- printer whose line is read as that record.
use mcpdef.Prelude.{ℕ, [], ◌∷◌, ◌≡◌, ◌≢◌, ap, sym, ◌++◌, ◌↔◌, ◌⊎◌, refl, none, some, length, arith}
use mcpdef.Str.{Str, str}
use mcpdef.Str.Laws.{Free}
use mcpdef.Decision.{deny}
use mcpdef.Audit.{Record, Entry, Attrs, Codec, call, genesis, ok, parsed}
use mcpdef.Audit.Hash.{us}
use mcpdef.Audit.Lines.{lines, is_blank, each_record}
use mcpdef.Audit.Store.{Ledger, open_ledger, append, read_all}
use mcpdef.Audit.Store.Laws.{HasLine, IsValid, append-IsValid}
use mcpdef.Audit.Store.Steps.{Wrote, created, appended, read_all-Wrote}
use mcpdef.Audit.Store.Resume.{open_ledger-IsValid}
use mcpdef.Audit.Verify.{VerifyReport, verify, verify_marked, verify_against}
use mcpdef.Audit.Verify.Laws.{Chain, tip, marked_seqs}
use mathlib.Core.List.{tail}
use mcpdef.Audit.Tamper.{Collision, verify_against_iff}
use mcpdef.Audit.Tamper.Written.{Same, verify_against-Same}
use mcpdef.Audit.Hash.Members.{IsLiteral}

abbrev attrs : Attrs
attrs = record {
  kind = call;
  uri = none;
  transforms = [];
  actor = none;
  peer = none;
  config_from = none;
  config_to = none;
  rule = none;
  tool_changes = none;
}

abbrev entry : Entry
entry = record {
  agent = str "bob";
  server = str "db";
  method = some (str "m");
  tool = some (str "drop");
  decision = deny (str "d") (str "why");
  latency_ms = 3;
  attrs = attrs;
}

abbrev first : Record
first = record {
  seq = 0;
  ts_unix_ms = 7;
  agent = str "bob";
  server = str "db";
  method = some (str "m");
  tool = some (str "drop");
  decision = str "deny";
  rule = some (str "d");
  latency_ms = 3;
  kind = none;
  uri = none;
  transforms = none;
  actor = none;
  peer = none;
  config_from = none;
  config_to = none;
  tool_changes = none;
  extra = [];
  prev_hash = genesis;
  hash = str "7b";
}

-- A literal that marks each of its characters.
abbrev marked : Str → Str
marked [] = b'"' ∷ []
marked (c ∷ s) = b'x' ∷ c ∷ marked s

abbrev quote : Str → Str
quote s = b'"' ∷ marked s

quote≢mark : ◌≢◌ {A = ℕ} b'"' b'x'
quote≢mark e = omega arith

abbrev front : Str → ℕ
front [] = 0
front (c ∷ s) = c

marked-ends : (a b x y : Str) → marked a ++ x ≡ marked b ++ y → (a ≡ b) × (x ≡ y)
marked-ends [] [] x y e = (refl, ap tail e)
marked-ends [] (d ∷ b) x y e = absurd (quote≢mark (ap front e))
marked-ends (c ∷ a) [] x y e = absurd (quote≢mark (sym (ap front e)))
marked-ends (c ∷ a) (d ∷ b) x y e =
    let (f, g) = marked-ends a b x y (ap tail (ap tail e)) in
    (cc (ap (λ s. front (tail s)) e, f), g)

abbrev toy : Codec
toy = record {
  json_str = quote;
  sha = λ s. str "7b";
  print_record = λ r. str "rec";
  parse_record = λ s. parsed first;
}

abbrev empty : Ledger
empty = record { file = []; head = genesis; next_seq = 0 }

abbrev one : Ledger
one = record { file = str "rec\n"; head = str "7b"; next_seq = 1 }

append_run : append toy empty 7 entry ≡ (first, one)
unfolding append
append_run = refl

first-HasLine : HasLine toy first
unfolding is_blank
first-HasLine = (
  refl,
  refl,
  (omega arith, (omega arith, (omega arith, tt))),
  (omega arith, (omega arith, (omega arith, tt))),
)

empty-IsValid : IsValid toy empty
unfolding lines
empty-IsValid = ([], refl, tt, refl, refl, refl, tt, omega arith)

append-IsValid_example : IsValid toy (append toy empty 7 entry).1
unfolding append
append-IsValid_example = append-IsValid toy empty 7 entry empty-IsValid (omega arith) first-HasLine

one-IsValid : IsValid toy one
unfolding append
one-IsValid = append-IsValid toy empty 7 entry empty-IsValid (omega arith) first-HasLine

open_ledger-IsValid_example : open_ledger toy (some (str "rec\n")) ≡ ok one
open_ledger-IsValid_example = open_ledger-IsValid toy one one-IsValid

opened : open_ledger toy none ≡ ok empty
unfolding open_ledger lines each_record
opened = refl

one-Wrote : Wrote toy (first ∷ []) one
unfolding append
one-Wrote = appended [] empty 7 entry (created empty opened)

read_all-Wrote_example :
    (read_all toy (some (str "rec\n")) ≡ ok (first ∷ []))
    × (verify toy (str "rec\n")
        ≡ ok record { records = 1; head = str "7b"; broken_at = none; ambiguous = [] })
read_all-Wrote_example =
    read_all-Wrote toy (first ∷ []) one one-Wrote (first-HasLine, tt) (omega arith)

spaced_run : read_all toy (some (str "\nrec\n")) ≡ ok (first ∷ [])
unfolding read_all lines each_record is_blank
spaced_run = refl

verify_against_iff_example :
    (report : VerifyReport) × (verify_against toy (str "\nrec\n") (str "7b") 2 ≡ ok report)
    × ((report.broken_at ≡ none) ↔ (
        Chain toy genesis 0 (first ∷ [])
        × (length (first ∷ []) ≡ 2)
        × (tip genesis (first ∷ []) ≡ str "7b")))
    × (report.ambiguous ≡ marked_seqs (first ∷ []))
verify_against_iff_example =
    verify_against_iff toy (str "\nrec\n") (str "7b") 2 (first ∷ []) spaced_run (omega arith)

abbrev sealed : VerifyReport
sealed = record { records = 1; head = str "7b"; broken_at = none; ambiguous = [] }

sha_clear : (t : Str) → Free us (toy.sha t)
sha_clear t = (omega arith, (omega arith, tt))

deny_clear : Free us (str "deny")
deny_clear = (omega arith, (omega arith, (omega arith, (omega arith, tt))))

one_run : read_all toy (some (str "rec\n")) ≡ ok (first ∷ [])
unfolding read_all lines each_record is_blank
one_run = refl

sealed_run : verify_against toy (str "rec\n") (str "7b") 1 ≡ ok sealed
unfolding verify_against verify verify_marked lines each_record is_blank
sealed_run = refl

spaced_sealed : verify_against toy (str "\nrec\n") (str "7b") 1 ≡ ok sealed
unfolding verify_against verify verify_marked lines each_record is_blank
spaced_sealed = refl

literal : IsLiteral quote
literal = record {
  quoted = λ a. (marked a, refl);
  ends = λ a b x y e. marked-ends a b x y (ap tail e);
}

verify_against-Same_example : Same (first ∷ []) (first ∷ []) ⊎ Collision toy
verify_against-Same_example =
    verify_against-Same toy literal sha_clear (str "rec\n") (str "\nrec\n") (str "7b") 1
      (first ∷ []) (first ∷ []) (refl, tt) (refl, tt)
      (one_run, omega arith, (deny_clear, tt), (sealed, sealed_run, refl, refl))
      (spaced_run, omega arith, (deny_clear, tt), (sealed, spaced_sealed, refl, refl))
