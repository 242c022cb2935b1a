-- ===== src/Audit/Store/Laws.antt =====
-- What the ledger's operations keep: a chain of records in a file of whole lines, whose head and
-- length the ledger holds.
use mathlib.Core.Option
use mcpdef.Prelude.{
  ℕ, ◌+◌, ◌<◌, List, [], ◌∷◌, ◌++◌, Option, none, some, false, ◌≡◌, inl, inr, refl, sym, ap, subst,
  ◌∙◌, length, length-append, Bool-cases, arith,
}
use mcpdef.Str.{Str}
use mcpdef.Str.Laws.{Free}
use mcpdef.Audit.{Record, Entry, Codec, genesis, parsed}
use mcpdef.Audit.Hash.{
  us, unwrap_or_empty, later_map, later_members, hashed_text, compute_hash, has_separator,
  without_separator,
}
use mcpdef.Audit.Hash.Laws.{has_separator_iff, without_separator-Free}
use mcpdef.Audit.Lines.{lines, is_blank}
use mcpdef.Audit.Lines.Laws.{
  Reads, Reads-append, lines-append, lines-line, IsTerminated, IsTerminated-append,
}
use mcpdef.Audit.Store.{Ledger, two_64, decided_rule, unhashed, append}
use mcpdef.Audit.Verify.Laws.{tip, marked_seqs, IsLinked, Chain}

tip-append : (prev : Str) (rs : List Record) (r : Record) → tip prev (rs ++ (r ∷ [])) ≡ r.hash
tip-append prev [] r = refl
tip-append prev (q ∷ rs) r = tip-append q.hash rs r

marked_seqs-append :
    (rs : List Record) (r : Record)
    → marked_seqs rs ≡ []
    → has_separator r ≡ false
    → marked_seqs (rs ++ (r ∷ [])) ≡ []
marked_seqs-append [] r h k = rw k refl
marked_seqs-append (q ∷ rs) r h k = elim (Bool-cases (has_separator q)) [
  | inl e ↦ cc (rw e at h)
  | inr e ↦ rw e (marked_seqs-append rs r (rw e at h) k)
]

stored-Free : (o : Option Str) → Free us (unwrap_or_empty (Option.map without_separator o))
stored-Free none = tt
stored-Free (some s) = without_separator-Free s

module _ (codec : Codec) where
  Chain-append :
      (prev : Str) (seq : ℕ) (rs : List Record) (r : Record)
      → Chain codec prev seq rs
      → IsLinked codec (tip prev rs) (seq + length rs) r
      → Chain codec prev seq (rs ++ (r ∷ []))
  Chain-append prev seq [] r h k = (subst (λ n. IsLinked codec prev n r) (omega arith) k, tt)
  Chain-append prev seq (q ∷ rs) r (h, t) k = (
    h,
    Chain-append q.hash (seq + 1) rs r t
        (subst (λ n. IsLinked codec (tip q.hash rs) n r) (omega arith) k),
  )

  -- The record's line is one line, is not blank and is read as the record.
  abbrev pub HasLine : Record → Type 0
  HasLine r =
      (codec.parse_record (codec.print_record r) ≡ parsed r)
      × (is_blank (codec.print_record r) ≡ false)
      × Free 10 (codec.print_record r)
      × Free 13 (codec.print_record r)

  -- The ledger's file is whole lines of a chain of records, none with the separator in a field, and
  -- the ledger holds the last one's hash and their count.
  abbrev pub IsValid : Ledger → Type 0
  IsValid l =
      (rs : List Record) × Reads codec.parse_record (lines l.file) rs
      × Chain codec genesis 0 rs
      × (l.head ≡ tip genesis rs)
      × (l.next_seq ≡ length rs)
      × (marked_seqs rs ≡ [])
      × IsTerminated l.file
      × (length rs < two_64)

  pub append-lines :
      (l : Ledger) (now : ℕ) (e : Entry) (rs : List Record)
      → IsTerminated l.file
      → HasLine (append codec l now e).0
      → Reads codec.parse_record (lines l.file) rs
      → Reads codec.parse_record
          (lines (append codec l now e).1.file)
          (rs ++ ((append codec l now e).0 ∷ []))
  unfolding append
  append-lines l now e rs whole (p, b, n, c) h =
      let rec = (append codec l now e).0 in
      let line = codec.print_record rec in
      subst (λ ls. Reads codec.parse_record ls (rs ++ (rec ∷ [])))
        (sym (
          lines-append l.file (line ++ (10 ∷ [])) whole
          ∙ ap (λ ls. lines l.file ++ ls) (lines-line line n c)))
        (Reads-append codec.parse_record (lines l.file) (line ∷ []) rs (rec ∷ []) h
          (inr (rec, [], b, p, refl, refl)))

  append-IsLinked :
      (l : Ledger) (now : ℕ) (e : Entry)
      → l.next_seq + 1 < two_64
      → IsLinked codec l.head l.next_seq (append codec l now e).0
  unfolding append compute_hash hashed_text later_members later_map unhashed
  append-IsLinked l now e small = (refl, refl, refl, small)

  append-has_separator :
      (l : Ledger) (now : ℕ) (e : Entry) → has_separator (append codec l now e).0 ≡ false
  unfolding append unhashed
  append-has_separator l now e = (has_separator_iff (append codec l now e).0).1 (
    without_separator-Free e.agent,
    without_separator-Free e.server,
    stored-Free e.method,
    stored-Free e.tool,
    stored-Free (decided_rule e.decision e.attrs.rule),
  )

  -- Appending an entry to a valid ledger leaves a valid one, if its number is below 2^64 - 1 and the
  -- record's line is one that reads back as the record.
  pub append-IsValid :
      (l : Ledger) (now : ℕ) (e : Entry)
      → IsValid l
      → l.next_seq + 1 < two_64
      → HasLine (append codec l now e).0
      → IsValid (append codec l now e).1
  unfolding append
  append-IsValid l now e (rs, reads, chain, head, count, clear, whole, bound) small line =
      let rec = (append codec l now e).0 in
      (
        rs ++ (rec ∷ []),
        append-lines l now e rs whole line reads,
        Chain-append genesis 0 rs rec chain (refl, head, omega arith, small),
        sym (tip-append genesis rs rec),
        omega (arith, length-append rs (rec ∷ [])),
        marked_seqs-append rs rec clear (append-has_separator l now e),
        IsTerminated-append l.file (codec.print_record rec),
        omega (arith, length-append rs (rec ∷ [])),
      )
