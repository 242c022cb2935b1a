-- ===== src/Audit/Store/Resume.antt =====
-- What is read from a valid ledger's file: its records, the ledger itself when it is opened again,
-- and a report without a break.
use mcpdef.Prelude.{
  ℕ, ◌+◌, ◌<◌, List, [], ◌∷◌, ◌++◌, none, some, ◌≡◌, sym, ap, ◌∙◌, length, append-nil, append_assoc,
  arith, subst,
}
use mcpdef.Str.{Str}
use mcpdef.Audit.{Record, Entry, Codec, genesis, ok}
use mcpdef.Audit.Lines.{lines}
use mcpdef.Audit.Lines.Laws.{fold, Reads, each_record-Reads, each_record-ok, IsTerminated}
use mcpdef.Audit.Store.{Ledger, two_64, resume, open_ledger, append, read_all}
use mcpdef.Audit.Store.Laws.{HasLine, IsValid, append-lines}
use mcpdef.Audit.Verify.{verify}
use mcpdef.Audit.Verify.Laws.{tip, verify-Reports, Verdict-Chain}

ok-injective {ℓ} : {A : Type ℓ} {a b : A} → ok a ≡ ok b → a ≡ b
ok-injective h = cc h

fold-snoc : (out rs : List Record) → fold (λ out r. out ++ (r ∷ [])) out rs ≡ out ++ rs
fold-snoc out [] = sym (append-nil out)
fold-snoc out (r ∷ rs) = fold-snoc (out ++ (r ∷ [])) rs ∙ append_assoc out (r ∷ []) rs

module _ (codec : Codec) where
  -- `read_all` gives the records that the lines hold.
  pub read_all-Reads :
      (file : Str) (rs : List Record)
      → Reads codec.parse_record (lines file) rs
      → read_all codec (some file) ≡ ok rs
  unfolding read_all
  read_all-Reads file rs h =
      each_record-Reads codec.parse_record _ _ (lines file) rs [] h ∙ ap ok (fold-snoc [] rs)

  pub Reads-read_all :
      (file : Str) (rs : List Record)
      → read_all codec (some file) ≡ ok rs
      → Reads codec.parse_record (lines file) rs
  unfolding read_all
  Reads-read_all file rs h =
      let (qs, reads) = each_record-ok codec.parse_record _ _ (lines file) [] rs h in
      subst (Reads codec.parse_record (lines file))
        (ok-injective (sym (read_all-Reads file qs reads) ∙ h)) reads

  -- What `append` writes is read after what the file held, and is the record it returns.
  pub read_all-append :
      (l : Ledger) (now : ℕ) (e : Entry) (rs : List Record)
      → IsTerminated l.file
      → HasLine codec (append codec l now e).0
      → read_all codec (some l.file) ≡ ok rs
      → read_all codec (some (append codec l now e).1.file)
        ≡ ok (rs ++ ((append codec l now e).0 ∷ []))
  read_all-append l now e rs whole line h =
      read_all-Reads (append codec l now e).1.file (rs ++ ((append codec l now e).0 ∷ []))
        (append-lines codec l now e rs whole line (Reads-read_all l.file rs h))

  fold-resume :
      (s : Str × ℕ) (rs : List Record)
      → s.1 + length rs < two_64
      → fold resume s rs ≡ (tip s.0 rs, s.1 + length rs)
  fold-resume s [] h = ap (λ n. (s.0, n)) (omega arith)
  fold-resume s (r ∷ rs) h =
      fold-resume (resume s r) rs (omega arith) ∙ ap (λ n. (tip r.hash rs, n)) (omega arith)

  -- A ledger opened again on a valid ledger's file is that ledger.
  pub open_ledger-IsValid : (l : Ledger) → IsValid codec l → open_ledger codec (some l.file) ≡ ok l
  unfolding open_ledger
  open_ledger-IsValid l (rs, reads, chain, head, count, clear, whole, bound) =
      let later : (0 + length rs) ≡ l.next_seq = omega arith in
      rw
        (
          each_record-Reads codec.parse_record resume (λ s. s.1) (lines l.file) rs (genesis, 0)
              reads,
          fold-resume (genesis, 0) rs (omega arith),
        )
        (λ i. ok record { file = l.file; head = sym head i; next_seq = later i })

  -- A valid ledger's file verifies: no break, none of its records has the separator in a field, and
  -- the report's count and head are the ledger's.
  pub verify-IsValid :
      (l : Ledger)
      → IsValid codec l
      → verify codec l.file
        ≡ ok record { records = l.next_seq; head = l.head; broken_at = none; ambiguous = [] }
  verify-IsValid l (rs, reads, chain, head, count, clear, whole, bound) =
      let (report, e, (records, tail, verdict, marked)) =
        verify-Reports codec l.file rs reads bound in
      let at = Verdict-Chain codec genesis 0 rs report.broken_at verdict chain in
      e
      ∙ ap ok λ i. record {
        records = (records ∙ sym count) i;
        head = (tail ∙ sym head) i;
        broken_at = at i;
        ambiguous = (marked ∙ clear) i;
      }
