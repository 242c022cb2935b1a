-- ===== src/Audit/Store/Steps.antt =====
-- The ledger as an append-only list of records: any sequence of openings and appends.
use mcpdef.Prelude.{
  ℕ, ◌<◌, List, [], ◌∷◌, ◌++◌, none, some, ◌≡◌, refl, sym, ◌∙◌, subst, arith, All, append-All,
  length, length-append,
}
use mcpdef.Audit.{Record, Entry, Codec, ok, genesis}
use mcpdef.Audit.Lines.{lines, each_record}
use mcpdef.Audit.Store.{Ledger, two_64, add_one, open_ledger, append, read_all}
use mcpdef.Audit.Store.Laws.{HasLine, IsValid, append-IsValid}
use mcpdef.Audit.Store.Resume.{read_all-append, open_ledger-IsValid, verify-IsValid}
use mcpdef.Audit.Verify.{verify}

-- The records that a run appended, and the ledger after it.
pub data Wrote (codec : Codec) : List Record → Ledger → Type 0 where
  created : (l : Ledger) → open_ledger codec none ≡ ok l → Wrote codec [] l
  appended :
      (rs : List Record) (l : Ledger) (now : ℕ) (e : Entry)
      → Wrote codec rs l
      → Wrote codec (rs ++ ((append codec l now e).0 ∷ [])) (append codec l now e).1
  reopened :
      (rs : List Record) (l m : Ledger)
      → Wrote codec rs l
      → open_ledger codec (some l.file) ≡ ok m
      → Wrote codec rs m

ok-injective {ℓ} : {A : Type ℓ} {a b : A} → ok a ≡ ok b → a ≡ b
ok-injective h = cc h

abbrev empty_ledger : Ledger
empty_ledger = record { file = []; head = genesis; next_seq = 0 }

module _ (codec : Codec) where
  opened-none : (l : Ledger) → open_ledger codec none ≡ ok l → empty_ledger ≡ l
  unfolding open_ledger lines each_record
  opened-none l h = ok-injective h

  empty-IsValid : IsValid codec empty_ledger
  unfolding lines
  empty-IsValid = ([], refl, tt, refl, refl, refl, tt, omega arith)

  read_all-empty : read_all codec (some []) ≡ ok []
  unfolding read_all lines each_record
  read_all-empty = refl

  Holds : List Record → Ledger → Type 0
  Holds rs l = IsValid codec l × (read_all codec (some l.file) ≡ ok rs) × (l.next_seq ≡ length rs)

  append-next_seq :
      (l : Ledger) (now : ℕ) (e : Entry) → (append codec l now e).1.next_seq ≡ add_one l.next_seq
  unfolding append
  append-next_seq l now e = refl

  Wrote-Holds :
      (rs : List Record) (l : Ledger)
      → Wrote codec rs l
      → All (HasLine codec) rs
      → length rs < two_64
      → Holds rs l
  unfolding Holds
  Wrote-Holds _ _ (created l h) lines small =
      subst (Holds []) (opened-none l h) (empty-IsValid, read_all-empty, refl)
  Wrote-Holds _ _ (appended rs l now e w) lines small =
      let rec = (append codec l now e).0 in
      let (before, line) = append-All (HasLine codec) rs (rec ∷ []) lines in
      let grown = length-append rs (rec ∷ []) in
      let (valid, read, count) = Wrote-Holds rs l w before (omega arith) in
      (
        append-IsValid codec l now e valid (omega arith) line.0,
        read_all-append codec l now e rs valid.6 line.0 read,
        omega (arith, append-next_seq l now e),
      )
  Wrote-Holds _ _ (reopened rs l m w h) lines small =
      let (valid, read, count) = Wrote-Holds rs l w lines small in
      subst (Holds rs) (ok-injective (sym (open_ledger-IsValid codec l valid) ∙ h))
        (valid, read, count)

  -- Whatever sequence of openings and appends led to a ledger, its file holds the records that were
  -- appended, in order, and it verifies without a break, with the ledger's count and head in the
  -- report: if there are fewer than 2^64 records and each one's line reads back as the record.
  pub read_all-Wrote :
      (rs : List Record) (l : Ledger)
      → Wrote codec rs l
      → All (HasLine codec) rs
      → length rs < two_64
      → (read_all codec (some l.file) ≡ ok rs)
        × (verify codec l.file
            ≡ ok record { records = l.next_seq; head = l.head; broken_at = none; ambiguous = [] })
  unfolding Holds
  read_all-Wrote rs l w lines small =
      let (valid, read, count) = Wrote-Holds rs l w lines small in
      (read, verify-IsValid codec l valid)
