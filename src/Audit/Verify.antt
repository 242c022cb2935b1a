-- ===== src/Audit/Verify.antt =====
-- The offline verification of a ledger's file: `VerifyReport`, `verify_marked`, `verify` and
-- `verify_against` of crates/mcpdef-audit/src/lib.rs.
pub mod Laws
use mcpdef.Prelude.{
  ℕ, ◌+◌, List, [], ◌∷◌, ◌++◌, Option, none, some, Bool, true, false, not, ◌&&◌, ◌||◌, ◌==◌, ltb,
  min, if◌then◌else◌,
}
use mcpdef.Str.{Str, str_eq, is_some}
use mcpdef.Audit.{Record, Codec, genesis, Audited, ok, failed}
use mcpdef.Audit.Hash.{compute_hash, has_separator}
use mcpdef.Audit.Lines.{lines, each_record}
use mcpdef.Audit.Store.{two_64, add_one}

pub record VerifyReport : Type 0 where
  pub records : ℕ
  pub head : Str
  pub broken_at : Option ℕ
  pub ambiguous : List ℕ

-- The loop's variables.
pub record Checked : Type 0 where
  pub marked : Option Str
  pub prev : Str
  pub expected_seq : ℕ
  pub records : ℕ
  pub head : Str
  pub broken_at : Option ℕ
  pub ambiguous : List ℕ

-- `if … && x.is_none() { x = Some(v) }`.
abbrev pub set_first {ℓ} : {A : Type ℓ} → Bool → A → Option A → Option A
set_first b v (some w) = some w
set_first b v none = if b then some v else none

-- `mark == Some(seq)`.
abbrev pub is_mark : Option ℕ → ℕ → Bool
is_mark none seq = false
is_mark (some m) seq = m == seq

abbrev pub is_last_seq : ℕ → Bool
is_last_seq seq = not (ltb (seq + 1) two_64)

abbrev pub start : Checked
start = record {
  marked = none;
  prev = genesis;
  expected_seq = 0;
  records = 0;
  head = genesis;
  broken_at = none;
  ambiguous = [];
}

abbrev pub report_of : Checked → VerifyReport × Option Str
report_of s = (
  record { records = s.records; head = s.head; broken_at = s.broken_at; ambiguous = s.ambiguous },
  s.marked,
)

abbrev pub mapped {ℓ κ} : {A : Type ℓ} {B : Type κ} → (A → B) → Audited A → Audited B
mapped f (ok a) = ok (f a)
mapped f (failed e) = failed e

abbrev pub opened : VerifyReport → Option ℕ → VerifyReport
opened r at = record r { broken_at = at }

-- A report that found no break is held against the seal.
abbrev pub against_seal : Str → ℕ → VerifyReport → VerifyReport
against_seal head count r =
    if not (is_some r.broken_at) && (not (r.records == count) || not (str_eq r.head head))
    then opened r (some (min r.records count))
    else r

module _ (codec : Codec) where
  -- A record that recomputes, links to the one before and has the next number.
  unfoldable pub intact : Checked → Record → Bool
  unfolding compute_hash str_eq
  intact s r =
      str_eq (compute_hash codec.json_str codec.sha r) r.hash
      && str_eq r.prev_hash s.prev
      && r.seq == s.expected_seq

  -- The loop's body. At the last `u64` the expected number stays and the record is a break.
  unfoldable pub check_record : Option ℕ → Checked → Record → Checked
  unfolding intact has_separator
  check_record mark s r = record {
    marked = set_first (is_mark mark r.seq) r.hash s.marked;
    prev = r.hash;
    expected_seq = if is_last_seq r.seq then r.seq else r.seq + 1;
    records = add_one s.records;
    head = r.hash;
    broken_at =
        set_first (is_last_seq r.seq) r.seq (set_first (not (intact s r)) r.seq s.broken_at);
    ambiguous = if has_separator r then s.ambiguous ++ (r.seq ∷ []) else s.ambiguous;
  }

  unfoldable pub verify_marked : Str → Option ℕ → Audited (VerifyReport × Option Str)
  unfolding lines each_record check_record
  verify_marked file mark =
      mapped report_of
        (each_record codec.parse_record (check_record mark) (λ s. s.records) (lines file) start)

  unfoldable pub verify : Str → Audited VerifyReport
  unfolding verify_marked
  verify file = mapped (λ (report, marked). report) (verify_marked file none)

  unfoldable pub verify_against : Str → Str → ℕ → Audited VerifyReport
  unfolding verify str_eq
  verify_against file head count = mapped (against_seal head count) (verify file)
