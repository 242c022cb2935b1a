-- ===== src/Audit/Verify/Laws.antt =====
-- What the verification of a ledger's file reports: the chain of its records, or the first break.
use mcpdef.Prelude.{
  ℕ, ◌+◌, ◌<◌, List, [], ◌∷◌, ◌++◌, Option, none, some, true, false, ◌≡◌, ◌↔◌, ◌⊎◌, inl, inr, refl,
  sym, ap, ◌∙◌, subst, length, Bool-cases, arith, if◌then◌else◌, append-nil, append_assoc,
}
use mcpdef.Str.{Str}
use mcpdef.Str.Laws.{str_eq_iff}
use mcpdef.Audit.{Record, Codec, genesis, ok}
use mcpdef.Audit.Hash.{compute_hash, has_separator}
use mcpdef.Audit.Lines.{lines}
use mcpdef.Audit.Lines.Laws.{fold, Reads, each_record-Reads}
use mcpdef.Audit.Store.{two_64}
use mcpdef.Audit.Verify.{
  VerifyReport, Checked, is_last_seq, start, report_of, intact, check_record, verify_marked, verify,
}

-- The hash that the next record must name.
abbrev pub tip : Str → List Record → Str
tip prev [] = prev
tip prev (r ∷ rs) = tip r.hash rs

-- The numbers of the records whose fields hold the separator.
abbrev pub marked_seqs : List Record → List ℕ
marked_seqs [] = []
marked_seqs (r ∷ rs) = let rest = marked_seqs rs in if has_separator r then r.seq ∷ rest else rest

module _ (codec : Codec) where
  -- A record's hash is its own, and it follows the record before.
  abbrev pub IsLinked : Str → ℕ → Record → Type 0
  IsLinked prev seq r =
      (compute_hash codec.json_str codec.sha r ≡ r.hash)
      × (r.prev_hash ≡ prev)
      × (r.seq ≡ seq)
      × (r.seq + 1 < two_64)

  abbrev pub Chain : Str → ℕ → List Record → Type 0
  Chain prev seq [] = Unit
  Chain prev seq (r ∷ rs) = IsLinked prev seq r × Chain r.hash (seq + 1) rs

  intact_iff :
      (s : Checked) (r : Record)
      → (intact codec s r ≡ true) ↔ (
          (compute_hash codec.json_str codec.sha r ≡ r.hash)
          × (r.prev_hash ≡ s.prev)
          × (r.seq ≡ s.expected_seq))
  unfolding intact
  intact_iff s r = ground (
    arith,
    str_eq_iff (compute_hash codec.json_str codec.sha r) r.hash,
    str_eq_iff r.prev_hash s.prev,
  )

  IsLinked-cases :
      (s : Checked) (r : Record)
      → (IsLinked s.prev s.expected_seq r × (intact codec s r ≡ true) × (is_last_seq r.seq ≡ false))
        ⊎ ((¬ IsLinked s.prev s.expected_seq r)
            × ((is_last_seq r.seq ≡ true) ⊎ (intact codec s r ≡ false)))
  IsLinked-cases s r = ground (arith, intact_iff s r)

  -- The first record that does not follow the one before, by its number; none where all do.
  abbrev pub Verdict : Str → ℕ → List Record → Option ℕ → Type 0
  Verdict prev seq rs none = Chain prev seq rs
  Verdict prev seq rs (some n) =
      (before : List Record) × (r : Record) × (after : List Record) × (rs ≡ before ++ (r ∷ after))
      × Chain prev seq before
      × (¬ IsLinked (tip prev before) (seq + length before) r)
      × (n ≡ r.seq)

  Chain-at :
      (prev : Str) (seq : ℕ) (a : List Record) (r : Record) (b : List Record)
      → Chain prev seq (a ++ (r ∷ b))
      → IsLinked (tip prev a) (seq + length a) r
  Chain-at prev seq [] r b (h, t) = subst (λ m. IsLinked prev m r) (omega arith) h
  Chain-at prev seq (q ∷ a) r b (h, t) =
      subst (λ m. IsLinked (tip q.hash a) m r) (omega arith) (Chain-at q.hash (seq + 1) a r b t)

  -- A chain has no break.
  pub Verdict-Chain :
      (prev : Str) (seq : ℕ) (rs : List Record) (at : Option ℕ)
      → Verdict prev seq rs at
      → Chain prev seq rs
      → at ≡ none
  Verdict-Chain prev seq rs none v h = refl
  Verdict-Chain prev seq rs (some n) (a, r, b, e, chain, broken, same) h =
      absurd (broken (Chain-at prev seq a r b (subst (Chain prev seq) e h)))

  Verdict-cons :
      (prev : Str) (seq : ℕ) (r : Record) (rs : List Record) (at : Option ℕ)
      → IsLinked prev seq r
      → Verdict r.hash (seq + 1) rs at
      → Verdict prev seq (r ∷ rs) at
  Verdict-cons prev seq r rs none h k = (h, k)
  Verdict-cons prev seq r rs (some n) h (a, q, b, e, chain, broken, same) = (
    r ∷ a,
    q,
    b,
    ap (λ x. r ∷ x) e,
    (h, chain),
    subst (λ m. ¬ IsLinked (tip r.hash a) m q) (omega arith) broken,
    same,
  )

  module _ (mark : Option ℕ) where
    fold-broken :
        (s : Checked) (rs : List Record) (n : ℕ)
        → s.broken_at ≡ some n
        → (fold (check_record codec mark) s rs).broken_at ≡ some n
    unfolding check_record
    fold-broken s [] n e = e
    fold-broken s (r ∷ rs) n e = fold-broken (check_record codec mark s r) rs n (rw e refl)

    check-broken :
        (s : Checked) (r : Record)
        → s.broken_at ≡ none
        → (is_last_seq r.seq ≡ true) ⊎ (intact codec s r ≡ false)
        → (check_record codec mark s r).broken_at ≡ some r.seq
    unfolding check_record
    check-broken s r e (inl last) = elim (Bool-cases (intact codec s r)) [
      | inl whole ↦ rw (e, last, whole) refl
      | inr torn ↦ rw (e, torn) refl
    ]
    check-broken s r e (inr torn) = rw (e, torn) refl

    check-next :
        (s : Checked) (r : Record)
        → is_last_seq r.seq ≡ false
        → r.seq ≡ s.expected_seq
        → (check_record codec mark s r).expected_seq ≡ s.expected_seq + 1
    unfolding check_record
    check-next s r more e = rw more (omega arith)

    fold-Verdict :
        (s : Checked) (rs : List Record)
        → s.broken_at ≡ none
        → Verdict s.prev s.expected_seq rs (fold (check_record codec mark) s rs).broken_at
    unfolding check_record
    fold-Verdict s [] e = rw e tt
    fold-Verdict s (r ∷ rs) e = elim (IsLinked-cases s r) [
      | inl (linked, whole, more) ↦ Verdict-cons s.prev s.expected_seq r rs _ linked (
          subst
            (λ m.
              Verdict r.hash m rs
                (fold (check_record codec mark) (check_record codec mark s r) rs).broken_at)
            (check-next s r more linked.2)
            (fold-Verdict (check_record codec mark s r) rs (rw (e, whole, more) refl)))
      | inr (loose, why) ↦
          rw (fold-broken (check_record codec mark s r) rs r.seq (check-broken s r e why))
            ([], r, rs, refl, tt, subst (λ m. ¬ IsLinked s.prev m r) (omega arith) loose, refl)
    ]

    fold-tip :
        (s : Checked) (rs : List Record)
        → s.head ≡ s.prev
        → (fold (check_record codec mark) s rs).head ≡ tip s.prev rs
    unfolding check_record
    fold-tip s [] e = e
    fold-tip s (r ∷ rs) e = fold-tip (check_record codec mark s r) rs refl

    fold-records :
        (s : Checked) (rs : List Record)
        → s.records + length rs < two_64
        → (fold (check_record codec mark) s rs).records ≡ s.records + length rs
    unfolding check_record
    fold-records s [] h = omega arith
    fold-records s (r ∷ rs) h =
        omega (arith, fold-records (check_record codec mark s r) rs (omega arith))

    fold-ambiguous :
        (s : Checked) (rs : List Record)
        → (fold (check_record codec mark) s rs).ambiguous ≡ s.ambiguous ++ marked_seqs rs
    unfolding check_record
    fold-ambiguous s [] = sym (append-nil s.ambiguous)
    fold-ambiguous s (r ∷ rs) = elim (Bool-cases (has_separator r)) [
      | inl e ↦ rw e (
          fold-ambiguous (check_record codec mark s r) rs
          ∙ (rw e (append_assoc s.ambiguous (r.seq ∷ []) (marked_seqs rs))))
      | inr e ↦ rw e (fold-ambiguous (check_record codec mark s r) rs ∙ (rw e refl))
    ]

  -- The report on records, in order: their count, the last one's hash, the first break and the
  -- records whose fields hold the separator.
  abbrev pub Reports : List Record → VerifyReport → Type 0
  Reports rs report =
      (report.records ≡ length rs)
      × (report.head ≡ tip genesis rs)
      × Verdict genesis 0 rs report.broken_at
      × (report.ambiguous ≡ marked_seqs rs)

  -- A file of records, blank lines among them, is verified: the report counts the records, names
  -- the last one's hash and those whose fields hold the separator, and finds a break just where the
  -- records are no chain from the anchor, the first one then.
  pub verify-Reports :
      (file : Str) (rs : List Record)
      → Reads codec.parse_record (lines file) rs
      → length rs < two_64
      → (report : VerifyReport) × (verify codec file ≡ ok report) × Reports rs report
  unfolding verify verify_marked
  verify-Reports file rs h small =
      let end : Checked = fold (check_record codec none) start rs in
      (
        (report_of end).0,
        rw
            (each_record-Reads codec.parse_record (check_record codec none) (λ s. s.records)
              (lines file) rs start h)
            refl,
        (
          omega (arith, fold-records none start rs (omega arith)),
          fold-tip none start rs refl,
          fold-Verdict none start rs refl,
          fold-ambiguous none start rs,
        ),
      )
