-- ===== src/Audit/Tamper.antt =====
-- Tamper evidence: what a ledger's file that still matches a sealed head and count may hold.
pub mod Written
use mcpdef.Prelude.{
  ℕ, zero, suc, ◌+◌, ◌<◌, List, [], ◌∷◌, none, some, false, ◌≡◌, ◌≢◌, ◌↔◌, ◌⊎◌, inl, inr, refl, sym,
  ap, ◌∙◌, subst, length, All, if_cases, eq-false_iff, Bool-cases, Option-cases, arith, replicate,
}
use mcpdef.Str.{Str, str_eq}
use mcpdef.Str.Laws.{str_eq_iff, Free}
use mcpdef.Audit.{Record, Codec, genesis, ok}
use mcpdef.Audit.Hash.{us, compute_hash, hashed_text, has_separator}
use mcpdef.Audit.Hash.Laws.{IsClear, SameFields, hashed_text-SameFields}
use mcpdef.Audit.Store.{two_64, read_all}
use mcpdef.Audit.Store.Resume.{Reads-read_all}
use mcpdef.Audit.Verify.{VerifyReport, against_seal, verify_against}
use mcpdef.Audit.Verify.Laws.{tip, marked_seqs, Chain, Verdict, Verdict-Chain, verify-Reports}

ok-injective {ℓ} : {A : Type ℓ} {a b : A} → ok a ≡ ok b → a ≡ b
ok-injective h = cc h

zeros-Free : (n : ℕ) → Free us (replicate n b'0')
zeros-Free zero = tt
zeros-Free (suc n) = (omega arith, zeros-Free n)

genesis_clear : Free us genesis
genesis_clear = zeros-Free 64

module _ (codec : Codec) where
  -- Two texts with one hash.
  abbrev pub Collision : Type 0
  Collision = (a : Str) × (b : Str) × (a ≢ b) × (codec.sha a ≡ codec.sha b)

  -- As many records, which agree one by one as the hash encodes them, and in their hashes.
  abbrev pub SameRecords : List Record → List Record → Type 0
  SameRecords [] [] = Unit
  SameRecords [] (s ∷ ss) = ⊥
  SameRecords (r ∷ rs) [] = ⊥
  SameRecords (r ∷ rs) (s ∷ ss) =
      SameFields codec.json_str r s × (r.hash ≡ s.hash) × SameRecords rs ss

  same_hash :
      (r s : Record)
      → IsClear r
      → IsClear s
      → compute_hash codec.json_str codec.sha r ≡ compute_hash codec.json_str codec.sha s
      → Collision ⊎ SameFields codec.json_str r s
  unfolding compute_hash
  same_hash r s h k e =
      elim (Bool-cases (str_eq (hashed_text codec.json_str r) (hashed_text codec.json_str s))) [
        | inl same ↦ inr (hashed_text-SameFields codec.json_str r s h k ((str_eq_iff _ _).0 same))
        | inr apart ↦ inl (
          hashed_text codec.json_str r,
          hashed_text codec.json_str s,
          (eq-false_iff _ (str_eq_iff _ _)).0 apart,
          e,
        )
      ]

  -- Neither a name, nor the rule, nor the decision holds the separator.
  abbrev pub Plain : Record → Type 0
  Plain r = (has_separator r ≡ false) × Free us r.decision

  module _ (sha_clear : (t : Str) → Free us (codec.sha t)) where
    chains_agree :
        (prev prev' : Str) (seq seq' : ℕ) (rs ss : List Record)
        → Chain codec prev seq rs
        → Chain codec prev' seq' ss
        → All Plain rs
        → All Plain ss
        → Free us prev
        → Free us prev'
        → length rs ≡ length ss
        → tip prev rs ≡ tip prev' ss
        → Collision ⊎ ((prev ≡ prev') × SameRecords rs ss)
    unfolding compute_hash
    chains_agree prev prev' seq seq' [] [] c d p q f g len e = inr (e, tt)
    chains_agree prev prev' seq seq' [] (s ∷ ss) c d p q f g len e = absurd (omega arith)
    chains_agree prev prev' seq seq' (r ∷ rs) [] c d p q f g len e = absurd (omega arith)
    chains_agree prev prev' seq seq' (r ∷ rs) (s ∷ ss) (c, cs) (d, ds) (p, ps) (q, qs) f g len e =
        elim (chains_agree r.hash s.hash (seq + 1) (seq' + 1) rs ss cs ds ps qs
          (subst (Free us) c.0 (sha_clear (hashed_text codec.json_str r)))
          (subst (Free us) d.0 (sha_clear (hashed_text codec.json_str s))) (omega arith) e) [
            | inl found ↦ inl found
            | inr (same, rest) ↦
                elim (same_hash r s (p.0, p.1, subst (Free us) (sym c.1) f)
                  (q.0, q.1, subst (Free us) (sym d.1) g) (c.0 ∙ same ∙ sym d.0)) [
                    | inl found ↦ inl found
                    | inr fields ↦ inr (sym c.1 ∙ fields.9 ∙ d.1, (fields, same, rest))
                  ]
          ]

  sealed_iff :
      (head : Str) (count : ℕ) (r : VerifyReport)
      → ((against_seal head count r).broken_at ≡ none)
        ↔ ((r.broken_at ≡ none) × (r.records ≡ count) × (r.head ≡ head))
  sealed_iff head count r = elim (Option-cases r.broken_at) [
    | inl e ↦ rw e (ground (arith, str_eq_iff r.head head))
    | inr (n, e) ↦ rw e (ground arith)
  ]

  sealed-ambiguous :
      (head : Str) (count : ℕ) (r : VerifyReport)
      → (against_seal head count r).ambiguous ≡ r.ambiguous
  sealed-ambiguous head count r =
      if_cases (λ (x : VerifyReport). x.ambiguous ≡ r.ambiguous) _ _ _ (λ _. refl) (λ _. refl)

  -- A file of fewer than 2^64 records is reported whole against a seal just where its records are a
  -- chain from the anchor, as many as the sealed count, and the last one's hash is the sealed head.
  pub verify_against_iff :
      (file head : Str) (count : ℕ) (rs : List Record)
      → read_all codec (some file) ≡ ok rs
      → length rs < two_64
      → (report : VerifyReport) × (verify_against codec file head count ≡ ok report)
        × ((report.broken_at ≡ none)
            ↔ (Chain codec genesis 0 rs × (length rs ≡ count) × (tip genesis rs ≡ head)))
        × (report.ambiguous ≡ marked_seqs rs)
  unfolding verify_against
  verify_against_iff file head count rs read small =
      let (report, e, (records, last, verdict, marked)) =
        verify-Reports codec file rs (Reads-read_all codec file rs read) small in
      let sealed = sealed_iff head count report in
      (
        against_seal head count report,
        rw e refl,
        (
          λ h.
              let (whole, n, same) = sealed.0 h in
              (subst (Verdict codec genesis 0 rs) whole verdict, sym records ∙ n, sym last ∙ same),
          λ (chain, n, same). sealed.1 (
            Verdict-Chain codec genesis 0 rs report.broken_at verdict chain,
            records ∙ n,
            last ∙ same,
          ),
        ),
        sealed-ambiguous head count report ∙ marked,
      )

  -- The file's records, read in order, are reported whole against the seal, and no field of theirs
  -- but the later members holds the separator.
  abbrev pub Matches : Str → Str → ℕ → List Record → Type 0
  Matches file head count rs =
      (read_all codec (some file) ≡ ok rs)
      × (length rs < two_64)
      × All (λ r. Free us r.decision) rs
      × ((report : VerifyReport) × (verify_against codec file head count ≡ ok report)
          × (report.broken_at ≡ none)
          × (report.ambiguous ≡ []))

  unmarked-Plain :
      (rs : List Record) → marked_seqs rs ≡ [] → All (λ r. Free us r.decision) rs → All Plain rs
  unmarked-Plain [] h k = tt
  unmarked-Plain (r ∷ rs) h (d, k) = elim (Bool-cases (has_separator r)) [
    | inl e ↦ cc (rw e at h)
    | inr e ↦ ((e, d), unmarked-Plain rs (rw e at h) k)
  ]

  Matches-Chain :
      (file head : Str) (count : ℕ) (rs : List Record)
      → Matches file head count rs
      → (Chain codec genesis 0 rs × (length rs ≡ count) × (tip genesis rs ≡ head)) × All Plain rs
  Matches-Chain file head count rs (read, small, plain, (found, run, whole, clear)) =
      let (report, e, sound, marked) = verify_against_iff file head count rs read small in
      let same = ok-injective (sym e ∙ run) in
      (
        sound.0 (ap (λ r. r.broken_at) same ∙ whole),
        unmarked-Plain rs (sym marked ∙ ap (λ r. r.ambiguous) same ∙ clear) plain,
      )

  -- Two files that match one sealed head and count hold as many records, which agree one by one in
  -- what the hash encodes, or there are two texts with one hash: if no hash holds the separator.
  pub verify_against-SameRecords :
      ((t : Str) → Free us (codec.sha t))
      → (file file' head : Str) (count : ℕ) (rs ss : List Record) → Matches file head count rs
      → Matches file' head count ss
      → SameRecords rs ss ⊎ Collision
  verify_against-SameRecords sha_clear file file' head count rs ss h k =
      let ((c, n, t), p) = Matches-Chain file head count rs h in
      let ((d, m, u), q) = Matches-Chain file' head count ss k in
      elim (chains_agree sha_clear genesis genesis 0 0 rs ss c d p q genesis_clear genesis_clear
        (n ∙ sym m) (t ∙ sym u)) [ inl found ↦ inr found | inr (same, fields) ↦ inl fields ]
