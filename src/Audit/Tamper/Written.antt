-- ===== src/Audit/Tamper/Written.antt =====
-- What a sealed head says of the records that this release writes, which have no unknown members.
use mcpdef.Prelude.{ℕ, List, [], ◌∷◌, ◌≡◌, ◌⊎◌, inl, inr, sym, ◌∙◌, All}
use mcpdef.Str.{Str}
use mcpdef.Str.Laws.{Free}
use mcpdef.Audit.{Record, Codec}
use mcpdef.Audit.Hash.{us, unwrap_or_empty}
use mcpdef.Audit.Hash.Members.{IsLiteral}
use mcpdef.Audit.Hash.Fields.{SameMembers, later_members-SameMembers}
use mcpdef.Audit.Tamper.{Collision, SameRecords, Matches, verify_against-SameRecords}

-- The records agree in every field, but that an absent method, tool or rule is as an empty one.
abbrev pub SameRecord : Record → Record → Type 0
SameRecord r s =
    (r.seq ≡ s.seq)
    × (r.ts_unix_ms ≡ s.ts_unix_ms)
    × (r.agent ≡ s.agent)
    × (r.server ≡ s.server)
    × (unwrap_or_empty r.method ≡ unwrap_or_empty s.method)
    × (unwrap_or_empty r.tool ≡ unwrap_or_empty s.tool)
    × (r.decision ≡ s.decision)
    × (unwrap_or_empty r.rule ≡ unwrap_or_empty s.rule)
    × (r.latency_ms ≡ s.latency_ms)
    × SameMembers r s
    × (r.extra ≡ s.extra)
    × (r.prev_hash ≡ s.prev_hash)
    × (r.hash ≡ s.hash)

-- As many records, which agree one by one.
abbrev pub Same : List Record → List Record → Type 0
Same [] [] = Unit
Same [] (s ∷ ss) = ⊥
Same (r ∷ rs) [] = ⊥
Same (r ∷ rs) (s ∷ ss) = SameRecord r s × Same rs ss

module _ (codec : Codec) (literal : IsLiteral codec.json_str) where
  SameRecords-Same :
      (rs ss : List Record)
      → All (λ r. r.extra ≡ []) rs
      → All (λ r. r.extra ≡ []) ss
      → SameRecords codec rs ss
      → Same rs ss
  SameRecords-Same [] [] p q h = tt
  SameRecords-Same [] (s ∷ ss) p q h = h
  SameRecords-Same (r ∷ rs) [] p q h = h
  SameRecords-Same (r ∷ rs) (s ∷ ss) (p, ps) (q, qs) (fields, hash, rest) =
      let (seq, ts, agent, server, method, tool, decision, rule, latency, prev, later) = fields in
      (
        (
          seq,
          ts,
          agent,
          server,
          method,
          tool,
          decision,
          rule,
          latency,
          later_members-SameMembers codec.json_str literal r s p q later,
          p ∙ sym q,
          prev,
          hash,
        ),
        SameRecords-Same rs ss ps qs rest,
      )

  -- Two files of records without unknown members that match one sealed head and count hold the same
  -- records, field by field, an absent method, tool or rule being as an empty one, or there are two
  -- texts with one hash: if no hash holds the separator, and it can be told where the text of a
  -- string literal ends.
  pub verify_against-Same :
      ((t : Str) → Free us (codec.sha t))
      → (file file' head : Str) (count : ℕ) (rs ss : List Record) → All (λ r. r.extra ≡ []) rs
      → All (λ r. r.extra ≡ []) ss
      → Matches codec file head count rs
      → Matches codec file' head count ss
      → Same rs ss ⊎ Collision codec
  verify_against-Same sha_clear file file' head count rs ss p q h k =
      elim (verify_against-SameRecords codec sha_clear file file' head count rs ss h k) [
        | inl same ↦ inl (SameRecords-Same rs ss p q same)
        | inr found ↦ inr found
      ]
