-- ===== src/Glob/Overlap/Laws.antt =====
-- The overlap search answers, and rightly.
use native.Mathlib.Nat.{le_refl}
use mcpdef.Prelude.{
  ◌≡◌, ◌≢◌, ◌↔◌, inl, inr, [], refl, Bool, true, false, arith, iff_trans, false≢true, sym, ◌∙◌,
  Bool-cases,
}
use mcpdef.Str.{Str}
use mcpdef.Glob.Names.{names}
use mcpdef.Glob.Names.Laws.{names_iff}
use mcpdef.Glob.Search.{answer}
use mcpdef.Glob.Search.Laws.{search-start}
use mcpdef.Glob.Overlap.{cell, at_end, pushes, table_size, patterns_overlap, names_overlap}
use mcpdef.Glob.Overlap.Moves.{InBounds, pushes-IsBounded}
use mcpdef.Glob.Overlap.Sound.{Ends, Ends-Common}
use mcpdef.Glob.Overlap.Complete.{Common-Ends}

-- A name that both patterns take, not empty where that is asked.
abbrev pub HaveInCommon : Str → Str → Bool → Type 0
HaveInCommon p q nonempty =
    (s : Str) × (names p s ≡ true) × (names q s ≡ true) × (nonempty ≡ true → s ≢ [])

module _ (p q : Str) (nonempty : Bool) where
  Ends-HaveInCommon : Ends p q nonempty (0, 0, false) → HaveInCommon p q nonempty
  Ends-HaveInCommon l =
      let (s, c) = Ends-Common p q nonempty (0, 0, false) l in
      (
        s,
        (names_iff p s).1 c.first,
        (names_iff q s).1 c.second,
        λ e. elim c.enough [
          | inl taken ↦ absurd (false≢true taken)
          | inr (inl free) ↦ absurd (false≢true (sym free ∙ e))
          | inr (inr ne) ↦ ne
        ],
      )

  HaveInCommon-Ends : HaveInCommon p q nonempty → Ends p q nonempty (0, 0, false)
  HaveInCommon-Ends (s, f, g, ne) =
      Common-Ends p q nonempty _ (0, 0, false) s (le_refl _) (omega arith, omega arith)
        (record {
          first = (names_iff p s).0 f;
          second = (names_iff q s).0 g;
          enough = elim (Bool-cases nonempty) [ inl e ↦ inr (inr (ne e)) | inr e ↦ inr (inl e) ];
        })

  -- `patterns_overlap` never runs off its table, always answers, and answers true exactly if some
  -- name, not empty where that is asked, matches both patterns by `names`.
  pub patterns_overlap_iff :
      (b : Bool) × (patterns_overlap p q nonempty ≡ answer b)
      × ((b ≡ true) ↔ HaveInCommon p q nonempty)
  unfolding patterns_overlap
  patterns_overlap_iff =
      let (b, e, right) =
        search-start (cell q) (at_end p q nonempty) (pushes p q) (InBounds p q) (table_size p q)
          (pushes-IsBounded p q nonempty) (0, 0, false) (omega arith, omega arith) in
      (b, e, iff_trans right (Ends-HaveInCommon, HaveInCommon-Ends))

-- `names_overlap` always answers, and answers true exactly if some non-empty name matches both
-- patterns by `names`.
pub names_overlap_iff :
    (p q : Str)
    → (b : Bool) × (names_overlap p q ≡ answer b)
      × ((b ≡ true) ↔ ((s : Str) × (s ≢ []) × (names p s ≡ true) × (names q s ≡ true)))
unfolding names_overlap
names_overlap_iff p q =
    let (b, e, right) = patterns_overlap_iff p q true in
    (
      b,
      e,
      (
        λ t. let (s, f, g, ne) = right.0 t in (s, ne refl, f, g),
        λ (s, ne, f, g). right.1 (s, f, g, λ _. ne),
      ),
    )
