-- ===== src/Glob/Paths/Runs.antt =====
-- `flat` undoes `runs`.
use mcpdef.Prelude.{
  ℕ, suc, List, [], ◌∷◌, ◌++◌, map, append_assoc, ◌≡◌, refl, sym, Bool-cases, ltb, if◌then◌else◌,
  inl, inr, arith,
}
use mcpdef.Str.{Str, str, str_eq}
use mcpdef.Glob.Pattern.{Item, any_run, one}
use mcpdef.Glob.Paths.{Run, onto_last, runs_from, runs, flat_from, flat, seg_item}
use mathlib.Core.List.{map-append, append-nil}

abbrev pub gap : ℕ → List (Item Str)
gap i = if ltb 0 i then any_run ∷ [] else []

pub gap-suc : (i : ℕ) → gap (suc i) ≡ any_run ∷ []
gap-suc i = ground arith

-- A new run at the end is one more wildcard.
flat_from-new :
    (i : ℕ) (r : Run) (rs : List Run)
    → flat_from i ((r ∷ rs) ++ ([] ∷ [])) ≡ flat_from i (r ∷ rs) ++ (any_run ∷ [])
unfolding flat_from
flat_from-new i r [] = simp (gap-suc, append_assoc, append-nil)
flat_from-new i r (q ∷ rs) = simp (flat_from-new (suc i) q rs, append_assoc)

-- A segment onto the last run is one more segment.
flat_from-onto_last :
    (seg : Str) (i : ℕ) (r : Run) (rs : List Run)
    → flat_from i (onto_last seg (r ∷ rs)) ≡ flat_from i (r ∷ rs) ++ (one seg ∷ [])
unfolding flat_from onto_last
flat_from-onto_last seg i r [] = simp (map-append, append_assoc, append-nil)
flat_from-onto_last seg i r (q ∷ rs) = simp (flat_from-onto_last seg (suc i) q rs, append_assoc)

onto_last-cons :
    (seg : Str) (r : Run) (rs : List Run)
    → (q : Run) × (qs : List Run) × (onto_last seg (r ∷ rs) ≡ q ∷ qs)
unfolding onto_last
onto_last-cons seg r [] = (r ++ (seg ∷ []), [], refl)
onto_last-cons seg r (q ∷ rs) = (r, onto_last seg (q ∷ rs), refl)

flat-runs_from :
    (r : Run) (rs : List Run) (segs : List Str)
    → flat_from 0 (runs_from (r ∷ rs) segs) ≡ flat_from 0 (r ∷ rs) ++ map seg_item segs
unfolding runs_from
flat-runs_from r rs [] = sym (append-nil _)
flat-runs_from r rs (seg ∷ segs) = elim (Bool-cases (str_eq seg (str "**"))) [
  | inl stars ↦
      rw (stars, flat-runs_from r (rs ++ ([] ∷ [])) segs, flat_from-new 0 r rs)
        (append_assoc (flat_from 0 (r ∷ rs)) (any_run ∷ []) (map seg_item segs))
  | inr other ↦
      let (q, qs, e) = onto_last-cons seg r rs in
      rw (other, e, flat-runs_from q qs segs, ← e, flat_from-onto_last seg 0 r rs)
        (append_assoc (flat_from 0 (r ∷ rs)) (one seg ∷ []) (map seg_item segs))
]

-- Split into runs and put back together, a path pattern is its segments: a segment that is `**`
-- alone is any run of segments, and every other is itself.
pub flat-runs : (segs : List Str) → flat (runs segs) ≡ map seg_item segs
unfolding flat runs
flat-runs segs = flat-runs_from [] [] segs
