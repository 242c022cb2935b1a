-- ===== src/Tests/Globs.antt =====
-- The glob engine of crates/mcpdef-policy/src/glob.rs at concrete patterns.
use mcpdef.Prelude.{ℕ, zero, suc, List, [], ◌∷◌, ◌≡◌, ◌≢◌, ◌↔◌, ◌⊎◌, refl, none, Bool, true, false}
use mcpdef.Str.{Str, str, split}
use mcpdef.Uri.{normalize}
use mcpdef.Uri.Refusal.{ok}
use mcpdef.Uri.Parts.{Uri}
use mcpdef.Glob.Pattern.{Matches}
use mcpdef.Glob.Names.{names, NameMatches}
use mcpdef.Glob.Names.Laws.{names_iff}
use mcpdef.Glob.Search.{answer}
use mcpdef.Glob.Overlap.{names_overlap}
use mcpdef.Glob.Overlap.Laws.{names_overlap_iff}
use mcpdef.Glob.Paths.{Run, segment, flat, path_matches, segments_at, SegmentFits}
use mcpdef.Glob.Paths.Laws.{path_matches_iff}
use mcpdef.Glob.UriGlob.{UriGlob, uri_shape, is_any, new, matches, Describes}
use mcpdef.Glob.UriGlob.Laws.{new-matches}
use mcpdef.Glob.Shared.{overlaps}

names_iff_example :
    (names (str "get_*_ro") (str "get_file_ro") ≡ true)
    ↔ NameMatches (str "get_*_ro") (str "get_file_ro")
names_iff_example = names_iff (str "get_*_ro") (str "get_file_ro")

names_takes : names (str "get_*_ro") (str "get_file_ro") ≡ true
unfolding names
names_takes = refl

names_refuses : names (str "a*a") (str "a") ≡ false
unfolding names
names_refuses = refl

names_overlap_iff_example :
    (b : Bool) × (names_overlap (str "get_*") (str "set_*") ≡ answer b)
    × ((b ≡ true)
        ↔ ((s : Str) × (s ≢ []) × (names (str "get_*") s ≡ true) × (names (str "set_*") s ≡ true)))
names_overlap_iff_example = names_overlap_iff (str "get_*") (str "set_*")

names_overlap_answers : names_overlap (str "a*") (str "*b") ≡ answer true
unfolding names_overlap
names_overlap_answers = refl

abbrev doc_runs : List Run
doc_runs = (str "" ∷ str "srv" ∷ []) ∷ (str "*.md" ∷ []) ∷ []

abbrev doc_segments : ℕ → Str
doc_segments zero = str ""
doc_segments (suc zero) = str "srv"
doc_segments (suc (suc zero)) = str "notes"
doc_segments (suc (suc (suc n))) = str "a.md"

path_matches_iff_example :
    (path_matches doc_runs 4 doc_segments ≡ true)
    ↔ Matches SegmentFits (flat doc_runs) (segments_at doc_segments 0 4)
path_matches_iff_example = path_matches_iff doc_runs 4 doc_segments

path_matches_takes : path_matches doc_runs 4 doc_segments ≡ true
unfolding path_matches segment
path_matches_takes = refl

abbrev docs_glob : UriGlob
docs_glob = record {
  source = str "FILE:///docs/*";
  shape = uri_shape (str "file://") ((str "" ∷ str "docs" ∷ str "*" ∷ []) ∷ []) none none;
}

docs_glob_compiled : new (str "FILE:///docs/*") ≡ ok docs_glob
unfolding new split
docs_glob_compiled = refl

new-matches_example :
    ((is_any (str "FILE:///docs/*") ≡ true) × ((u : Uri) → matches docs_glob u ≡ true))
    ⊎ ((is_any (str "FILE:///docs/*") ≡ false)
        × ((normal : Uri) × (normalize (str "FILE:///docs/*") ≡ ok normal)
            × ((u : Uri) → (matches docs_glob u ≡ true) ↔ Describes normal u)))
new-matches_example = new-matches (str "FILE:///docs/*") docs_glob docs_glob_compiled

overlaps_itself : overlaps docs_glob docs_glob ≡ answer true
unfolding overlaps
overlaps_itself = refl

abbrev apart_glob : UriGlob
apart_glob = record {
  source = str "file:///other/**";
  shape = uri_shape (str "file://") ((str "" ∷ str "other" ∷ []) ∷ [] ∷ []) none none;
}

overlaps_apart : overlaps docs_glob apart_glob ≡ answer false
unfolding overlaps
overlaps_apart = refl
