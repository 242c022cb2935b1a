-- ===== src/Glob/Shared.antt =====
-- Whether two URI patterns have a URI in common: `UriGlob::overlaps`, `optional_overlap`,
-- `paths_overlap` and `segments_overlap` of crates/mcpdef-policy/src/glob.rs.
pub mod Laws
use mcpdef.Prelude.{
  ℕ, suc, ◌+◌, ◌*◌, List, [], ◌∷◌, ◌++◌, Option, none, some, Bool, true, false, ◌&&◌, ◌||◌, ◌==◌,
  if◌then◌else◌, length, get_elem?, replicate,
}
use mcpdef.Str.{Str, is_empty}
use mcpdef.Glob.Pattern.{Item, any_run, one}
use mcpdef.Glob.Search.{Outcome, answer, out_of_bounds, out_of_fuel, search}
use mcpdef.Glob.Overlap.{patterns_overlap}
use mcpdef.Glob.Paths.{flat}
use mcpdef.Glob.UriGlob.{UriGlob, Shape, any_uri, uri_shape}

-- `&&` of two searches: the second runs only if the first answers true.
abbrev pub and_then : Outcome → Outcome → Outcome
and_then (answer true) next = next
and_then (answer false) next = answer false
and_then out_of_bounds next = out_of_bounds
and_then out_of_fuel next = out_of_fuel

unfoldable pub segments_overlap : Str → Str → Outcome
unfolding patterns_overlap is_empty
segments_overlap a b =
    if is_empty a || is_empty b
    then answer (is_empty a && is_empty b)
    else patterns_overlap a b true

unfoldable pub optional_overlap : Option Str → Option Str → Outcome
unfolding patterns_overlap
optional_overlap none none = answer true
optional_overlap none (some b) = answer false
optional_overlap (some a) none = answer false
optional_overlap (some a) (some b) = patterns_overlap a b false

abbrev pub says_yes : Outcome → Bool
says_yes (answer b) = b
says_yes out_of_bounds = false
says_yes out_of_fuel = false

-- A pair of positions in the two paths.
abbrev pub Place : Type 0
Place = ℕ × ℕ

abbrev pub skip_any : Option (Item Str) → Place → List Place
skip_any none next = []
skip_any (some any_run) next = next ∷ []
skip_any (some (one seg)) next = []

-- Both paths take a segment together.
abbrev pub take_segments : Option (Item Str) → Option (Item Str) → Place → List Place
take_segments none b n = []
take_segments (some any_run) none n = []
take_segments (some any_run) (some any_run) n = []
take_segments (some any_run) (some (one b)) (i, j) = (i, suc j) ∷ []
take_segments (some (one a)) none n = []
take_segments (some (one a)) (some any_run) (i, j) = (suc i, j) ∷ []
take_segments (some (one a)) (some (one b)) (i, j) =
    if says_yes (segments_overlap a b) then (suc i, suc j) ∷ [] else []

unfoldable pub place_pushes : List (Item Str) → List (Item Str) → Place → List Place
unfolding segments_overlap
place_pushes p q (i, j) =
    skip_any (get_elem? p i) (suc i, j)
    ++ (skip_any (get_elem? q j) (i, suc j) ++ take_segments (get_elem? p i) (get_elem? q j) (i, j))

-- The fuel is as in `patterns_overlap`.
unfoldable pub paths_overlap : List (Item Str) → List (Item Str) → Outcome
unfolding search place_pushes
paths_overlap p q =
    let size = suc (length p) * suc (length q) in
    search (λ n. n.0 * suc (length q) + n.1) (λ n. n.0 == length p && n.1 == length q)
      (place_pushes p q) (2 + 3 * size) (replicate size false) ((0, 0) ∷ [])

abbrev pub shapes_overlap : Shape → Shape → Outcome
shapes_overlap any_uri other = answer true
shapes_overlap (uri_shape p1 r1 q1 f1) any_uri = answer true
shapes_overlap (uri_shape p1 r1 q1 f1) (uri_shape p2 r2 q2 f2) =
    and_then (patterns_overlap p1 p2 false) (
      and_then (optional_overlap q1 q2)
        (and_then (optional_overlap f1 f2) (paths_overlap (flat r1) (flat r2))))

unfoldable pub overlaps : UriGlob → UriGlob → Outcome
unfolding patterns_overlap optional_overlap paths_overlap flat
overlaps g other = shapes_overlap g.shape other.shape
