-- ===== src/Glob/Paths.antt =====
-- The path of the URI dialect of crates/mcpdef-policy/src/glob.rs: `runs`, `flat`, `path_matches`,
-- `run_at`, `leftmost` and `segment`. `at` is the closure that gives a segment by its index.
pub mod Runs
pub mod Places
pub mod Laws
use mcpdef.Prelude.{
  ◌≡◌, ℕ, zero, suc, ◌+◌, ◌-◌, List, [], ◌∷◌, ◌++◌, map, Option, none, some, Bool, true, false, not,
  ◌&&◌, ◌||◌, ltb, ◌==◌, if◌then◌else◌, length,
}
use mcpdef.Str.{Str, str, str_eq, is_empty}
use mcpdef.Glob.Pattern.{Item, any_run, one}
use mcpdef.Glob.Names.{names}

abbrev pub Run : Type 0
Run = List Str

-- An empty segment is matched only by an empty pattern segment.
unfoldable pub segment : Str → Str → Bool
unfolding is_empty names
segment pattern seg = if is_empty seg then is_empty pattern else names pattern seg

-- `runs.last_mut()`, and a segment pushed there.
onto_last : Str → List Run → List Run
onto_last seg [] = []
onto_last seg (run ∷ []) = (run ++ (seg ∷ [])) ∷ []
onto_last seg (run ∷ (next ∷ rest)) = run ∷ onto_last seg (next ∷ rest)

runs_from : List Run → List Str → List Run
runs_from acc [] = acc
runs_from acc (seg ∷ segs) =
    runs_from (if str_eq seg (str "**") then acc ++ ([] ∷ []) else onto_last seg acc) segs

-- Split pattern segments into runs at each segment that is `**` alone.
unfoldable pub runs : List Str → List Run
unfolding runs_from onto_last str_eq
runs segments = runs_from ([] ∷ []) segments

flat_from : ℕ → List Run → List (Item Str)
flat_from i [] = []
flat_from i (run ∷ rest) =
    (if ltb 0 i then any_run ∷ [] else []) ++ (map one run ++ flat_from (suc i) rest)

-- `runs` back as one sequence, a `**` between each two.
unfoldable pub flat : List Run → List (Item Str)
unfolding flat_from
flat rs = flat_from 0 rs

-- `run.iter().enumerate().all(|(i, pattern)| segment(pattern, at(start + i)))`
unfoldable pub run_at : Run → ℕ → (ℕ → Str) → Bool
run_at [] start at = true
run_at (pattern ∷ run) start at = segment pattern (at start) && run_at run (suc start) at

-- `find` over the `n` starts from `start` on.
find_start : ℕ → Run → ℕ → (ℕ → Str) → Option ℕ
find_start zero run start at = none
find_start (suc n) run start at = elim (run_at run start at) [
  | true ↦ some start
  | false ↦ find_start n run (suc start) at
]

-- Where `run` first matches wholly within segments `from..to`. `checked_sub` fails where the run
-- is longer than `to`.
unfoldable pub leftmost : Run → ℕ → ℕ → (ℕ → Str) → Option ℕ
unfolding run_at find_start
leftmost run from to at =
    if ltb to (length run) then none else find_start (suc (to - length run) - from) run from at

-- The loop over the middle runs.
unfoldable pub place_runs : List Run → ℕ → ℕ → (ℕ → Str) → Bool
unfolding leftmost
place_runs [] from tail at = true
place_runs (run ∷ middle) from tail at = elim (leftmost run from tail at) [
  | some start ↦ place_runs middle (start + length run) tail at
  | none ↦ false
]

-- `rest.split_last()`, the last first.
unfoldable pub split_last : List Run → Option (Run × List Run)
split_last [] = none
split_last (run ∷ rest) = elim (split_last rest) [
  | none ↦ some (run, [])
  | some found ↦ some (found.0, run ∷ found.1)
]

unfoldable pub path_matches : List Run → ℕ → (ℕ → Str) → Bool
unfolding run_at place_runs split_last
path_matches [] len at = len == 0
path_matches (first ∷ rest) len at = elim (split_last rest) [
  | none ↦ (length first == len) && run_at first 0 at
  | some (last, middle) ↦
      if ltb len (length first + length last) || not (run_at first 0 at)
      then false
      else if not (run_at last (len - length last) at)
      then false
      else place_runs middle (length first) (len - length last) at
]

-- The items that a path pattern's segments stand for.
abbrev pub seg_item : Str → Item Str
seg_item seg = if str_eq seg (str "**") then any_run else one seg

-- The segments that `at` gives from `start` on, `n` of them.
abbrev pub segments_at : (ℕ → Str) → ℕ → ℕ → List Str
segments_at at start zero = []
segments_at at start (suc n) = at start ∷ segments_at at (suc start) n

-- A path segment is one that the pattern segment describes.
abbrev pub SegmentFits : Str → Str → Type 0
SegmentFits pattern seg = segment pattern seg ≡ true
