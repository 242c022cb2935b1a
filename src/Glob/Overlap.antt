-- ===== src/Glob/Overlap.antt =====
-- Whether two name patterns have a name in common: `patterns_overlap` and `names_overlap` of
-- crates/mcpdef-policy/src/glob.rs.
pub mod Begins
pub mod Moves
pub mod Sound
pub mod Complete
pub mod Laws
use mcpdef.Prelude.{
  ℕ, suc, ◌+◌, ◌*◌, List, [], ◌∷◌, ◌++◌, Option, none, some, Bool, true, false, not, ◌&&◌, ◌||◌,
  ◌==◌, if◌then◌else◌, length, get_elem?, replicate,
}
use mcpdef.Str.{Str}
use mcpdef.Glob.Names.{star}
use mcpdef.Glob.Search.{Outcome, search}

-- A pair of positions in the two patterns, and whether a character has been taken.
abbrev pub Pos : Type 0
Pos = ℕ × ℕ × Bool

abbrev pub bit : Bool → ℕ
bit true = 1
bit false = 0

-- `seen[i * width + j][usize::from(taken)]`, the pairs of the table laid end to end.
abbrev pub cell : Str → Pos → ℕ
cell q (i, j, taken) = 2 * (i * suc (length q) + j) + bit taken

abbrev pub at_end : Str → Str → Bool → Pos → Bool
at_end p q nonempty (i, j, taken) = (i == length p && j == length q) && (taken || not nonempty)

-- A star of the first pattern may match nothing more.
abbrev pub skip_first : Option ℕ → Pos → List Pos
skip_first none n = []
skip_first (some a) (i, j, taken) = if a == star then (suc i, j, taken) ∷ [] else []

abbrev pub skip_second : Option ℕ → Pos → List Pos
skip_second none n = []
skip_second (some b) (i, j, taken) = if b == star then (i, suc j, taken) ∷ [] else []

-- Both patterns take a character together.
abbrev pub take_both : Option ℕ → Option ℕ → Pos → List Pos
take_both none b n = []
take_both (some a) none n = []
take_both (some a) (some b) (i, j, taken) =
    if a == star
    then if b == star then (i, j, true) ∷ [] else (i, suc j, true) ∷ []
    else if b == star
    then (suc i, j, true) ∷ []
    else if a == b
    then (suc i, suc j, true) ∷ []
    else []

-- What one round pushes, in that order.
unfoldable pub pushes : Str → Str → Pos → List Pos
pushes p q (i, j, taken) =
    skip_first (get_elem? p i) (i, j, taken)
    ++ (skip_second (get_elem? q j) (i, j, taken)
        ++ take_both (get_elem? p i) (get_elem? q j) (i, j, taken))

abbrev pub table_size : Str → Str → ℕ
table_size p q = 2 * (suc (length p) * suc (length q))

-- Three pushes for each cell at most, the first node, and the round that finds the stack empty.
unfoldable pub patterns_overlap : Str → Str → Bool → Outcome
unfolding search pushes
patterns_overlap p q nonempty =
    search (cell q) (at_end p q nonempty) (pushes p q) (2 + 3 * table_size p q)
      (replicate (table_size p q) false) ((0, 0, false) ∷ [])

unfoldable pub names_overlap : Str → Str → Outcome
unfolding patterns_overlap
names_overlap p q = patterns_overlap p q true
