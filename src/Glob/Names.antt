-- ===== src/Glob/Names.antt =====
-- The names dialect, `names` of crates/mcpdef-policy/src/glob.rs.
pub mod Laws
use mathlib.Core.Option
use mcpdef.Prelude.{
  ℕ, List, [], ◌∷◌, map, ◌+◌, ◌≡◌, Option, none, some, Bool, true, false, not, ◌==◌, if◌then◌else◌,
  drop, length, filter,
}
use mcpdef.Str.{
  Str, str_eq, is_empty, split_once, rsplit_once, split, strip_prefix, strip_suffix, find,
}
use mcpdef.Glob.Pattern.{Item, any_run, one, Matches}

abbrev pub star : ℕ
star = b'*'

-- The loop over the middle pieces, each taken at its leftmost match in what is left.
unfoldable pub place_pieces : List Str → Str → Bool
place_pieces [] rest = true
place_pieces (piece ∷ pieces) rest = elim (find piece rest) [
  | some at ↦ place_pieces pieces (drop (at + length piece) rest)
  | none ↦ false
]

-- The last piece is anchored at the end, and the pieces between are placed before it.
unfoldable pub before_last : Str → Str → Str → Bool
before_last middle last rest = elim (strip_suffix last rest) [
  | none ↦ false
  | some rest' ↦ place_pieces (filter (λ p. not (is_empty p)) (split star middle)) rest'
]

-- What follows the split of the pattern: the first piece is anchored at the start.
unfoldable pub anchored : Str → Str → Str → Str → Bool
anchored first middle last name = elim (strip_prefix first name) [
  | none ↦ false
  | some rest ↦ before_last middle last rest
]

unfoldable pub names : Str → Str → Bool
unfolding anchored before_last place_pieces split_once rsplit_once split strip_prefix strip_suffix
    find str_eq filter is_empty
names pattern name = elim (split_once star pattern) [
  | none ↦ str_eq pattern name
  | some (first, after_first) ↦ elim (rsplit_once star after_first) [
    | some (middle, last) ↦ anchored first middle last name
    | none ↦ anchored first [] after_first name
  ]
]

-- A pattern of the names dialect, read: `*` is any run, and every other character is itself.
abbrev pub item : ℕ → Item ℕ
item c = if c == star then any_run else one c

abbrev pub items : Str → List (Item ℕ)
items = map item

-- The name is one that the pattern describes.
abbrev pub NameMatches : Str → Str → Type 0
NameMatches pattern name = Matches (λ a b. a ≡ b) (items pattern) name
