-- ===== src/Uri/Dots.antt =====
-- `remove_dot_segments` of crates/mcpdef-policy/src/uri.rs: RFC 3986, section 5.2.4.
pub mod Rounds
pub mod Laws
use mcpdef.Prelude.{
  ℕ, zero, suc, ◌+◌, List, [], ◌∷◌, ◌++◌, Option, none, some, Bool, true, false, ◌||◌,
  if◌then◌else◌, length, drop, take,
}
use mathlib.Core.Option
use mcpdef.Str.{Str, str, str_eq, slash, strip_prefix, starts_with, find_char, rfind_char}

-- What is left of the input, and the output so far.
pub record Work : Type 0 where
  pub input : Str
  pub output : Str

abbrev or_else {ℓ} : {A : Type ℓ} → Option A → Option A → Option A
or_else (some a) b = some a
or_else none b = b

abbrev value_or : Option ℕ → ℕ → ℕ
value_or none d = d
value_or (some n) d = n

abbrev segment_end_from : Str → ℕ → ℕ
segment_end_from input start = elim (find_char slash (drop start input)) [
  | some at ↦ at + start
  | none ↦ length input
]

-- Where the first segment ends: at the first `/` behind a leading one, or at the end.
unfoldable pub segment_end : Str → ℕ
unfolding find_char starts_with
segment_end input = segment_end_from input (if starts_with (str "/") input then 1 else 0)

-- C: the last segment of the output goes.
unfoldable pub drop_last : Str → Str
unfolding rfind_char
drop_last output = take (value_or (rfind_char slash output) 0) output

-- One round of the loop.
unfoldable pub round : Work → Work
unfolding segment_end drop_last strip_prefix starts_with str_eq
round w = elim (or_else (strip_prefix (str "../") w.input) (strip_prefix (str "./") w.input)) [
  | some rest ↦ record w { input = rest }
  | none ↦
      if starts_with (str "/./") w.input
      then record w { input = drop 2 w.input }
      else if str_eq w.input (str "/.")
      then record w { input = str "/" }
      else if starts_with (str "/../") w.input || str_eq w.input (str "/..")
      then record {
        input = if str_eq w.input (str "/..") then str "/" else drop 3 w.input;
        output = drop_last w.output;
      }
      else if str_eq w.input (str ".") || str_eq w.input (str "..")
      then record w { input = [] }
      else record {
        input = drop (segment_end w.input) w.input;
        output = w.output ++ take (segment_end w.input) w.input;
      }
]

-- The loop, on fuel; `none` means that the fuel ran out.
unfoldable pub remove_from : ℕ → Work → Option Str
unfolding round
remove_from zero w = none
remove_from (suc f) w = elim w.input [ [] ↦ some w.output | x ∷ rest ↦ remove_from f (round w) ]

-- Each round shortens the input.
unfoldable pub remove_dot_segments : Str → Option Str
unfolding remove_from
remove_dot_segments path = remove_from (suc (length path)) (record { input = path; output = [] })
