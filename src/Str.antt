-- ===== src/Str.antt =====
-- Texts as lists of code points, and the functions of Rust's `str` that the sources call.
-- An index that `str::find` returns counts characters here: each slice below is cut at a position
-- that such a function found, a character boundary, so both counts name the same place.
pub mod Laws
pub mod Decimal
use Prim.Native.Char.{code}
use Prim.Native.String.{String}
use mathlib.Core.Option
use mcpdef.Prelude.{
  leb, ◌||◌, map, ◌+◌, ℕ, zero, suc, List, [], ◌∷◌, Option, none, some, Bool, true, false, ◌&&◌,
  ◌==◌, if◌then◌else◌,
}

abbrev pub Str : Type 0
Str = List ℕ

-- The text of a literal.
abbrev pub str : String → Str
str String.[] = []
str (String.◌∷◌ c s) = code c ∷ str s

abbrev pub slash : ℕ
slash = b'/'

unfoldable pub str_eq : Str → Str → Bool
str_eq [] [] = true
str_eq [] (y ∷ t) = false
str_eq (x ∷ s) [] = false
str_eq (x ∷ s) (y ∷ t) = x == y && str_eq s t

unfoldable pub is_empty : Str → Bool
is_empty [] = true
is_empty (x ∷ s) = false

abbrev before : ℕ → Str × Str → Str × Str
before x (a, b) = (x ∷ a, b)

-- `str::split_once` by a character: at its first place.
unfoldable pub split_once : ℕ → Str → Option (Str × Str)
split_once c [] = none
split_once c (x ∷ s) = if x == c then some ([], s) else Option.map (before x) (split_once c s)

abbrev rsplit_found : ℕ → ℕ → Str → Option (Str × Str) → Option (Str × Str)
rsplit_found c x s (some later) = some (before x later)
rsplit_found c x s none = if x == c then some ([], s) else none

-- `str::rsplit_once` by a character: at its last place.
unfoldable pub rsplit_once : ℕ → Str → Option (Str × Str)
rsplit_once c [] = none
rsplit_once c (x ∷ s) = rsplit_found c x s (rsplit_once c s)

abbrev pub onto_first : ℕ → List Str → List Str
onto_first x [] = (x ∷ []) ∷ []
onto_first x (piece ∷ pieces) = (x ∷ piece) ∷ pieces

-- `str::split` by a character.
unfoldable pub split : ℕ → Str → List Str
split c [] = [] ∷ []
split c (x ∷ s) = if x == c then [] ∷ split c s else onto_first x (split c s)

-- `str::strip_prefix`.
unfoldable pub strip_prefix : Str → Str → Option Str
strip_prefix [] s = some s
strip_prefix (x ∷ p) [] = none
strip_prefix (x ∷ p) (y ∷ s) = if x == y then strip_prefix p s else none

-- `str::strip_suffix`.
unfoldable pub strip_suffix : Str → Str → Option Str
unfolding str_eq
strip_suffix q [] = if str_eq q [] then some [] else none
strip_suffix q (x ∷ s) =
    if str_eq q (x ∷ s) then some [] else Option.map (λ rest. x ∷ rest) (strip_suffix q s)

abbrev pub is_some {ℓ} : {A : Type ℓ} → Option A → Bool
is_some (some a) = true
is_some none = false

-- `str::find` of a text: its first place.
unfoldable pub find : Str → Str → Option ℕ
unfolding strip_prefix
find p [] = if is_some (strip_prefix p []) then some 0 else none
find p (x ∷ s) = if is_some (strip_prefix p (x ∷ s)) then some 0 else Option.map suc (find p s)

abbrev between : ℕ → ℕ → ℕ → Bool
between lo hi c = leb lo c && leb c hi

unfoldable pub is_ascii_alphabetic : ℕ → Bool
is_ascii_alphabetic c = between b'a' b'z' c || between b'A' b'Z' c

unfoldable pub is_ascii_alphanumeric : ℕ → Bool
unfolding is_ascii_alphabetic
is_ascii_alphanumeric c = is_ascii_alphabetic c || between b'0' b'9' c

-- `char::is_control`: the category Cc.
unfoldable pub is_control : ℕ → Bool
is_control c = leb c 31 || between 127 159 c

-- `str::to_ascii_lowercase`.
unfoldable pub to_ascii_lowercase : Str → Str
to_ascii_lowercase s = map (λ c. if between b'A' b'Z' c then c + 32 else c) s

-- `str::starts_with` a text, and a character.
unfoldable pub starts_with : Str → Str → Bool
unfolding strip_prefix
starts_with p s = is_some (strip_prefix p s)

-- `str::find` of a character.
unfoldable pub find_char : ℕ → Str → Option ℕ
find_char c [] = none
find_char c (x ∷ s) = if x == c then some 0 else Option.map suc (find_char c s)

abbrev rfind_found : Bool → Option ℕ → Option ℕ
rfind_found here (some i) = some (suc i)
rfind_found here none = if here then some 0 else none

-- `str::rfind` of a character.
unfoldable pub rfind_char : ℕ → Str → Option ℕ
rfind_char c [] = none
rfind_char c (x ∷ s) = rfind_found (x == c) (rfind_char c s)
