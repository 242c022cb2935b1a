-- ===== src/Uri.antt =====
-- `normalize` of crates/mcpdef-policy/src/uri.rs: resource URIs in normal form.
pub mod Refusal
pub mod Escape
pub mod Dots
pub mod Parts
pub mod Laws
use mathlib.Core.Option
use mcpdef.Prelude.{
  ℕ, zero, suc, ◌+◌, ◌-◌, List, [], ◌∷◌, ◌++◌, map, Option, none, some, Bool, true, false, not,
  ◌&&◌, ◌||◌, ltb, ◌==◌, if◌then◌else◌, length, drop, take, any, all,
}
use mcpdef.Str.{
  Str, str, str_eq, is_empty, split_once, rsplit_once, strip_prefix, starts_with, slash, find_char,
  rfind_char, is_some, is_ascii_alphabetic, is_ascii_alphanumeric, is_control, to_ascii_lowercase,
}
use mcpdef.Uri.Refusal.{
  no_scheme, backslash, nul, control, empty_segment, Checked, ok, err, ◌>>=◌, ok_or, traverse,
}
use mcpdef.Uri.Escape.{other, unescape}
use mcpdef.Uri.Escape
use mcpdef.Uri.Dots.{remove_dot_segments}
use mcpdef.Uri.Parts.{Uri, Range, segment_ranges, assemble}

-- `HOST_CASE_INSENSITIVE`.
abbrev host_case_insensitive : List Str
host_case_insensitive =
    str "http" ∷ str "https" ∷ str "ws" ∷ str "wss" ∷ str "ftp" ∷ str "file" ∷ []

-- The first loop of `normalize`.
unfoldable pub check_chars : Str → Checked (Unit {0})
unfolding is_control
check_chars [] = ok tt
check_chars (c ∷ s) =
    let rest = check_chars s in
    if c == 0
    then err nul
    else if c == 92
    then err backslash
    else if is_control c
    then err control
    else rest

is_scheme_char : ℕ → Bool
unfolding is_ascii_alphanumeric
is_scheme_char c = is_ascii_alphanumeric c || (c == b'+' || (c == b'-' || c == b'.'))

abbrev is_scheme : Str → Bool
is_scheme [] = false
is_scheme (first ∷ more) = is_ascii_alphabetic first && all is_scheme_char more

unfoldable pub split_scheme : Str → Option (Str × Str)
unfolding is_scheme_char split_once is_ascii_alphabetic
split_scheme uri = elim (split_once b':' uri) [
  | none ↦ none
  | some found ↦ if is_scheme found.0 then some found else none
]

-- What stands before a mark, and what stands behind it if it is there.
abbrev cut_at : ℕ → Str → Str × Option Str
cut_at mark s = elim (split_once mark s) [
  | none ↦ (s, none)
  | some (before, behind) ↦ (before, some behind)
]

-- The authority, if the part starts with `//`, and the path.
unfoldable pub split_authority : Str → Option Str × Str
unfolding strip_prefix find_char
split_authority hier = elim (strip_prefix (str "//") hier) [
  | none ↦ (none, hier)
  | some after ↦ elim (find_char slash after) [
    | some end ↦ (some (take end after), drop end after)
    | none ↦ (some after, [])
  ]
]

abbrev default_port : Str → Option Str
default_port scheme =
    if str_eq scheme (str "http") || str_eq scheme (str "ws")
    then some (str "80")
    else if str_eq scheme (str "https") || str_eq scheme (str "wss")
    then some (str "443")
    else if str_eq scheme (str "ftp")
    then some (str "21")
    else none

-- The host, and the port behind the last `:` that no `]` follows.
abbrev split_port : Str → Str × Option Str
split_port hostport = elim (rfind_char b':' hostport) [
  | none ↦ (hostport, none)
  | some at ↦
      if is_some (find_char b']' (drop at hostport))
      then (hostport, none)
      else (take at hostport, some (drop (suc at) hostport))
]

abbrev opt_eq : Str → Option Str → Bool
opt_eq p none = false
opt_eq p (some d) = str_eq p d

abbrev port_text : Option Str → Option Str → Str
port_text none default = []
port_text (some p) default = if opt_eq p default || is_empty p then [] else str ":" ++ p

abbrev userinfo_text : Option Str → Str
userinfo_text none = []
userinfo_text (some user) = user ++ str "@"

abbrev split_userinfo : Str → Option Str × Str
split_userinfo authority = elim (rsplit_once b'@' authority) [
  | none ↦ (none, authority)
  | some (user, hostport) ↦ (some user, hostport)
]

unfoldable pub normal_authority : Str → Str → Str
unfolding rsplit_once rfind_char find_char to_ascii_lowercase str_eq is_empty
normal_authority authority scheme =
    let (userinfo, hostport) = split_userinfo authority in
    let (host, port) = split_port hostport in
    userinfo_text userinfo ++ (to_ascii_lowercase host ++ port_text port (default_port scheme))

-- An empty path with an authority is `/`.
abbrev rooted : Str → Str
rooted p = if is_empty p then str "/" else p

abbrev file_authority : Option Str → Str → Option Str
file_authority none p = if starts_with (str "/") p then some [] else none
file_authority (some a) p = if str_eq a (str "localhost") then some [] else some a

-- The rules of the schemes in `HOST_CASE_INSENSITIVE`.
unfoldable pub by_scheme_rules : Str → Option Str → Str → Option Str × Str
unfolding normal_authority starts_with str_eq is_empty
by_scheme_rules scheme authority p =
    let a = Option.map (λ x. normal_authority x scheme) authority in
    let q = if is_some authority then rooted p else p in
    (if str_eq scheme (str "file") then file_authority a q else a, q)

abbrev is_empty_range : Range → Bool
is_empty_range (start, end) = not (ltb start end)

abbrev drop_ends : List Range → List Range
drop_ends [] = []
drop_ends (r ∷ rs) = take (length rs - 1) rs

-- An empty segment between the first and the last.
unfoldable pub has_inner_empty : Str → Bool
unfolding segment_ranges
has_inner_empty p = any is_empty_range (drop_ends (segment_ranges p))

-- The path in normal form. The empty text stands for a removal that is out of fuel.
unfoldable pub normal_path : Str → Checked Str
unfolding remove_dot_segments unescape
normal_path p =
    unescape p Escape.path >>= λ decoded. ok (Option.get_or (remove_dot_segments decoded) [])

abbrev by_scheme : Str → Bool
by_scheme scheme = any (str_eq scheme) host_case_insensitive

-- The parts of a URI as `normalize` splits it.
pub record Split : Type 0 where
  pub scheme : Str
  pub authority : Option Str
  pub raw_path : Str
  pub raw_query : Option Str
  pub raw_fragment : Option Str

unfoldable pub split_parts : Str → Str → Split
unfolding split_once split_authority to_ascii_lowercase
split_parts scheme rest =
    let (unfragmented, f) = cut_at b'#' rest in
    let (hier, q) = cut_at b'?' unfragmented in
    let (authority, p) = split_authority hier in
    record {
      scheme = to_ascii_lowercase scheme;
      authority = authority;
      raw_path = p;
      raw_query = q;
      raw_fragment = f;
    }

-- The query and the fragment, decoded last, and the text put together.
unfoldable pub finish : Split → Option Str → Str → Checked Uri
unfolding unescape assemble has_inner_empty
finish s authority p = if has_inner_empty p then err empty_segment else do
  q ← traverse (λ x. unescape x other) s.raw_query
  f ← traverse (λ x. unescape x other) s.raw_fragment
  ok (assemble s.scheme authority p q f)

-- The authority and the path, by the scheme's own rules where it has some.
abbrev pub ruled : Split → Option Str → Str → Option Str × Str
ruled s authority p =
    if by_scheme s.scheme then by_scheme_rules s.scheme authority p else (authority, p)

unfoldable pub normalize_parts : Split → Checked Uri
unfolding normal_path by_scheme_rules finish
normalize_parts s = do
  authority ← traverse (λ x. unescape x other) s.authority
  p ← normal_path s.raw_path
  finish s (ruled s authority p).0 (ruled s authority p).1

unfoldable pub normalize : Str → Checked Uri
unfolding check_chars split_scheme split_parts normalize_parts
normalize uri = do
  _ ← check_chars uri
  found ← ok_or (split_scheme uri) no_scheme
  normalize_parts (split_parts found.0 found.1)
