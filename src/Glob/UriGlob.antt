-- ===== src/Glob/UriGlob.antt =====
-- A resource-URI pattern and what it matches: `UriGlob`, `Shape`, `new`, `as_str`, `matches` and
-- `optional` of crates/mcpdef-policy/src/glob.rs.
pub mod Laws
use mathlib.Core.Option
use mcpdef.Prelude.{
  ℕ, List, Option, none, some, Bool, true, false, ◌&&◌, ◌||◌, if◌then◌else◌, map, ◌≡◌,
}
use mcpdef.Str.{Str, str, slash, split, str_eq}
use mcpdef.Glob.Pattern.{Matches}
use mcpdef.Glob.Names.{names, NameMatches}
use mcpdef.Glob.Paths.{Run, runs, path_matches, seg_item, SegmentFits}
use mcpdef.Uri.{normalize}
use mcpdef.Uri.Refusal.{Checked, ok, ◌>>=◌}
use mcpdef.Uri.Parts.{Uri, prefix, path, query, fragment, segment_of, segment_count, segments}

pub data Shape : Type 0 where
  any_uri : Shape
  uri_shape :
      (prefix_pattern : Str) (path_runs : List Run) (query_pattern fragment_pattern : Option Str)
      → Shape

pub record UriGlob : Type 0 where
  pub source : Str
  pub shape : Shape

abbrev pub is_any : Str → Bool
is_any pattern = str_eq pattern (str "*") || str_eq pattern (str "**")

abbrev pub shape_of : Uri → Shape
shape_of normal =
    uri_shape (prefix normal) (runs (split slash (path normal))) (query normal) (fragment normal)

unfoldable pub new : Str → Checked UriGlob
unfolding normalize prefix path runs query fragment str_eq
new pattern = do
  shape ←
      if is_any pattern then ok any_uri else normalize pattern >>= λ normal. ok (shape_of normal)
  ok (record { source = pattern; shape = shape })

unfoldable pub as_str : UriGlob → Str
as_str g = g.source

-- A query or fragment: absent in both, or present in both and matching.
unfoldable pub optional : Option Str → Option Str → Bool
unfolding names
optional none none = true
optional none (some part) = false
optional (some pattern) none = false
optional (some pattern) (some part) = names pattern part

abbrev pub matches_shape : Shape → Uri → Bool
matches_shape any_uri u = true
matches_shape (uri_shape p rs q f) u =
    names p (prefix u)
    && (optional q (query u)
        && (optional f (fragment u) && path_matches rs (segment_count u) (segment_of u)))

unfoldable pub matches : UriGlob → Uri → Bool
unfolding names optional path_matches prefix query fragment segment_count segment_of
matches g u = matches_shape g.shape u

-- A part that is absent in both, or present in both and described by the pattern.
abbrev pub PartMatches : Option Str → Option Str → Type 0
PartMatches none none = Unit
PartMatches none (some part) = ⊥
PartMatches (some pattern) none = ⊥
PartMatches (some pattern) (some part) = NameMatches pattern part

-- A URI that a pattern in normal form describes: each part by the pattern's part, the path's
-- segments one by one, with any run of segments for a segment that is `**` alone.
pub record Describes (normal u : Uri) : Type 0 where
  pub prefix_fits : NameMatches (prefix normal) (prefix u)
  pub query_fits : PartMatches (query normal) (query u)
  pub fragment_fits : PartMatches (fragment normal) (fragment u)
  pub path_fits : Matches SegmentFits (map seg_item (split slash (path normal))) (segments u)
