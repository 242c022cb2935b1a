-- ===== src/Uri/Parts.antt =====
-- A URI in normal form and its parts: `Uri`, its accessors and `segment_ranges` of
-- crates/mcpdef-policy/src/uri.rs. Offsets count characters; the source's are byte offsets of the
-- same places. A `Uri` is built by `normalize` alone, so its ranges lie within its text.
pub mod Laws
use mathlib.Core.Option
use mcpdef.Prelude.{
  ℕ, zero, suc, ◌+◌, ◌-◌, List, [], ◌∷◌, ◌++◌, map, Option, none, some, Bool, true, false, ◌==◌,
  if◌then◌else◌, length, drop, take, get_elem?,
}
use mcpdef.Str.{Str, str, slash}

abbrev pub Range : Type 0
Range = ℕ × ℕ

-- `&text[r]`.
abbrev pub slice : Str → Range → Str
slice text (start, end) = take (end - start) (drop start text)

pub record Uri : Type 0 where
  pub text : Str
  pub path_start : ℕ
  pub path_end : ℕ
  pub segment_places : List Range
  pub query_place : Option Range
  pub fragment_place : Option Range

unfoldable pub prefix : Uri → Str
prefix u = slice u.text (0, u.path_start)

unfoldable pub path : Uri → Str
path u = slice u.text (u.path_start, u.path_end)

unfoldable pub segments : Uri → List Str
segments u = map (slice u.text) u.segment_places

abbrev pub place_or : Option Range → Range
place_or none = (0, 0)
place_or (some r) = r

-- `matches` asks for indices below `segment_count` only.
unfoldable pub segment_of : Uri → ℕ → Str
segment_of u index = slice u.text (place_or (get_elem? u.segment_places index))

unfoldable pub segment_count : Uri → ℕ
segment_count u = length u.segment_places

unfoldable pub query : Uri → Option Str
query u = Option.map (slice u.text) u.query_place

unfoldable pub fragment : Uri → Option Str
fragment u = Option.map (slice u.text) u.fragment_place

unfoldable pub ranges_from : ℕ → ℕ → Str → List Range
ranges_from start at [] = (start, at) ∷ []
ranges_from start at (byte ∷ s) =
    let closed = (start, at) ∷ ranges_from (suc at) (suc at) s in
    let longer = ranges_from start (suc at) s in if byte == slash then closed else longer

-- Where each of the path's segments lies in it.
unfoldable pub segment_ranges : Str → List Range
unfolding ranges_from
segment_ranges p = ranges_from 0 0 p

-- The text before the path: `scheme:` or `scheme://authority`.
abbrev pub before_path : Str → Option Str → Str
before_path scheme none = scheme ++ str ":"
before_path scheme (some authority) = scheme ++ (str "://" ++ authority)

abbrev shift : ℕ → Range → Range
shift by (start, end) = (start + by, end + by)

-- A part behind its mark, `?` or `#`, put at the end of the text, and where it lies.
abbrev with_part : ℕ → Str → Option Str → Str × Option Range
with_part mark text none = (text, none)
with_part mark text (some part) =
    (text ++ (mark ∷ part), some (suc (length text), length (text ++ (mark ∷ part))))

-- The end of `normalize`: the text is put together, and the parts' places noted.
unfoldable pub assemble : Str → Option Str → Str → Option Str → Option Str → Uri
unfolding segment_ranges
assemble scheme authority p q f =
    let front = before_path scheme authority in
    let with_query = with_part b'?' (front ++ p) q in
    let with_fragment = with_part b'#' with_query.0 f in
    record {
      text = with_fragment.0;
      path_start = length front;
      path_end = length (front ++ p);
      segment_places = map (shift (length front)) (segment_ranges p);
      query_place = with_query.1;
      fragment_place = with_fragment.1;
    }
