-- ===== src/Glob/UriGlob/Laws.antt =====
-- What a compiled pattern matches.
use mcpdef.Prelude.{
  ℕ, zero, suc, List, [], ◌∷◌, map, ◌≡◌, ◌↔◌, ◌⊎◌, inl, inr, refl, ap, subst, ◌∙◌, Option, none,
  some, true, false, false≢true, length, get_elem?, and_iff, Bool-cases,
}
use mcpdef.Str.{Str, slash, split}
use mcpdef.Glob.Pattern.{Matches}
use mcpdef.Glob.Names.{names}
use mcpdef.Glob.Names.Laws.{names_iff}
use mcpdef.Glob.Paths.{runs, path_matches, seg_item, segments_at, SegmentFits}
use mcpdef.Glob.Paths.Runs.{flat-runs}
use mcpdef.Glob.Paths.Laws.{path_matches_iff}
use mcpdef.Uri.{normalize}
use mcpdef.Uri.Refusal.{ok, ◌>>=◌, >>=-eq-ok, ok-injective}
use mcpdef.Uri.Parts.{
  Uri, Range, slice, place_or, prefix, path, query, fragment, segment_of, segment_count, segments,
}
use mcpdef.Glob.UriGlob.{UriGlob, is_any, shape_of, new, optional, matches, PartMatches, Describes}

optional_iff :
    (pattern part : Option Str) → (optional pattern part ≡ true) ↔ PartMatches pattern part
unfolding optional
optional_iff none none = (λ _. tt, λ _. refl)
optional_iff none (some part) = (λ e. absurd (false≢true e), λ h. absurd h)
optional_iff (some pattern) none = (λ e. absurd (false≢true e), λ h. absurd h)
optional_iff (some pattern) (some part) = names_iff pattern part

segments_at-shift :
    (at : ℕ → Str) (start n : ℕ)
    → segments_at at (suc start) n ≡ segments_at (λ i. at (suc i)) start n
segments_at-shift at start zero = refl
segments_at-shift at start (suc n) =
    ap (λ l. at (suc start) ∷ l) (segments_at-shift at (suc start) n)

places_all :
    (text : Str) (places : List Range)
    → segments_at (λ i. slice text (place_or (get_elem? places i))) 0 (length places)
      ≡ map (slice text) places
places_all text [] = refl
places_all text (r ∷ rs) =
    ap (λ l. slice text r ∷ l)
      (segments_at-shift (λ i. slice text (place_or (get_elem? (r ∷ rs) i))) 0 (length rs)
        ∙ places_all text rs)

-- Read by index, the segments are the list of segments.
all_segments : (u : Uri) → segments_at (segment_of u) 0 (segment_count u) ≡ segments u
unfolding segment_of segment_count segments
all_segments u = places_all u.text u.segment_places

path_fits_iff :
    (segs : List Str) (u : Uri)
    → (path_matches (runs segs) (segment_count u) (segment_of u) ≡ true)
      ↔ Matches SegmentFits (map seg_item segs) (segments u)
path_fits_iff segs u =
    rw (← flat-runs segs, ← all_segments u)
      (path_matches_iff (runs segs) (segment_count u) (segment_of u))

shape_of_iff :
    (pattern : Str) (normal u : Uri)
    → (matches (record { source = pattern; shape = shape_of normal }) u ≡ true) ↔ Describes normal u
unfolding matches
shape_of_iff pattern normal u =
    let (to, from) =
      and_iff (names (prefix normal) (prefix u)) _ (names_iff (prefix normal) (prefix u)) (
        and_iff (optional (query normal) (query u)) _ (optional_iff (query normal) (query u)) (
          and_iff (optional (fragment normal) (fragment u)) _
            (optional_iff (fragment normal) (fragment u))
            (path_fits_iff (split slash (path normal)) u))) in
    (
      λ e.
          let (p, (q, (f, segs))) = to e in
          record { prefix_fits = p; query_fits = q; fragment_fits = f; path_fits = segs },
      λ d. from (d.prefix_fits, (d.query_fits, (d.fragment_fits, d.path_fits))),
    )

any_pattern :
    (pattern : Str) (g : UriGlob)
    → is_any pattern ≡ true
    → new pattern ≡ ok g
    → (u : Uri) → matches g u ≡ true
unfolding new matches
any_pattern pattern g stars e u =
    subst (λ x. matches x u ≡ true) (ok-injective (rw stars at e)) refl

compiled :
    (pattern : Str) (g : UriGlob)
    → new pattern ≡ ok g
    → is_any pattern ≡ false
    → (normal : Uri) × (normalize pattern ≡ ok normal)
      × ((u : Uri) → (matches g u ≡ true) ↔ Describes normal u)
unfolding new
compiled pattern g e other =
    let (shape, found, rest) =
      >>=-eq-ok (normalize pattern >>= λ n. ok (shape_of n)) _ (rw other at e) in
    let (normal, fine, same) = >>=-eq-ok (normalize pattern) _ found in
    (
      normal,
      fine,
      λ u.
          subst (λ x. (matches x u ≡ true) ↔ Describes normal u)
            (ap (λ s. record { source = pattern; shape = s }) (ok-injective same)
              ∙ ok-injective rest)
            (shape_of_iff pattern normal u),
    )

-- A pattern that compiles matches every URI if it is `*` or `**`. Any other is accepted by
-- `normalize`, and matches exactly the URIs that its normal form describes: prefix, query and
-- fragment by the names dialect, an absent one only where it is absent, and the path segment by
-- segment, with any run of segments for each `**` that is a segment of its own.
pub new-matches :
    (pattern : Str) (g : UriGlob)
    → new pattern ≡ ok g
    → ((is_any pattern ≡ true) × ((u : Uri) → matches g u ≡ true))
      ⊎ ((is_any pattern ≡ false)
          × ((normal : Uri) × (normalize pattern ≡ ok normal)
              × ((u : Uri) → (matches g u ≡ true) ↔ Describes normal u)))
new-matches pattern g e = elim (Bool-cases (is_any pattern)) [
  | inl stars ↦ inl (stars, any_pattern pattern g stars e)
  | inr other ↦ inr (other, compiled pattern g e other)
]
