-- ===== src/Uri/Laws.antt =====
-- What every URI that `normalize` accepts is.
use mathlib.Core.Option
use mcpdef.Prelude.{
  ℕ, zero, suc, ◌+◌, ◌-◌, ◌≤◌, List, [], ◌∷◌, map, ◌≡◌, ◌≢◌, inl, inr, refl, sym, ap, subst, ◌∙◌,
  Option, none, some, false, length, take, any, All, arith, Bool-cases,
}
use mcpdef.Str.{Str, slash, split, is_empty}
use mcpdef.Str.Laws.{split-cons}
use mcpdef.Uri.Refusal.{ok, >>=-eq-ok, ok-injective, err≢ok, ok_or, no_scheme, traverse}
use mcpdef.Uri.Escape
use mcpdef.Uri.Escape.{other, unescape}
use mcpdef.Uri.Dots.Rounds.{NotDot}
use mcpdef.Uri.Dots.Laws.{NoDots, remove_dot_segments-NoDots}
use mcpdef.Uri.Parts.{Uri, Range, segments, path, segment_ranges, ranges_from, assemble}
use mcpdef.Uri.Parts.Laws.{assemble-HasParts}
use mcpdef.Uri.{
  check_chars, split_scheme, split_parts, Split, rooted, by_scheme, by_scheme_rules, normal_path,
  has_inner_empty, drop_ends, is_empty_range, finish, ruled, normalize_parts, normalize,
}

-- The segments between the first and the last.
abbrev pub inner {ℓ} : {A : Type ℓ} → List A → List A
inner [] = []
inner (x ∷ xs) = take (length xs - 1) xs

-- No dot segment, and no empty segment but the first and the last.
pub record IsSafe (u : Uri) : Type 0 where
  pub no_dots : All NotDot (segments u)
  pub no_inner_empty : All (λ seg. seg ≢ []) (inner (segments u))
  pub path_split : segments u ≡ split slash (path u)

width : Range → ℕ
width (start, end) = end - start

NoDots-rooted : (p : Str) → NoDots p → NoDots (rooted p)
unfolding is_empty split
NoDots-rooted [] h = ((λ e. cc e, λ e. cc e), ((λ e. cc e, λ e. cc e), tt))
NoDots-rooted (x ∷ p) h = h

NoDots-by_scheme_rules :
    (scheme : Str) (authority : Option Str) (p : Str)
    → NoDots p
    → NoDots (by_scheme_rules scheme authority p).1
unfolding by_scheme_rules
NoDots-by_scheme_rules scheme none p h = h
NoDots-by_scheme_rules scheme (some a) p h = NoDots-rooted p h

NoDots-normal_path : (raw p : Str) → normal_path raw ≡ ok p → NoDots p
unfolding normal_path
NoDots-normal_path raw p e =
    let (decoded, _, rest) = >>=-eq-ok (unescape raw Escape.path) _ e in
    let (out, found, clean) = remove_dot_segments-NoDots decoded in
    subst NoDots (ok-injective (sym (ap (λ o. ok (Option.get_or o [])) found) ∙ rest)) clean

finish-ok :
    (s : Split) (authority : Option Str) (p : Str) (u : Uri)
    → finish s authority p ≡ ok u
    → (q : Option Str) × (f : Option Str) × (u ≡ assemble s.scheme authority p q f)
      × (has_inner_empty p ≡ false)
unfolding finish
finish-ok s authority p u e = elim (Bool-cases (has_inner_empty p)) [
  | inl bad ↦ absurd (err≢ok (rw bad at e))
  | inr fine ↦
      let (q, _, rest) =
        >>=-eq-ok (traverse (λ x. unescape x other) s.raw_query) _ (rw fine at e) in
      let (f, _, rest') = >>=-eq-ok (traverse (λ x. unescape x other) s.raw_fragment) _ rest in
      (q, f, sym (ok-injective rest'), fine)
]

abbrev plus_first : ℕ → List ℕ → List ℕ
plus_first n [] = n ∷ []
plus_first n (m ∷ ms) = (n + m) ∷ ms

-- The ranges are as wide as the segments are long.
ranges_from-width :
    (s : Str) (start at : ℕ)
    → start ≤ at
    → map width (ranges_from start at s) ≡ plus_first (at - start) (map length (split slash s))
unfolding ranges_from width split
ranges_from-width [] start at h = ap (λ n. n ∷ []) (omega arith)
ranges_from-width (x ∷ s) start at h =
    let (p, ps, e) = split-cons slash s in
    ground (
      arith,
      e,
      ranges_from-width s (suc at) (suc at) (omega arith),
      ranges_from-width s start (suc at) (omega arith),
    )

segment_ranges-width : (p : Str) → map width (segment_ranges p) ≡ map length (split slash p)
unfolding segment_ranges
segment_ranges-width p =
    let (q, qs, e) = split-cons slash p in ranges_from-width p 0 0 (omega arith) ∙ ground (arith, e)

drop_ends-inner : (rs : List Range) → drop_ends rs ≡ inner rs
drop_ends-inner [] = refl
drop_ends-inner (r ∷ rs) = refl

take-map {ℓ κ} :
    {A : Type ℓ} {B : Type κ} (f : A → B) (n : ℕ) (xs : List A)
    → take n (map f xs) ≡ map f (take n xs)
take-map f zero xs = refl
take-map f (suc n) [] = refl
take-map f (suc n) (x ∷ xs) = ap (λ l. f x ∷ l) (take-map f n xs)

length-map {ℓ κ} :
    {A : Type ℓ} {B : Type κ} (f : A → B) (xs : List A) → length (map f xs) ≡ length xs
length-map f [] = refl
length-map f (x ∷ xs) = ap suc (length-map f xs)

inner-map {ℓ κ} :
    {A : Type ℓ} {B : Type κ} (f : A → B) (xs : List A) → inner (map f xs) ≡ map f (inner xs)
inner-map f [] = refl
inner-map f (x ∷ xs) =
    ap (λ n. take (n - 1) (map f xs)) (length-map f xs) ∙ take-map f (length xs - 1) xs

any-width : (rs : List Range) → any is_empty_range rs ≡ false → All (λ n. n ≢ 0) (map width rs)
unfolding width
any-width [] h = tt
any-width ((start, end) ∷ rs) h = ground (arith, any-width rs)

length-ne : (segs : List Str) → All (λ n. n ≢ 0) (map length segs) → All (λ seg. seg ≢ []) segs
length-ne [] h = tt
length-ne (seg ∷ segs) (n, h) = (λ e. n (ap length e), length-ne segs h)

inner_full : (p : Str) → has_inner_empty p ≡ false → All (λ seg. seg ≢ []) (inner (split slash p))
unfolding has_inner_empty
inner_full p h =
    let wide =
      any-width (inner (segment_ranges p)) (rw (drop_ends-inner (segment_ranges p)) at h) in
    length-ne (inner (split slash p)) (
      subst (All (λ n. n ≢ 0))
        (sym (inner-map width (segment_ranges p))
          ∙ ap inner (segment_ranges-width p)
          ∙ inner-map length (split slash p))
        wide)

assemble-IsSafe :
    (scheme : Str) (authority : Option Str) (p : Str) (q f : Option Str)
    → NoDots p
    → has_inner_empty p ≡ false
    → IsSafe (assemble scheme authority p q f)
assemble-IsSafe scheme authority p q f clean full =
    let parts = assemble-HasParts scheme authority p q f in
    record {
      no_dots = subst (All NotDot) (sym parts.segments_are) clean;
      no_inner_empty =
          subst (λ l. All (λ seg. seg ≢ []) (inner l)) (sym parts.segments_are) (inner_full p full);
      path_split = parts.segments_are ∙ ap (split slash) (sym parts.path_is);
    }

ruled-NoDots :
    (s : Split) (authority : Option Str) (p : Str) → NoDots p → NoDots (ruled s authority p).1
ruled-NoDots s authority p h = elim (Bool-cases (by_scheme s.scheme)) [
  | inl yes_rules ↦ rw yes_rules (NoDots-by_scheme_rules s.scheme authority p h)
  | inr no_rules ↦ rw no_rules h
]

normalize_parts-IsSafe : (s : Split) (u : Uri) → normalize_parts s ≡ ok u → IsSafe u
unfolding normalize_parts
normalize_parts-IsSafe s u e =
    let (authority, _, rest) = >>=-eq-ok (traverse (λ x. unescape x other) s.authority) _ e in
    let (p, pe, rest') = >>=-eq-ok (normal_path s.raw_path) _ rest in
    let (q, f, same, full) = finish-ok s (ruled s authority p).0 (ruled s authority p).1 u rest' in
    subst IsSafe (sym same) (
      assemble-IsSafe s.scheme (ruled s authority p).0 (ruled s authority p).1 q f
        (ruled-NoDots s authority p (NoDots-normal_path s.raw_path p pe)) full)

-- Whatever `normalize` accepts, the segments of the URI are its path split at each `/`, none of
-- them is `.` or `..`, and none but the first and the last is empty.
pub normalize-IsSafe : (uri : Str) (u : Uri) → normalize uri ≡ ok u → IsSafe u
unfolding normalize
normalize-IsSafe uri u e =
    let (_, _, rest) = >>=-eq-ok (check_chars uri) _ e in
    let (found, _, rest') = >>=-eq-ok (ok_or (split_scheme uri) no_scheme) _ rest in
    normalize_parts-IsSafe (split_parts found.0 found.1) u rest'
