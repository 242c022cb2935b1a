-- ===== src/Uri/Parts/Laws.antt =====
-- The parts of an assembled URI are those it was assembled from.
use mathlib.Core.Option
use mcpdef.Prelude.{
  ℕ, suc, ◌+◌, List, [], ◌∷◌, ◌++◌, map, ◌≡◌, refl, sym, ap, ap₂, ◌∙◌, Option, none, some, ◌==◌,
  length, length-append, take, drop-append, take-append, append_assoc, append-nil, arith,
  Bool-cases, inl, inr,
}
use mcpdef.Str.{Str, slash, split, onto_first}
use mcpdef.Str.Laws.{split-cons}
use mcpdef.Uri.Parts.{
  slice, Uri, prefix, path, segments, query, fragment, ranges_from, segment_ranges, before_path,
  shift, with_part, assemble,
}

slice_middle : (a b c : Str) → slice (a ++ (b ++ c)) (length a, length a + length b) ≡ b
slice_middle a b c = ap₂ take (omega arith) (drop-append a (b ++ c)) ∙ take-append b c

regroup_one : (b c : Str) (x : ℕ) → b ++ (x ∷ c) ≡ (b ++ (x ∷ [])) ++ c
regroup_one b c x = sym (append_assoc b (x ∷ []) c)

regroup : (a b c : Str) (x : ℕ) → a ++ (b ++ (x ∷ c)) ≡ (a ++ (b ++ (x ∷ []))) ++ c
regroup a b c x = ap (λ l. a ++ l) (regroup_one b c x) ∙ sym (append_assoc a (b ++ (x ∷ [])) c)

-- A slice, from where the text is known to split.
slice_at :
    (text a b c : Str) (start end : ℕ)
    → text ≡ a ++ (b ++ c)
    → start ≡ length a
    → end ≡ length a + length b
    → slice text (start, end) ≡ b
slice_at text a b c start end e es ee = (λ i. slice (e i) (es i, ee i)) ∙ slice_middle a b c

abbrev onto : Str → List Str → List Str
onto cur [] = cur ∷ []
onto cur (p ∷ ps) = (cur ++ p) ∷ ps

-- `pre` is what was read of the text, `cur` the segment begun.
ranges_from_lem :
    (text post : Str) (base : ℕ) (s pre cur : Str) (start at : ℕ)
    → text ≡ pre ++ (cur ++ (s ++ post))
    → start + base ≡ length pre
    → at + base ≡ length pre + length cur
    → map (slice text) (map (shift base) (ranges_from start at s)) ≡ onto cur (split slash s)
unfolding ranges_from split
ranges_from_lem text post base [] pre cur start at e es ea =
    ap (λ l. l ∷ [])
      (slice_at text pre cur post (start + base) (at + base) e es ea ∙ sym (append-nil cur))
ranges_from_lem text post base (x ∷ s) pre cur start at e es ea = elim (Bool-cases (x == slash)) [
  | inl same ↦
      let here = slice_at text pre cur ((x ∷ s) ++ post) (start + base) (at + base) e es ea in
      let (p, ps, pieces) = split-cons slash s in
      let rest =
        ranges_from_lem text post base s (pre ++ (cur ++ (x ∷ []))) [] (suc at) (suc at)
          (e ∙ regroup pre cur (s ++ post) x)
          (omega (arith, length-append pre (cur ++ (x ∷ [])), length-append cur (x ∷ [])))
          (omega (arith, length-append pre (cur ++ (x ∷ [])), length-append cur (x ∷ []))) in
      rw (same, ranges_from, split)
        (ap₂ ◌∷◌ (here ∙ sym (append-nil cur)) (rest ∙ ap (onto []) pieces ∙ sym pieces))
  | inr other ↦
      let (p, ps, pieces) = split-cons slash s in
      let rest =
        ranges_from_lem text post base s pre (cur ++ (x ∷ [])) start (suc at)
          (e ∙ ap (λ l. pre ++ l) (regroup_one cur (s ++ post) x)) es
          (omega (arith, length-append cur (x ∷ []))) in
      rw (other, ranges_from, split)
        (rest
          ∙ ap (onto (cur ++ (x ∷ []))) pieces
          ∙ ap (λ l. l ∷ ps) (append_assoc cur (x ∷ []) p)
          ∙ sym (ap (λ l. onto cur (onto_first x l)) pieces))
]

abbrev tail_of : ℕ → Option Str → Str
tail_of mark none = []
tail_of mark (some part) = mark ∷ part

with_part-text :
    (mark : ℕ) (text : Str) (part : Option Str)
    → (with_part mark text part).0 ≡ text ++ tail_of mark part
with_part-text mark text none = sym (append-nil text)
with_part-text mark text (some part) = refl

-- What was put behind its mark is found there, whatever follows.
with_part-place :
    (mark : ℕ) (text : Str) (part : Option Str) (post : Str)
    → Option.map (slice ((with_part mark text part).0 ++ post)) (with_part mark text part).1 ≡ part
with_part-place mark text none post = refl
with_part-place mark text (some part) post = ap some (
    slice_at ((text ++ (mark ∷ part)) ++ post) (text ++ (mark ∷ [])) part post (suc (length text))
      (length (text ++ (mark ∷ part)))
      (append_assoc text (mark ∷ part) post ∙ sym (append_assoc text (mark ∷ []) (part ++ post)))
      (omega (arith, length-append text (mark ∷ [])))
      (omega (arith, length-append text (mark ∷ []), length-append text (mark ∷ part))))

module _ (scheme : Str) (authority : Option Str) (p : Str) (q f : Option Str) where
  abbrev front : Str
  front = before_path scheme authority

  abbrev uri : Uri
  uri = assemble scheme authority p q f

  text_lem : uri.text ≡ front ++ (p ++ (tail_of b'?' q ++ tail_of b'#' f))
  unfolding assemble
  text_lem =
      with_part-text b'#' (with_part b'?' (front ++ p) q).0 f
      ∙ ap (λ l. l ++ tail_of b'#' f) (with_part-text b'?' (front ++ p) q)
      ∙ append_assoc (front ++ p) (tail_of b'?' q) (tail_of b'#' f)
      ∙ append_assoc front p (tail_of b'?' q ++ tail_of b'#' f)

  assembled_prefix : prefix uri ≡ front
  unfolding assemble prefix
  assembled_prefix = slice_at uri.text [] front _ 0 (length front) text_lem refl (omega arith)

  assembled_path : path uri ≡ p
  unfolding assemble path
  assembled_path =
      slice_at uri.text front p _ (length front) (length (front ++ p)) text_lem refl
        (length-append front p)

  assembled_segments : segments uri ≡ split slash p
  unfolding assemble segments segment_ranges
  assembled_segments =
      let (r, rs, pieces) = split-cons slash p in
      ranges_from_lem uri.text (tail_of b'?' q ++ tail_of b'#' f) (length front) p front [] 0 0
        text_lem (omega arith) (omega arith)
      ∙ ap (onto []) pieces
      ∙ sym pieces

  assembled_query : query uri ≡ q
  unfolding assemble query
  assembled_query =
      ap (λ t. Option.map (slice t) (with_part b'?' (front ++ p) q).1)
        (with_part-text b'#' (with_part b'?' (front ++ p) q).0 f)
      ∙ with_part-place b'?' (front ++ p) q (tail_of b'#' f)

  assembled_fragment : fragment uri ≡ f
  unfolding assemble fragment
  assembled_fragment =
      ap (λ t. Option.map (slice t) (with_part b'#' (with_part b'?' (front ++ p) q).0 f).1)
        (sym (append-nil (with_part b'#' (with_part b'?' (front ++ p) q).0 f).0))
      ∙ with_part-place b'#' (with_part b'?' (front ++ p) q).0 f []

-- The accessors of an assembled URI give back what it was assembled from, and its segments are its
-- path split at each `/`.
pub record HasParts (u : Uri) (front p : Str) (q f : Option Str) : Type 0 where
  pub prefix_is : prefix u ≡ front
  pub path_is : path u ≡ p
  pub segments_are : segments u ≡ split slash p
  pub query_is : query u ≡ q
  pub fragment_is : fragment u ≡ f

pub assemble-HasParts :
    (scheme : Str) (authority : Option Str) (p : Str) (q f : Option Str)
    → HasParts (assemble scheme authority p q f) (before_path scheme authority) p q f
assemble-HasParts scheme authority p q f = record {
  prefix_is = assembled_prefix scheme authority p q f;
  path_is = assembled_path scheme authority p q f;
  segments_are = assembled_segments scheme authority p q f;
  query_is = assembled_query scheme authority p q f;
  fragment_is = assembled_fragment scheme authority p q f;
}
