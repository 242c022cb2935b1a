-- ===== src/Glob/Paths/Laws.antt =====
-- `path_matches` decides what runs with `**` between them describe.
use native.Mathlib.Decide.{dec_lt}
use mcpdef.Prelude.{
  ℕ, zero, suc, ◌+◌, ◌-◌, ◌≤◌, ◌<◌, List, [], ◌∷◌, ◌++◌, map, ◌≡◌, ◌↔◌, ◌⊎◌, inl, inr, refl, sym,
  ap, ap₂, subst, ◌∙◌, none, some, true, false, false≢true, ◌&&◌, ◌||◌, not, and_iff, ltb, ◌==◌,
  ==_iff, iff_trans, iff_sym, if◌then◌else◌, length, arith, append-nil,
}
use mcpdef.Str.{Str}
use mcpdef.Glob.Pattern.{
  any_run, one, joined, Matches, done, FitsAll, FitsAll-length, Floats, Floats-leftmost,
  Matches-last_iff, EndsAfter, Matches-joined_iff,
}
use mcpdef.Glob.Paths.{
  Run, run_at, place_runs, split_last, path_matches, flat_from, flat, segments_at, SegmentFits,
}
use mcpdef.Glob.Paths.Runs.{gap-suc}
use mcpdef.Glob.Paths.Places.{
  length-segments_at, segments_at-split, segments_at-append, run_at_iff, leftmost-cases,
}

module _ (at : ℕ → Str) where
  placed :
      (run : Run) (from n : ℕ) (u v t : List Str)
      → segments_at at from n ≡ u ++ (v ++ t)
      → FitsAll SegmentFits run v
      → (run_at run (from + length u) at ≡ true) × (length u + length run ≤ n)
  placed run from n u v t e f =
      let (le, _, rest) = segments_at-split at n from u (v ++ t) e in
      let (le', ev, _) = segments_at-split at (n - length u) (from + length u) v t (sym rest) in
      (
        (run_at_iff at run (from + length u)).1 (
            subst (FitsAll SegmentFits run)
              (ev ∙ ap (segments_at at (from + length u)) (sym (FitsAll-length SegmentFits f))) f),
        omega (arith, FitsAll-length SegmentFits f),
      )

  -- The segments before, at and behind a place.
  around :
      (from k len tail : ℕ)
      → from ≤ k
      → k + len ≤ tail
      → segments_at at from (tail - from)
        ≡ segments_at at from (k - from)
          ++ (segments_at at k len ++ segments_at at (k + len) (tail - (k + len)))
  around from k len tail h h' =
      ap (segments_at at from) {x = tail - from} {y = (k - from) + (len + (tail - (k + len)))}
        (omega arith)
      ∙ segments_at-append at (k - from) (len + (tail - (k + len))) from
      ∙ ap (λ l. segments_at at from (k - from) ++ l)
          (ap (λ a. segments_at at a (len + (tail - (k + len)))) {x = from + (k - from)} {y = k}
              (omega arith)
            ∙ segments_at-append at len (tail - (k + len)) k)

  place_runs_iff :
      (middle : List Run) (from tail : ℕ)
      → from ≤ tail
      → (place_runs middle from tail at ≡ true)
        ↔ Floats SegmentFits middle (segments_at at from (tail - from))
  unfolding place_runs
  place_runs_iff [] from tail h0 = (λ _. tt, λ _. refl)
  place_runs_iff (run ∷ middle) from tail h0 = elim (leftmost-cases at run from tail) [
    | inl (e, nowhere) ↦
        rw (e, place_runs)
          (
            λ h. absurd (false≢true h),
            λ (u, v, t, eq, f, _).
                let (fits, le) = placed run from (tail - from) u v t eq f in
                absurd
                  (false≢true (sym (nowhere (from + length u) (omega arith) (omega arith)) ∙ fits)),
          )
    | inr (k, e, ge, le, fits, first) ↦
        rw (e, place_runs)
          (
            λ h. (
              segments_at at from (k - from),
              segments_at at k (length run),
              segments_at at (k + length run) (tail - (k + length run)),
              around from k (length run) tail ge le,
              (run_at_iff at run k).0 fits,
              (place_runs_iff middle (k + length run) tail le).0 h,
            ),
            λ (u, v, t, eq, f, h). (place_runs_iff middle (k + length run) tail le).1 (
                Floats-leftmost SegmentFits middle (segments_at at from (k - from))
                  (segments_at at k (length run))
                  (segments_at at (k + length run) (tail - (k + length run)))
                  ((run_at_iff at run k).0 fits) u v t
                  (sym (around from k (length run) tail ge le) ∙ eq) f
                  (not_before run from k tail u v t eq f first) h),
          )
  ]
    where
      not_before :
          (run : Run) (from k tail : ℕ) (u v t : List Str)
          → segments_at at from (tail - from) ≡ u ++ (v ++ t)
          → FitsAll SegmentFits run v
          → ((l : ℕ) → from ≤ l → l < k → run_at run l at ≡ false)
          → length (segments_at at from (k - from)) ≤ length u
      not_before run from k tail u v t eq f first = elim (dec_lt (from + length u) k) [
        | no ge ↦ omega (arith, length-segments_at at (k - from) from)
        | yes lt ↦ absurd (
            false≢true (
              sym (first (from + length u) (omega arith) lt)
              ∙ (placed run from (tail - from) u v t eq f).0))
      ]

split_last-cases :
    (rest : List Run)
    → ((split_last rest ≡ none) × (rest ≡ []))
      ⊎ ((last : Run) × (middle : List Run) × (split_last rest ≡ some (last, middle))
          × (rest ≡ middle ++ (last ∷ [])))
unfolding split_last
split_last-cases [] = inl (refl, refl)
split_last-cases (run ∷ rest) = elim (split_last-cases rest) [
  | inl (e, same) ↦ inr (run, [], rw (e, split_last) refl, ap (λ l. run ∷ l) same)
  | inr (last, middle, e, same) ↦
      inr (last, run ∷ middle, rw (e, split_last) refl, ap (λ l. run ∷ l) same)
]

flat_from-joined :
    (i : ℕ) (middle : List Run) (last : Run)
    → flat_from (suc i) (middle ++ (last ∷ [])) ≡ any_run ∷ joined middle last
unfolding flat_from
flat_from-joined i [] last = simp (gap-suc, append-nil)
flat_from-joined i (run ∷ middle) last = simp (gap-suc, flat_from-joined (suc i) middle last)

flat-joined :
    (first : Run) (middle : List Run) (last : Run)
    → flat (first ∷ (middle ++ (last ∷ []))) ≡ map one first ++ (any_run ∷ joined middle last)
unfolding flat flat_from
flat-joined first middle last = rw (flat_from-joined 0 middle last) refl

flat-single : (first : Run) → flat (first ∷ []) ≡ map one first
unfolding flat flat_from
flat-single first = append-nil (map one first)

-- The path starts with the first run, ends with the last, and the others stand between them.
module _ (at : ℕ → Str) (first last : Run) (middle : List Run) (len : ℕ) where
  abbrev Between : Type 0
  Between =
      (u : List Str) × (t : List Str) × (segments_at at 0 len ≡ u ++ t)
      × FitsAll SegmentFits first u
      × EndsAfter SegmentFits middle last t

  abbrev Placed : Type 0
  Placed =
      (length first + length last ≤ len)
      × (run_at first 0 at ≡ true)
      × (run_at last (len - length last) at ≡ true)
      × (place_runs middle (length first) (len - length last) at ≡ true)

  cut :
      (a n k b m : ℕ)
      → a + k ≡ b
      → k + m ≡ n
      → segments_at at a n ≡ segments_at at a k ++ segments_at at b m
  cut a n k b m eb en =
      ap (segments_at at a) (sym en)
      ∙ segments_at-append at k m a
      ∙ ap (λ c. segments_at at a k ++ segments_at at c m) eb

  Placed-Between : Placed → Between
  Placed-Between (le, f, l, p) =
      let tail : ℕ = len - length last in
      (
        segments_at at 0 (length first),
        segments_at at (length first) (len - length first),
        cut 0 len (length first) (length first) (len - length first) (omega arith) (omega arith),
        (run_at_iff at first 0).0 f,
        (
          segments_at at (length first) (tail - length first),
          segments_at at tail (length last),
          cut (length first) (len - length first) (tail - length first) tail (length last)
              (omega arith) (omega arith),
          (place_runs_iff at middle (length first) tail (omega arith)).0 p,
          (run_at_iff at last tail).0 l,
        ),
      )

  Between-Placed : Between → Placed
  Between-Placed (u, t, e, f, (m, v, e', h, l)) =
      let (le, eu, et) = segments_at-split at len 0 u t e in
      let (le', em, ev) = segments_at-split at (len - length u) (0 + length u) m v (sym et ∙ e') in
      let lu = FitsAll-length SegmentFits f in
      let lv = FitsAll-length SegmentFits l in
      let lv' : length v ≡ len - length u - length m =
        ap length ev
        ∙ length-segments_at at (len - length u - length m) (0 + length u + length m) in
      (
        omega arith,
        (run_at_iff at first 0).1
            (subst (FitsAll SegmentFits first) (eu ∙ ap (segments_at at 0) (sym lu)) f),
        (run_at_iff at last (len - length last)).1 (
            subst (FitsAll SegmentFits last) (ev ∙ ap₂ (segments_at at) (omega arith) (omega arith))
              l),
        (place_runs_iff at middle (length first) (len - length last) (omega arith)).1 (
            subst (Floats SegmentFits middle)
              (em ∙ ap₂ (segments_at at) (omega arith) (omega arith)) h),
      )

  -- The tests of the code, in its order.
  checks_iff :
      ((if ltb len (length first + length last) || not (run_at first 0 at)
          then false
          else if not (run_at last (len - length last) at)
          then false
          else place_runs middle (length first) (len - length last) at)
        ≡ true)
      ↔ Placed
  checks_iff = ground arith

single_iff :
    (at : ℕ → Str) (first : Run) (len : ℕ)
    → (((length first == len) && run_at first 0 at) ≡ true)
      ↔ Matches SegmentFits (flat (first ∷ [])) (segments_at at 0 len)
single_iff at first len = rw (flat-single first) (
    iff_trans
      (and_iff (length first == len) (run_at first 0 at) (==_iff (length first) len)
        (run_at_iff at first 0))
      (iff_sym (
        iff_trans (Matches-last_iff SegmentFits first (segments_at at 0 len)) (
          λ f.
              let same : length first ≡ len =
                FitsAll-length SegmentFits f ∙ length-segments_at at len 0 in
              (same, rw same f),
          λ (same, f). subst (λ n. FitsAll SegmentFits first (segments_at at 0 n)) same f,
        ))))

nothing_iff :
    (at : ℕ → Str) (len : ℕ)
    → ((len == 0) ≡ true) ↔ Matches SegmentFits (flat []) (segments_at at 0 len)
unfolding flat flat_from
nothing_iff at zero = (λ _. done, λ _. refl)
nothing_iff at (suc n) = (λ h. absurd (suc_ne ((==_iff (suc n) 0).0 h)), λ m. elim m [ ])
  where
    suc_ne : ¬ (suc n ≡ 0)
    suc_ne e = omega arith

-- `path_matches` answers true exactly if the segments that `at` gives below `len` are a path that
-- the runs describe: each run's segments one by one, and any run of segments between two runs.
pub path_matches_iff :
    (rs : List Run) (len : ℕ) (at : ℕ → Str)
    → (path_matches rs len at ≡ true) ↔ Matches SegmentFits (flat rs) (segments_at at 0 len)
unfolding path_matches
path_matches_iff [] len at = nothing_iff at len
path_matches_iff (first ∷ rest) len at = elim (split_last-cases rest) [
  | inl (e, none_left) ↦ rw (e, path_matches) (rw none_left (single_iff at first len))
  | inr (last, middle, e, same) ↦
      rw (e, path_matches)
        (rw (same, flat-joined first middle last)
          (iff_trans (checks_iff at first last middle len) (
            iff_trans
              (Placed-Between at first last middle len, Between-Placed at first last middle len)
              (iff_sym (Matches-joined_iff SegmentFits first middle last (segments_at at 0 len))))))
]
