-- ===== src/Glob/Paths/Places.antt =====
-- Where runs stand among the segments: `run_at` and `leftmost`.
use native.Mathlib.Decide.{dec_lt}
use mathlib.Core.List.{tail}
use mcpdef.Prelude.{
  ℕ, zero, suc, ◌+◌, ◌-◌, ◌≤◌, ◌<◌, List, [], ◌∷◌, ◌++◌, ◌≡◌, ◌↔◌, ◌⊎◌, inl, inr, refl, sym, ap,
  ap₂, subst, ◌∙◌, none, some, true, false, and_iff, ltb, ltb_iff, eq-false_iff, length, arith,
  Bool-cases,
}
use mcpdef.Glob.Pattern.{FitsAll, nil, cons}
use mcpdef.Glob.Paths.{Run, segment, run_at, find_start, leftmost, segments_at, SegmentFits}
use mcpdef.Str.{Str}

module _ (at : ℕ → Str) where
  pub length-segments_at : (n a : ℕ) → length (segments_at at a n) ≡ n
  length-segments_at zero a = refl
  length-segments_at (suc n) a = ap suc (length-segments_at n (suc a))

  head : {x y : Str} {s t : List Str} → x ∷ s ≡ y ∷ t → y ≡ x
  head e = cc (sym e)

  -- A split of the segments is a split of their places.
  pub segments_at-split :
      (n a : ℕ) (u t : List Str)
      → segments_at at a n ≡ u ++ t
      → (length u ≤ n)
        × (u ≡ segments_at at a (length u))
        × (t ≡ segments_at at (a + length u) (n - length u))
  segments_at-split n a [] t e =
      (omega arith, refl, sym e ∙ ap₂ (segments_at at) (omega arith) (omega arith))
  segments_at-split zero a (x ∷ u) t e = absurd (cc e)
  segments_at-split (suc n) a (x ∷ u) t e =
      let (le, eu, et) = segments_at-split n (suc a) u t (ap tail e) in
      (omega arith, ap₂ ◌∷◌ (head e) eu, et ∙ ap₂ (segments_at at) (omega arith) (omega arith))

  segments_at-suc :
      (n m a : ℕ) → segments_at at a (suc n + m) ≡ at a ∷ segments_at at (suc a) (n + m)
  segments_at-suc n m a = ap (segments_at at a) {x = suc n + m} {y = suc (n + m)} (omega arith)

  pub segments_at-append :
      (n m a : ℕ) → segments_at at a (n + m) ≡ segments_at at a n ++ segments_at at (a + n) m
  segments_at-append zero m a = ap₂ (segments_at at) (omega arith) (omega arith)
  segments_at-append (suc n) m a =
      segments_at-suc n m a
      ∙ ap (λ l. at a ∷ l)
          (segments_at-append n m (suc a)
            ∙ ap (λ k. segments_at at (suc a) n ++ segments_at at k m) (omega arith))

  pub run_at_iff :
      (run : Run) (start : ℕ)
      → (run_at run start at ≡ true) ↔ FitsAll SegmentFits run (segments_at at start (length run))
  unfolding run_at
  run_at_iff [] start = (λ _. nil, λ _. refl)
  run_at_iff (p ∷ run) start = (
    λ h.
        let (f, g) =
          (and_iff (segment p (at start)) (run_at run (suc start) at) (λ e. e, λ e. e)
              (run_at_iff run (suc start))).0
            h in
        cons f g,
    λ h.
        (and_iff (segment p (at start)) (run_at run (suc start) at) (λ e. e, λ e. e)
            (run_at_iff run (suc start))).1
          (uncons h),
  )
    where
      uncons :
          {s : List Str} {x : Str}
          → FitsAll SegmentFits (p ∷ run) (x ∷ s)
          → SegmentFits p x × FitsAll SegmentFits run s
      uncons (cons f g) = (f, g)

  later :
      (run : Run) (start k : ℕ)
      → run_at run start at ≡ false
      → (suc start ≤ k → run_at run k at ≡ false)
      → start ≤ k
      → run_at run k at ≡ false
  later run start k away after le = elim (dec_lt start k) [
    | yes lt ↦ after lt
    | no ge ↦ subst (λ l. run_at run l at ≡ false) (omega arith) away
  ]

  find_start-cases :
      (n : ℕ) (run : Run) (start : ℕ)
      → ((find_start n run start at ≡ none)
          × ((k : ℕ) → start ≤ k → k < start + n → run_at run k at ≡ false))
        ⊎ ((k : ℕ) × (find_start n run start at ≡ some k)
            × (start ≤ k)
            × (k < start + n)
            × (run_at run k at ≡ true)
            × ((l : ℕ) → start ≤ l → l < k → run_at run l at ≡ false))
  unfolding find_start
  find_start-cases zero run start = inl (refl, λ k h h'. absurd (omega arith))
  find_start-cases (suc n) run start = elim (Bool-cases (run_at run start at)) [
    | inl here ↦ inr (
      start,
      rw (here, find_start),
      omega arith,
      omega arith,
      here,
      λ l h h'. absurd (omega arith),
    )
    | inr away ↦ elim (find_start-cases n run (suc start)) [
      | inl (e, no_place) ↦ inl (
        rw (away, find_start) e,
        λ k h h'. later run start k away (λ g. no_place k g (omega arith)) h,
      )
      | inr (k, e, ge, lt, fits, first) ↦ inr (
        k,
        rw (away, find_start) e,
        omega arith,
        omega arith,
        fits,
        λ l h h'. later run start l away (λ g. first l g h') h,
      )
    ]
  ]

  -- `leftmost` finds the first start where the run fits between `from` and `to`, or there is none.
  pub leftmost-cases :
      (run : Run) (from to : ℕ)
      → ((leftmost run from to at ≡ none)
          × ((k : ℕ) → from ≤ k → k + length run ≤ to → run_at run k at ≡ false))
        ⊎ ((k : ℕ) × (leftmost run from to at ≡ some k)
            × (from ≤ k)
            × (k + length run ≤ to)
            × (run_at run k at ≡ true)
            × ((l : ℕ) → from ≤ l → l < k → run_at run l at ≡ false))
  unfolding leftmost
  leftmost-cases run from to = elim (Bool-cases (ltb to (length run))) [
    | inl short ↦
        let lt = (ltb_iff to (length run)).0 short in
        inl (rw (short, leftmost) refl, λ k h h'. absurd (omega arith))
    | inr long ↦
        let le = (eq-false_iff (ltb to (length run)) (ltb_iff to (length run))).0 long in
        elim (find_start-cases (suc (to - length run) - from) run from) [
          | inl (e, no_place) ↦ inl (rw (long, leftmost) e, λ k h h'. no_place k h (omega arith))
          | inr (k, e, ge, lt, fits, first) ↦
              inr (k, rw (long, leftmost) e, ge, omega arith, fits, first)
        ]
  ]
