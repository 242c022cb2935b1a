-- ===== src/Glob/Overlap/Complete.antt =====
-- Where some name matches both patterns, the overlap search can reach its end.
use mcpdef.Prelude.{
  ℕ, zero, suc, ◌+◌, ◌-◌, ◌≤◌, ◌<◌, [], ◌∷◌, ◌≡◌, inl, inr, refl, sym, ap, subst, ◌∙◌, some, Bool,
  true, false, ◌==◌, ==_iff, get_elem?, get_elem?-lt, get_elem?-none, drop-get_elem?, drop-length,
  drop, length, In, arith, Option-cases,
}
use mcpdef.Str.{Str}
use mcpdef.Glob.Names.{star, NameMatches}
use mcpdef.Glob.Search.Laws.{here, there}
use mcpdef.Glob.Overlap.{Pos, take_both, at_end}
use mcpdef.Glob.Overlap.Begins.{Begins, skips, grows, takes, NameMatches-Begins, NameMatches-nil}
use mcpdef.Glob.Overlap.Moves.{InBounds, moves_first, moves_second, moves_both}
use mcpdef.Glob.Overlap.Sound.{Enough, Common, Ends}

-- What the pattern does next from position `i` on.
data Ahead (p : Str) (i : ℕ) (s : Str) : Type 0 where
  ends : length p ≤ i → s ≡ [] → Ahead p i s
  skip :
      (c : ℕ)
      → get_elem? p i ≡ some c
      → c == star ≡ true
      → NameMatches (drop (suc i) p) s
      → Ahead p i s
  grow :
      (c x : ℕ) (t : Str)
      → get_elem? p i ≡ some c
      → c == star ≡ true
      → s ≡ x ∷ t
      → NameMatches (drop i p) t
      → Ahead p i s
  take :
      (c : ℕ) (t : Str)
      → get_elem? p i ≡ some c
      → c == star ≡ false
      → s ≡ c ∷ t
      → NameMatches (drop (suc i) p) t
      → Ahead p i s

Begins-Ahead :
    (p : Str) (i c : ℕ) (s : Str)
    → get_elem? p i ≡ some c
    → Begins c (drop (suc i) p) s
    → Ahead p i s
Begins-Ahead p i c s e (skips st m) = skip c e st m
Begins-Ahead p i c s e (grows x t st same m) = grow c x t e st same (rw (drop-get_elem? p i e) m)
Begins-Ahead p i c s e (takes t ch same m) = take c t e ch same m

NameMatches-Ahead : (p : Str) (i : ℕ) (s : Str) → NameMatches (drop i p) s → Ahead p i s
NameMatches-Ahead p i s m = elim (Option-cases (get_elem? p i)) [
  | inl e ↦
      let le = get_elem?-none p i e in ends le (NameMatches-nil s (rw (drop-length p i le) at m))
  | inr (c, e) ↦
      Begins-Ahead p i c s e
        (NameMatches-Begins c (drop (suc i) p) s (rw (drop-get_elem? p i e) at m))
]

tails : {x y : ℕ} {s t u : Str} → s ≡ x ∷ t → s ≡ y ∷ u → t ≡ u
tails e e' = cc (sym e ∙ e')

heads : {x y : ℕ} {s t u : Str} → s ≡ x ∷ t → s ≡ y ∷ u → x ≡ y
heads e e' = cc (sym e ∙ e')

module _ (p q : Str) (nonempty : Bool) where
  common :
      (n : Pos) (t : Str)
      → n.2 ≡ true
      → NameMatches (drop n.0 p) t
      → NameMatches (drop n.1 q) t
      → Common p q nonempty n t
  common n t e f g = record { first = f; second = g; enough = inl e }

  -- What is left to read of the two patterns and of the name.
  abbrev left_over : Pos → Str → ℕ
  left_over n s = (length p - n.0) + (length q - n.1) + length s

  at_both_ends :
      (i j : ℕ) (taken : Bool)
      → InBounds p q (i, j, taken)
      → length p ≤ i
      → length q ≤ j
      → Enough taken nonempty []
      → at_end p q nonempty (i, j, taken) ≡ true
  at_both_ends i j taken b hi hj en = ground arith

  module _ (k : ℕ)
      (rec : (n : Pos) (s : Str)
        → left_over n s < k
        → InBounds p q n
        → Common p q nonempty n s
        → Ends p q nonempty n) where
    both :
        {i j : ℕ} {taken : Bool} {s : Str} (a d x : ℕ) (t : Str) (m : Pos)
        → get_elem? p i ≡ some a
        → get_elem? q j ≡ some d
        → s ≡ x ∷ t
        → In m (take_both (some a) (some d) (i, j, taken))
        → left_over m t < k
        → InBounds p q m
        → Common p q nonempty m t
        → Ends p q nonempty (i, j, taken)
    both {i} {j} {taken} a d x t m ea ed e h l b c =
        there (moves_both p q i j taken a d m ea ed h) (rec m t l b c)

    step :
        (i j : ℕ) (taken : Bool) (s : Str)
        → left_over (i, j, taken) s < suc k
        → InBounds p q (i, j, taken)
        → Common p q nonempty (i, j, taken) s
        → Ahead p i s
        → Ahead q j s
        → Ends p q nonempty (i, j, taken)
    step i j taken s h b c (skip a e st m) _ = there (moves_first p q i j taken a e st) (
        rec (suc i, j, taken) s (omega (arith, get_elem?-lt p i e)) (get_elem?-lt p i e, b.1)
          (record { first = m; second = c.second; enough = c.enough }))
    step i j taken s h b c _ (skip d e st m) = there (moves_second p q i j taken d e st) (
        rec (i, suc j, taken) s (omega (arith, get_elem?-lt q j e)) (b.0, get_elem?-lt q j e)
          (record { first = c.first; second = m; enough = c.enough }))
    step i j taken s h b c (ends hi e) (ends hj _) =
        here (at_both_ends i j taken b hi hj (subst (Enough taken nonempty) e c.enough))
    step i j taken s h b c (ends hi e) (grow d y u _ _ e' _) = cc (sym e ∙ e')
    step i j taken s h b c (ends hi e) (take d u _ _ e' _) = cc (sym e ∙ e')
    step i j taken s h b c (grow a x t _ _ e _) (ends hj e') = cc (sym e ∙ e')
    step i j taken s h b c (take a t _ _ e _) (ends hj e') = cc (sym e ∙ e')
    step i j taken s h b c (grow a x t ea sa e m) (grow d y u ed sd e' m') =
        both a d x t (i, j, true) ea ed e (rw (sa, sd) (inl refl)) (omega (arith, ap length e)) b
          (common (i, j, true) t refl m (rw (tails e e') m'))
    step i j taken s h b c (grow a x t ea sa e m) (take d u ed cd e' m') =
        both a d x t (i, suc j, true) ea ed e (rw (sa, cd) (inl refl)) (omega (arith, ap length e))
          (b.0, get_elem?-lt q j ed) (common (i, suc j, true) t refl m (rw (tails e e') m'))
    step i j taken s h b c (take a t ea ca e m) (grow d y u ed sd e' m') =
        both a d a t (suc i, j, true) ea ed e (rw (ca, sd) (inl refl)) (omega (arith, ap length e))
          (get_elem?-lt p i ea, b.1) (common (suc i, j, true) t refl m (rw (tails e e') m'))
    step i j taken s h b c (take a t ea ca e m) (take d u ed cd e' m') =
        both a d a t (suc i, suc j, true) ea ed e
          (rw (ca, cd, (==_iff a d).1 (heads e e')) (inl refl)) (omega (arith, ap length e))
          (get_elem?-lt p i ea, get_elem?-lt q j ed)
          (common (suc i, suc j, true) t refl m (rw (tails e e') m'))

  -- Every round moves on, or takes a character of the name.
  pub Common-Ends :
      (k : ℕ) (n : Pos) (s : Str)
      → left_over n s < k
      → InBounds p q n
      → Common p q nonempty n s
      → Ends p q nonempty n
  Common-Ends zero n s h b c = absurd (omega arith)
  Common-Ends (suc k) (i, j, taken) s h b c =
      step k (Common-Ends k) i j taken s h b c (NameMatches-Ahead p i s c.first)
        (NameMatches-Ahead q j s c.second)
