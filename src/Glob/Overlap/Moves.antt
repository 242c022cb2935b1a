-- ===== src/Glob/Overlap/Moves.antt =====
-- The moves of the search: what a push costs and where it stays, and which pushes there are.
use native.Mathlib.Decide.{dec_lt}
use mcpdef.Prelude.{
  ℕ, suc, ◌+◌, ◌*◌, ◌≤◌, ◌<◌, List, ◌++◌, ◌≡◌, ◌⊎◌, inl, inr, refl, ap, Option, none, some, Bool,
  true, false, ◌==◌, get_elem?, get_elem?-lt, length, All, In, In-append, In-append_left,
  In-append_right, All-append, arith,
}
use mcpdef.Str.{Str}
use mcpdef.Glob.Names.{star}
use mcpdef.Glob.Overlap.{
  Pos, bit, cell, skip_first, skip_second, take_both, at_end, pushes, table_size,
}
use mcpdef.Glob.Search.Laws.{IsBounded}

abbrev pub InBounds : Str → Str → Pos → Type 0
InBounds p q (i, j, taken) = (i ≤ length p) × (j ≤ length q)

row_bound : (i j w h : ℕ) → i ≤ h → j ≤ w → i * suc w + j < suc h * suc w
row_bound i j w h hi hj = grind arith

row_step : (i i' w : ℕ) → i < i' → i * suc w + suc w ≤ i' * suc w
row_step i i' w h = grind arith

row_unique :
    (i j i' j' w : ℕ) → j ≤ w → j' ≤ w → i * suc w + j ≡ i' * suc w + j' → (i ≡ i') × (j ≡ j')
row_unique i j i' j' w h h' e = elim (dec_lt i i') [
  | yes lt ↦ absurd (omega (arith, row_step i i' w lt))
  | no ge ↦ elim (dec_lt i' i) [
    | yes gt ↦ absurd (omega (arith, row_step i' i w gt))
    | no le ↦ let same : i ≡ i' = omega arith in (same, omega (arith, ap (λ k. k * suc w) same))
  ]
]

few_pushes : (p q : Str) (n : Pos) → length (pushes p q n) ≤ 3
unfolding pushes
few_pushes p q (i, j, taken) = ground arith

module _ (p q : Str) (i j : ℕ) (taken : Bool) (h : InBounds p q (i, j, taken)) where
  skip_first-InBounds :
      (a : Option ℕ) → get_elem? p i ≡ a → All (InBounds p q) (skip_first a (i, j, taken))
  skip_first-InBounds none e = tt
  skip_first-InBounds (some c) e = ground (arith, get_elem?-lt p i e)

  skip_second-InBounds :
      (b : Option ℕ) → get_elem? q j ≡ b → All (InBounds p q) (skip_second b (i, j, taken))
  skip_second-InBounds none e = tt
  skip_second-InBounds (some d) e = ground (arith, get_elem?-lt q j e)

  take_both-InBounds :
      (a b : Option ℕ)
      → get_elem? p i ≡ a
      → get_elem? q j ≡ b
      → All (InBounds p q) (take_both a b (i, j, taken))
  take_both-InBounds none b e e' = tt
  take_both-InBounds (some c) none e e' = tt
  take_both-InBounds (some c) (some d) e e' =
      ground (arith, get_elem?-lt p i e, get_elem?-lt q j e')

pushes-InBounds : (p q : Str) (n : Pos) → InBounds p q n → All (InBounds p q) (pushes p q n)
unfolding pushes
pushes-InBounds p q (i, j, taken) h =
    All-append (InBounds p q) _ _ (skip_first-InBounds p q i j taken h _ refl) (
      All-append (InBounds p q) _ _ (skip_second-InBounds p q i j taken h _ refl)
        (take_both-InBounds p q i j taken h _ _ refl refl))

cell-lt : (p q : Str) (n : Pos) → InBounds p q n → cell q n < table_size p q
cell-lt p q (i, j, true) h = omega (arith, row_bound i j (length q) (length p) h.0 h.1)
cell-lt p q (i, j, false) h = omega (arith, row_bound i j (length q) (length p) h.0 h.1)

bit_unique : (r r' : ℕ) (t t' : Bool) → 2 * r + bit t ≡ 2 * r' + bit t' → (r ≡ r') × (t ≡ t')
bit_unique r r' true true e = (omega arith, refl)
bit_unique r r' true false e = absurd (omega arith)
bit_unique r r' false true e = absurd (omega arith)
bit_unique r r' false false e = (omega arith, refl)

cell_unique :
    (p q : Str) (n m : Pos) → InBounds p q n → InBounds p q m → cell q n ≡ cell q m → n ≡ m
cell_unique p q (i, j, t) (i', j', t') h h' e =
    let (row, same) = bit_unique (i * suc (length q) + j) (i' * suc (length q) + j') t t' e in
    let (ei, ej) = row_unique i j i' j' (length q) h.1 h'.1 row in λ k. (ei k, ej k, same k)

-- Each pair of positions has a cell of its own, and no push leaves the table.
pub pushes-IsBounded :
    (p q : Str) (nonempty : Bool)
    → IsBounded (cell q) (at_end p q nonempty) (pushes p q) (InBounds p q) (table_size p q)
pushes-IsBounded p q nonempty = record {
  fits = cell-lt p q;
  apart = cell_unique p q;
  kept = pushes-InBounds p q;
  few = few_pushes p q;
}

-- The pushes that there are.
module _ (p q : Str) (i j : ℕ) (taken : Bool) where
  abbrev pub first_pushes : List Pos
  first_pushes = skip_first (get_elem? p i) (i, j, taken)

  abbrev pub second_pushes : List Pos
  second_pushes = skip_second (get_elem? q j) (i, j, taken)

  abbrev pub both_pushes : List Pos
  both_pushes = take_both (get_elem? p i) (get_elem? q j) (i, j, taken)

  pub moves_first :
      (a : ℕ)
      → get_elem? p i ≡ some a
      → a == star ≡ true
      → In (suc i, j, taken) (pushes p q (i, j, taken))
  unfolding pushes
  moves_first a e s =
      In-append_left {A = Pos} (suc i, j, taken) first_pushes (second_pushes ++ both_pushes)
        (rw (e, s) (inl refl))

  pub moves_second :
      (b : ℕ)
      → get_elem? q j ≡ some b
      → b == star ≡ true
      → In (i, suc j, taken) (pushes p q (i, j, taken))
  unfolding pushes
  moves_second b e s =
      In-append_right {A = Pos} (i, suc j, taken) first_pushes (second_pushes ++ both_pushes)
        (In-append_left {A = Pos} (i, suc j, taken) second_pushes both_pushes
          (rw (e, s) (inl refl)))

  -- A push is one of the three kinds.
  pub pushes-cases :
      (m : Pos)
      → In m (pushes p q (i, j, taken))
      → In m first_pushes ⊎ (In m second_pushes ⊎ In m both_pushes)
  unfolding pushes
  pushes-cases m h = elim (In-append m first_pushes (second_pushes ++ both_pushes) h) [
    | inl a ↦ inl a
    | inr r ↦ inr (In-append m second_pushes both_pushes r)
  ]

  pub moves_both :
      (a b : ℕ) (m : Pos)
      → get_elem? p i ≡ some a
      → get_elem? q j ≡ some b
      → In m (take_both (some a) (some b) (i, j, taken))
      → In m (pushes p q (i, j, taken))
  unfolding pushes
  moves_both a b m e e' h =
      In-append_right m (skip_first (get_elem? p i) _) _
        (In-append_right m (skip_second (get_elem? q j) _) _ (rw (e, e') h))
