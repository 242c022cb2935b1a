-- ===== src/Glob/Overlap/Sound.antt =====
-- Where the overlap search can reach its end, some name matches both patterns.
use mcpdef.Prelude.{
  ℕ, suc, [], ◌∷◌, ◌≡◌, ◌≢◌, ◌⊎◌, inl, inr, sym, subst, some, Bool, true, false, ◌==◌, ==_iff,
  get_elem?, drop-get_elem?, drop-length, drop, length, In, arith, Bool-cases, Option-cases,
}
use mcpdef.Str.{Str}
use mcpdef.Glob.Pattern.{done}
use mcpdef.Glob.Overlap.Begins.{skip_star, grow_star, take_char}
use mcpdef.Glob.Names.{star, NameMatches}
use mcpdef.Glob.Search.Laws.{Leads, here, there}
use mcpdef.Glob.Overlap.{Pos, take_both, at_end, pushes, cell}
use mcpdef.Glob.Overlap.Moves.{pushes-cases, first_pushes, second_pushes, both_pushes}

-- A name that both patterns match from a pair of positions on, and that is long enough.
abbrev pub Enough : Bool → Bool → Str → Type 0
Enough taken nonempty s = (taken ≡ true) ⊎ ((nonempty ≡ false) ⊎ (s ≢ []))

pub record Common (p q : Str) (nonempty : Bool) (n : Pos) (s : Str) : Type 0 where
  pub first : NameMatches (drop n.0 p) s
  pub second : NameMatches (drop n.1 q) s
  pub enough : Enough n.2 nonempty s

module _ (p q : Str) (nonempty : Bool) where
  abbrev pub Ends : Pos → Type 0
  Ends = Leads (cell q) (at_end p q nonempty) (pushes p q)

  end_positions :
      (i j : ℕ) (taken : Bool)
      → at_end p q nonempty (i, j, taken) ≡ true
      → (i ≡ length p) × (j ≡ length q) × Enough taken nonempty []
  end_positions i j taken g = ground arith

  end-Common :
      (i j : ℕ) (taken : Bool)
      → at_end p q nonempty (i, j, taken) ≡ true
      → Common p q nonempty (i, j, taken) []
  end-Common i j taken g =
      let (ei, ej, en) = end_positions i j taken g in
      record {
        first = rw (drop-length p i (omega arith)) done;
        second = rw (drop-length q j (omega arith)) done;
        enough = en;
      }

  only_one : {n m : Pos} → In m (n ∷ []) → n ≡ m
  only_one (inl e) = e
  only_one (inr h) = absurd h

  moved : {n m : Pos} {s : Str} → In m (n ∷ []) → Common p q nonempty m s → Common p q nonempty n s
  moved {s} h c = subst (λ k. Common p q nonempty k s) (sym (only_one h)) c

  Enough-cons : (x : ℕ) (s : Str) (taken : Bool) → Enough taken nonempty (x ∷ s)
  Enough-cons x s taken = inr (inr (λ e. cc e))

  first-Common :
      (i j : ℕ) (taken : Bool) (m : Pos) (s : Str)
      → In m (first_pushes p q i j taken)
      → Common p q nonempty m s
      → Common p q nonempty (i, j, taken) s
  first-Common i j taken m s h c = elim (Option-cases (get_elem? p i)) [
    | inl e ↦ absurd (rw e at h)
    | inr (a, e) ↦ elim (Bool-cases (a == star)) [
      | inr other ↦ absurd (rw (e, other) at h)
      | inl st ↦
          let c' : Common p q nonempty (suc i, j, taken) s = moved (rw (e, st) at h) c in
          record {
            first = rw (drop-get_elem? p i e) (skip_star a (drop (suc i) p) s st c'.first);
            second = c'.second;
            enough = c'.enough;
          }
    ]
  ]

  second-Common :
      (i j : ℕ) (taken : Bool) (m : Pos) (s : Str)
      → In m (second_pushes p q i j taken)
      → Common p q nonempty m s
      → Common p q nonempty (i, j, taken) s
  second-Common i j taken m s h c = elim (Option-cases (get_elem? q j)) [
    | inl e ↦ absurd (rw e at h)
    | inr (b, e) ↦ elim (Bool-cases (b == star)) [
      | inr other ↦ absurd (rw (e, other) at h)
      | inl st ↦
          let c' : Common p q nonempty (i, suc j, taken) s = moved (rw (e, st) at h) c in
          record {
            first = c'.first;
            second = rw (drop-get_elem? q j e) (skip_star b (drop (suc j) q) s st c'.second);
            enough = c'.enough;
          }
    ]
  ]

  module _ (i j : ℕ) (taken : Bool) (a b : ℕ) (e : get_elem? p i ≡ some a)
      (e' : get_elem? q j ≡ some b) where
    -- One more character, taken by what is left of each pattern.
    grown :
        (x : ℕ) (s : Str)
        → NameMatches (a ∷ drop (suc i) p) (x ∷ s)
        → NameMatches (b ∷ drop (suc j) q) (x ∷ s)
        → Common p q nonempty (i, j, taken) (x ∷ s)
    grown x s f g = record {
      first = rw (drop-get_elem? p i e) f;
      second = rw (drop-get_elem? q j e') g;
      enough = Enough-cons x s taken;
    }

    both-Common :
        (m : Pos) (s : Str)
        → In m (take_both (some a) (some b) (i, j, taken))
        → Common p q nonempty m s
        → (t : Str) × Common p q nonempty (i, j, taken) t
    both-Common m s h c = elim (Bool-cases (a == star)) [
      | inl sa ↦ elim (Bool-cases (b == star)) [
        | inl sb ↦
            let c' : Common p q nonempty (i, j, true) s = moved (rw (sa, sb) at h) c in
            (
              star ∷ s,
              grown star s
                  (grow_star a star (drop (suc i) p) s sa (rw (drop-get_elem? p i e) at c'.first))
                  (grow_star b star (drop (suc j) q) s sb
                    (rw (drop-get_elem? q j e') at c'.second)),
            )
        | inr cb ↦
            let c' : Common p q nonempty (i, suc j, true) s = moved (rw (sa, cb) at h) c in
            (
              b ∷ s,
              grown b s
                  (grow_star a b (drop (suc i) p) s sa (rw (drop-get_elem? p i e) at c'.first))
                  (take_char b (drop (suc j) q) s cb c'.second),
            )
      ]
      | inr ca ↦ elim (Bool-cases (b == star)) [
        | inl sb ↦
            let c' : Common p q nonempty (suc i, j, true) s = moved (rw (ca, sb) at h) c in
            (
              a ∷ s,
              grown a s (take_char a (drop (suc i) p) s ca c'.first)
                  (grow_star b a (drop (suc j) q) s sb (rw (drop-get_elem? q j e') at c'.second)),
            )
        | inr cb ↦ elim (Bool-cases (a == b)) [
          | inr differ ↦ absurd (rw (ca, cb, differ) at h)
          | inl same ↦
              let c' : Common p q nonempty (suc i, suc j, true) s =
                moved (rw (ca, cb, same) at h) c in
              (
                a ∷ s,
                grown a s (take_char a (drop (suc i) p) s ca c'.first)
                    (rw ((==_iff a b).0 same) (take_char b (drop (suc j) q) s cb c'.second)),
              )
        ]
      ]
    ]

  both_pushes-Common :
      (i j : ℕ) (taken : Bool) (m : Pos) (s : Str)
      → In m (both_pushes p q i j taken)
      → Common p q nonempty m s
      → (t : Str) × Common p q nonempty (i, j, taken) t
  both_pushes-Common i j taken m s h c = elim (Option-cases (get_elem? p i)) [
    | inl e ↦ absurd (rw e at h)
    | inr (a, e) ↦ elim (Option-cases (get_elem? q j)) [
      | inl e' ↦ absurd (rw (e, e') at h)
      | inr (b, e') ↦ both-Common i j taken a b e e' m s (rw (e, e') at h) c
    ]
  ]

  -- Where the search can reach its end, there is a common name.
  pub Ends-Common : (n : Pos) → Ends n → (s : Str) × Common p q nonempty n s
  Ends-Common (i, j, taken) (here g) = ([], end-Common i j taken g)
  Ends-Common (i, j, taken) (there {m = m} h l) =
      let (s, c) = Ends-Common m l in
      elim (pushes-cases p q i j taken m h) [
        | inl f ↦ (s, first-Common i j taken m s f c)
        | inr (inl g) ↦ (s, second-Common i j taken m s g c)
        | inr (inr k) ↦ both_pushes-Common i j taken m s k c
      ]
