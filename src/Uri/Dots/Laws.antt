-- ===== src/Uri/Dots/Laws.antt =====
-- `remove_dot_segments` ends, and leaves no dot segment.
use native.Mathlib.Nat.{le_refl}
use mcpdef.Prelude.{
  ℕ, zero, suc, ◌<◌, [], ◌∷◌, ◌++◌, ◌≡◌, ◌≢◌, ◌⊎◌, inl, inr, refl, sym, ap, subst, ◌∙◌, some,
  length, length-append, take, take-append, arith, All, All-append, append-All,
}
use mcpdef.Str.{Str, str, slash, split}
use mcpdef.Str.Laws.{Free, rfind_char-cases, split-Free, split-append}
use mcpdef.Uri.Dots.{Work, drop_last, round, remove_from, remove_dot_segments}
use mcpdef.Uri.Dots.Rounds.{
  NotDot, AtSlash, Moved, Round, clause_a, clause_b, clause_b_end, clause_c, clause_c_end, clause_d,
  clause_e, round_lem,
}

-- No segment of the path is `.` or `..`.
abbrev pub NoDots : Str → Type 0
NoDots path = All NotDot (split slash path)

List-split : (s : Str) → (s ≡ []) ⊎ ((x : ℕ) × (t : Str) × (s ≡ x ∷ t))
List-split [] = inl refl
List-split (x ∷ t) = inr (x, t, refl)

List-cases : (s : Str) → (s ≡ []) ⊎ (0 < length s)
List-cases [] = inl refl
List-cases (x ∷ t) = inr (omega arith)

NoDots-nil : NoDots []
unfolding split
NoDots-nil = ((λ e. cc e, λ e. cc e), tt)

drop_last-NoDots : (out : Str) → NoDots out → NoDots (drop_last out)
unfolding drop_last
drop_last-NoDots out h = elim (rfind_char-cases slash out) [
  | inl (e, _) ↦ rw (e, drop_last) NoDots-nil
  | inr (a, b, e, same, free) ↦
      let split_out : split slash out ≡ split slash a ++ (b ∷ []) =
        rw same (split-append slash a b free) in
      rw (e, drop_last)
        (subst NoDots (sym (ap (take (length a)) same ∙ take-append a (slash ∷ b)))
          (append-All NotDot (split slash a) (b ∷ []) (rw split_out at h)).0)
]

NoDots-append :
    (out seg : Str) → NoDots out → NotDot seg → Free slash seg → NoDots (out ++ (slash ∷ seg))
NoDots-append out seg h n free =
    rw (split-append slash out seg free) (All-append NotDot (split slash out) (seg ∷ []) h (n, tt))

NoDots-single : (seg : Str) → NotDot seg → Free slash seg → NoDots seg
NoDots-single seg n free = rw (split-Free slash seg free) (n, tt)

-- The output is free of dot segments; once it holds something, the input is at a `/` or at its end.
record Inv (w : Work) : Type 0 where
  clean : NoDots w.output
  at : (w.output ≡ []) ⊎ AtSlash w.input

not-AtSlash : (s r : Str) → (s ≡ str "../" ++ r) ⊎ (s ≡ str "./" ++ r) → ¬ AtSlash s
not-AtSlash s r (inl e) (inl e') = cc (sym e ∙ e')
not-AtSlash s r (inr e) (inl e') = cc (sym e ∙ e')
not-AtSlash s r (inl e) (inr (t, e')) = ground arith
not-AtSlash s r (inr e) (inr (t, e')) = ground arith

clause_a-Inv :
    (w : Work) (r : Str)
    → (w.input ≡ str "../" ++ r) ⊎ (w.input ≡ str "./" ++ r)
    → Inv w
    → Inv (record w { input = r })
clause_a-Inv w r e i = record {
  clean = i.clean;
  at = elim i.at [ inl o ↦ inl o | inr s ↦ absurd (not-AtSlash w.input r e s) ];
}

moved-NoDots :
    (w : Work) (m : Moved w.input)
    → NotDot m.seg
    → w.input ≢ []
    → Inv w
    → NoDots (w.output ++ (m.lead ++ m.seg))
moved-NoDots w m n ne i = elim m.lead_is [
  | inr l ↦ rw l (NoDots-append w.output m.seg i.clean n m.free)
  | inl l ↦ elim i.at [
    | inl o ↦ rw (o, l) (NoDots-single m.seg n m.free)
    | inr (inl e) ↦ absurd (ne e)
    | inr (inr (r, e)) ↦
        absurd (elim m.front [ inl l' ↦ cc (sym l ∙ l') | inr no_slash ↦ no_slash r e ])
  ]
]

clause_e-Inv :
    (w : Work) (m : Moved w.input)
    → NotDot m.seg
    → w.input ≢ []
    → Inv w
    → Inv (record { input = m.rest; output = w.output ++ (m.lead ++ m.seg) })
clause_e-Inv w m n ne i = record { clean = moved-NoDots w m n ne i; at = inr m.rest_at }

Round-Inv : (w w' : Work) → Round w w' → w.input ≢ [] → Inv w → Inv w'
Round-Inv w _ (clause_a r e) ne i = clause_a-Inv w r e i
Round-Inv w _ (clause_b r e) ne i = record { clean = i.clean; at = inr (inr (r, refl)) }
Round-Inv w _ (clause_b_end e) ne i = record { clean = i.clean; at = inr (inr ([], refl)) }
Round-Inv w _ (clause_c r e) ne i = record {
  clean = drop_last-NoDots w.output i.clean;
  at = inr (inr (r, refl));
}
Round-Inv w _ (clause_c_end e) ne i = record {
  clean = drop_last-NoDots w.output i.clean;
  at = inr (inr ([], refl));
}
Round-Inv w _ (clause_d e) ne i = record { clean = i.clean; at = inr (inl refl) }
Round-Inv w _ (clause_e m n) ne i = clause_e-Inv w m n ne i

-- A round shortens the input.
Round-shorter : (w w' : Work) → Round w w' → w.input ≢ [] → length w'.input < length w.input
Round-shorter w _ (clause_a r (inl e)) ne = omega (arith, ap length e)
Round-shorter w _ (clause_a r (inr e)) ne = omega (arith, ap length e)
Round-shorter w _ (clause_b r e) ne = omega (arith, ap length e)
Round-shorter w _ (clause_b_end e) ne = omega (arith, ap length e)
Round-shorter w _ (clause_c r e) ne = omega (arith, ap length e)
Round-shorter w _ (clause_c_end e) ne = omega (arith, ap length e)
Round-shorter w _ (clause_d (inl e)) ne = omega (arith, ap length e)
Round-shorter w _ (clause_d (inr e)) ne = omega (arith, ap length e)
Round-shorter w _ (clause_e m n) ne = elim (List-cases (m.lead ++ m.seg)) [
  | inr more ↦ omega (arith, ap length m.whole, length-append (m.lead ++ m.seg) m.rest)
  | inl nothing ↦
      let whole : w.input ≡ m.rest = m.whole ∙ ap (λ l. l ++ m.rest) nothing in
      elim m.rest_at [
        | inl end ↦ absurd (ne (whole ∙ end))
        | inr (r, e) ↦ elim m.front [
          | inl l ↦ omega (arith, ap length l, ap length nothing, length-append m.lead m.seg)
          | inr no_slash ↦ absurd (no_slash r (whole ∙ e))
        ]
      ]
]

-- The fuel is enough, and what comes out holds no dot segment.
remove_from-NoDots :
    (f : ℕ) (w : Work)
    → length w.input < f
    → Inv w
    → (out : Str) × (remove_from f w ≡ some out) × NoDots out
unfolding remove_from
remove_from-NoDots zero w h i = absurd (omega arith)
remove_from-NoDots (suc f) w h i = elim (List-split w.input) [
  | inl e ↦ (w.output, rw (e, remove_from) refl, i.clean)
  | inr (x, t, e) ↦
      let ne : w.input ≢ [] = λ e'. cc (sym e ∙ e') in
      let (out, eq, clean) =
        remove_from-NoDots f (round w) (omega (arith, Round-shorter w (round w) (round_lem w) ne))
          (Round-Inv w (round w) (round_lem w) ne i) in
      (out, rw (e, remove_from) eq, clean)
]

-- Removing the dot segments ends for every path, and no segment of what is left is `.` or `..`.
pub remove_dot_segments-NoDots :
    (path : Str) → (out : Str) × (remove_dot_segments path ≡ some out) × NoDots out
unfolding remove_dot_segments
remove_dot_segments-NoDots path =
    remove_from-NoDots (suc (length path)) (record { input = path; output = [] }) (le_refl _)
      (record { clean = NoDots-nil; at = inl refl })
