-- ===== src/Uri/Dots/Rounds.antt =====
-- What one round of `remove_dot_segments` does, case by case.
use mcpdef.Prelude.{
  ℕ, ◌+◌, [], ◌∷◌, ◌++◌, ◌≡◌, ◌≢◌, ◌⊎◌, inl, inr, refl, sym, ap, ap₂, append_assoc, ◌∙◌, none, some,
  Bool, true, false, false≢true, ◌||◌, length, drop, take, take-append, take-length, drop-append,
  drop-length, length-append, append-nil, arith, Bool-cases, subst, ◌==◌, ==_iff, Option-cases,
  if◌then◌else◌, if_cases, or_iff,
}
use native.Mathlib.Nat.{le_refl}
use mcpdef.Str.{Str, str, str_eq, slash, strip_prefix, starts_with, find_char}
use mcpdef.Str.Laws.{str_eq_iff, strip_prefix_iff, Free, find_char-cases}
use mcpdef.Uri.Dots.{Work, segment_end, segment_end_from, drop_last, round}

-- Neither `.` nor `..`.
abbrev pub NotDot : Str → Type 0
NotDot seg = (seg ≢ str ".") × (seg ≢ str "..")

-- The input is at its end, or at a `/`.
abbrev pub AtSlash : Str → Type 0
AtSlash s = (s ≡ []) ⊎ ((r : Str) × (s ≡ slash ∷ r))

starts_with-true : (p s : Str) → starts_with p s ≡ true → (t : Str) × (s ≡ p ++ t)
unfolding starts_with
starts_with-true p s h = elim (Option-cases (strip_prefix p s)) [
  | inl e ↦ absurd (false≢true (rw e at h))
  | inr (t, e) ↦ (t, (strip_prefix_iff p s t).0 e)
]

starts_with-false : (p s t : Str) → starts_with p s ≡ false → s ≢ p ++ t
unfolding starts_with
starts_with-false p s t h e =
    let found = (strip_prefix_iff p s t).1 e in false≢true (sym (rw found at h))

-- The segment that E moves, with its leading `/` if it has one.
pub record Moved (input : Str) : Type 0 where
  pub lead : Str
  pub seg : Str
  pub rest : Str
  pub lead_is : (lead ≡ []) ⊎ (lead ≡ str "/")
  pub front : (lead ≡ str "/") ⊎ ((r : Str) → input ≢ slash ∷ r)
  pub whole : input ≡ (lead ++ seg) ++ rest
  pub free : Free slash seg
  pub rest_at : AtSlash rest
  pub taken : take (segment_end input) input ≡ lead ++ seg
  pub left : drop (segment_end input) input ≡ rest

segment_of :
    (lead body : Str)
    → (lead ≡ []) ⊎ (lead ≡ str "/")
    → (lead ≡ str "/") ⊎ ((r : Str) → lead ++ body ≢ slash ∷ r)
    → segment_end (lead ++ body) ≡ (elim (find_char slash body) as (λ _. ℕ) [
      | some at ↦ at + length lead
      | none ↦ length (lead ++ body)
    ])
    → Moved (lead ++ body)
segment_of lead body kind front e = elim (find_char-cases slash body) [
  | inl (missing, free) ↦
      let all : segment_end (lead ++ body) ≡ length (lead ++ body) = e ∙ (rw missing) in
      record {
        lead = lead;
        seg = body;
        rest = [];
        lead_is = kind;
        front = front;
        whole = sym (append-nil (lead ++ body));
        free = free;
        rest_at = inl refl;
        taken = rw all (take-length (lead ++ body));
        left = rw all (drop-length (lead ++ body) _ (le_refl _));
      }
  | inr (seg, rest, found, same, free) ↦
      let end : segment_end (lead ++ body) ≡ length (lead ++ seg) =
        e ∙ rw found (omega (arith, length-append lead seg)) in
      let whole : lead ++ body ≡ (lead ++ seg) ++ (slash ∷ rest) =
        ap (λ l. lead ++ l) same ∙ sym (append_assoc lead seg (slash ∷ rest)) in
      record {
        lead = lead;
        seg = seg;
        rest = slash ∷ rest;
        lead_is = kind;
        front = front;
        whole = whole;
        free = free;
        rest_at = inr (rest, refl);
        taken = ap₂ take end whole ∙ take-append (lead ++ seg) (slash ∷ rest);
        left = ap₂ drop end whole ∙ drop-append (lead ++ seg) (slash ∷ rest);
      }
]

start_other : (x : ℕ) (t : Str) → slash == x ≡ false → starts_with (str "/") (x ∷ t) ≡ false
unfolding starts_with strip_prefix
start_other x t other = ground arith

no_slash : (x : ℕ) (t : Str) → slash == x ≡ false → (r : Str) → x ∷ t ≢ slash ∷ r
no_slash x t other r e = ground arith

moved : (input : Str) → Moved input
unfolding segment_end starts_with strip_prefix
moved [] = segment_of [] [] (inl refl) (inr (λ r e. cc e)) refl
moved (x ∷ t) = elim (Bool-cases (slash == x)) [
  | inl same ↦
      let e : slash ≡ x = (==_iff slash x).0 same in
      subst (λ c. Moved (c ∷ t)) e (segment_of (str "/") t (inr refl) (inl refl) refl)
  | inr other ↦
      segment_of [] (x ∷ t) (inl refl) (inr (no_slash x t other))
        (ap (λ b. segment_end_from (x ∷ t) (if b then 1 else 0)) (start_other x t other))
]

-- What the rounds do, with the clauses of RFC 3986.
pub data Round (w : Work) : Work → Type 0 where
  clause_a :
      (r : Str)
      → (w.input ≡ str "../" ++ r) ⊎ (w.input ≡ str "./" ++ r)
      → Round w (record w { input = r })
  clause_b : (r : Str) → w.input ≡ str "/./" ++ r → Round w (record w { input = slash ∷ r })
  clause_b_end : w.input ≡ str "/." → Round w (record w { input = str "/" })
  clause_c :
      (r : Str)
      → w.input ≡ str "/../" ++ r
      → Round w (record { input = slash ∷ r; output = drop_last w.output })
  clause_c_end :
      w.input ≡ str "/.." → Round w (record { input = str "/"; output = drop_last w.output })
  clause_d : (w.input ≡ str ".") ⊎ (w.input ≡ str "..") → Round w (record w { input = [] })
  clause_e :
      (m : Moved w.input)
      → NotDot m.seg
      → Round w (record { input = m.rest; output = w.output ++ (m.lead ++ m.seg) })

-- None of the tests of the earlier clauses passed.
record Plain (s : Str) : Type 0 where
  no_up : (r : Str) → s ≢ str "../" ++ r
  no_here : (r : Str) → s ≢ str "./" ++ r
  no_slash_here : (r : Str) → s ≢ str "/./" ++ r
  no_slash_here_end : s ≢ str "/."
  no_slash_up : (r : Str) → s ≢ str "/../" ++ r
  no_slash_up_end : s ≢ str "/.."
  no_dot : s ≢ str "."
  no_dots : s ≢ str ".."

Moved-NotDot : (s : Str) → Plain s → (m : Moved s) → NotDot m.seg
Moved-NotDot s p m = (
  λ e. elim m.lead_is [
    | inl l ↦ elim m.rest_at [
      | inl end ↦ p.no_dot (m.whole ∙ parts l e end)
      | inr (r, more) ↦ p.no_here r (m.whole ∙ parts l e more)
    ]
    | inr l ↦ elim m.rest_at [
      | inl end ↦ p.no_slash_here_end (m.whole ∙ parts l e end)
      | inr (r, more) ↦ p.no_slash_here r (m.whole ∙ parts l e more)
    ]
  ],
  λ e. elim m.lead_is [
    | inl l ↦ elim m.rest_at [
      | inl end ↦ p.no_dots (m.whole ∙ parts l e end)
      | inr (r, more) ↦ p.no_up r (m.whole ∙ parts l e more)
    ]
    | inr l ↦ elim m.rest_at [
      | inl end ↦ p.no_slash_up_end (m.whole ∙ parts l e end)
      | inr (r, more) ↦ p.no_slash_up r (m.whole ∙ parts l e more)
    ]
  ],
)
  where
    parts : {l l' g g' r r' : Str} → l ≡ l' → g ≡ g' → r ≡ r' → (l ++ g) ++ r ≡ (l' ++ g') ++ r'
    parts a b c = λ i. (a i ++ b i) ++ c i

eq-false : (s t : Str) → str_eq s t ≡ false → s ≢ t
eq-false s t h e = false≢true (sym h ∙ (str_eq_iff s t).1 e)

strip_prefix-none : (p s t : Str) → strip_prefix p s ≡ none → s ≢ p ++ t
strip_prefix-none p s t h e = cc (h, (strip_prefix_iff p s t).1 e)

or-false : {a b : Bool} → a || b ≡ false → (a ≡ false) × (b ≡ false)
or-false h = ground arith

-- The tests of a round, in its order.
module _ (w : Work) where
  abbrev keeps : Work
  keeps = record {
    input = drop (segment_end w.input) w.input;
    output = w.output ++ take (segment_end w.input) w.input;
  }

  keeps-Round : Plain w.input → Round w keeps
  keeps-Round p =
      let m = moved w.input in
      subst (Round w) (λ i. record { input = sym m.left i; output = w.output ++ sym m.taken i })
        (clause_e m (Moved-NotDot w.input p m))

  up_Round :
      starts_with (str "/../") w.input || str_eq w.input (str "/..") ≡ true
      → Round w (record {
        input = if str_eq w.input (str "/..") then str "/" else drop 3 w.input;
        output = drop_last w.output;
      })
  up_Round h = elim (Bool-cases (str_eq w.input (str "/.."))) [
    | inl e ↦ rw e (clause_c_end ((str_eq_iff w.input (str "/..")).0 e))
    | inr e ↦
        let (r, same) = starts_with-true (str "/../") w.input (ground arith) in
        rw e (
          subst (λ s. Round w (record { input = drop 3 s; output = drop_last w.output })) (sym same)
            (clause_c r same))
  ]

  here_Round :
      starts_with (str "/./") w.input ≡ true → Round w (record w { input = drop 2 w.input })
  here_Round h =
      let (r, same) = starts_with-true (str "/./") w.input h in
      subst (λ s. Round w (record w { input = drop 2 s })) (sym same) (clause_b r same)

  dot_Round :
      str_eq w.input (str ".") || str_eq w.input (str "..") ≡ true
      → Round w (record w { input = [] })
  dot_Round h =
      clause_d ((or_iff _ _ (str_eq_iff w.input (str ".")) (str_eq_iff w.input (str ".."))).0 h)

pub round_lem : (w : Work) → Round w (round w)
unfolding round
round_lem w = elim (Option-cases (strip_prefix (str "../") w.input)) [
  | inr (r, e) ↦ rw (e, round) (clause_a r (inl ((strip_prefix_iff (str "../") w.input r).0 e)))
  | inl up ↦ elim (Option-cases (strip_prefix (str "./") w.input)) [
    | inr (r, e) ↦
        rw (up, e, round) (clause_a r (inr ((strip_prefix_iff (str "./") w.input r).0 e)))
    | inl here ↦
        rw (up, here, round)
          (if_cases (Round w) (starts_with (str "/./") w.input) _ _ (here_Round w) λ b.
            if_cases (Round w) (str_eq w.input (str "/.")) _ _
              (λ e. clause_b_end ((str_eq_iff w.input (str "/.")).0 e))
              λ be.
                if_cases (Round w) (starts_with (str "/../") w.input || str_eq w.input (str "/.."))
                  _ _ (up_Round w)
                  λ c.
                    if_cases (Round w) (str_eq w.input (str ".") || str_eq w.input (str "..")) _ _
                      (dot_Round w)
                      λ d. keeps-Round w (record {
                        no_up = λ r. strip_prefix-none (str "../") w.input r up;
                        no_here = λ r. strip_prefix-none (str "./") w.input r here;
                        no_slash_here = λ r. starts_with-false (str "/./") w.input r b;
                        no_slash_here_end = eq-false w.input (str "/.") be;
                        no_slash_up = λ r. starts_with-false (str "/../") w.input r (or-false c).0;
                        no_slash_up_end = eq-false w.input (str "/..") (or-false c).1;
                        no_dot = eq-false w.input (str ".") (or-false d).0;
                        no_dots = eq-false w.input (str "..") (or-false d).1;
                      }))
  ]
]
