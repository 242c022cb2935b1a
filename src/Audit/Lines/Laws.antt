-- ===== src/Audit/Lines/Laws.antt =====
-- What the loop over a file's records sees, and the lines of a file to which a line is added.
use mcpdef.Prelude.{
  ℕ, List, [], ◌∷◌, ◌++◌, Bool, true, false, ◌&&◌, ◌≡◌, ◌⊎◌, inl, inr, refl, sym, ap, ◌∙◌, subst,
  ◌==◌, ==_iff, eq-false_iff, Bool-cases, arith,
}
use mcpdef.Str.{Str, onto_first}
use mcpdef.Str.Laws.{Free}
use mcpdef.Audit.{Record, AuditError, ok, failed, Parsed, parsed, refused}
use mcpdef.Audit.Lines.{extend, lines, is_blank, each_record}

abbrev pub fold {ℓ κ} : {S : Type ℓ} {A : Type κ} → (S → A → S) → S → List A → S
fold step s [] = s
fold step s (x ∷ xs) = fold step (step s x) xs

pub fold-append {ℓ κ} :
    {S : Type ℓ} {A : Type κ} (step : S → A → S) (s : S) (xs ys : List A)
    → fold step s (xs ++ ys) ≡ fold step (fold step s xs) ys
fold-append step s [] ys = refl
fold-append step s (x ∷ xs) ys = fold-append step (step s x) xs ys

parsed-cases : (p : Parsed Record) → ((r : Record) × (p ≡ parsed r)) ⊎ ((d : Str) × (p ≡ refused d))
parsed-cases (parsed r) = inl (r, refl)
parsed-cases (refused d) = inr (d, refl)

failed≢ok {ℓ} : {A : Type ℓ} {e : AuditError} {a : A} → ¬ (failed e ≡ ok a)
failed≢ok h = cc h

module _ (parse : Str → Parsed Record) where
  -- The lines that are not blank are the records' texts, in order.
  abbrev pub Reads : List Str → List Record → Type 0
  Reads [] rs = rs ≡ []
  Reads (l ∷ rest) rs =
      ((is_blank l ≡ true) × Reads rest rs)
      ⊎ ((r : Record) × (rs' : List Record) × (is_blank l ≡ false)
          × (parse l ≡ parsed r)
          × (rs ≡ r ∷ rs')
          × Reads rest rs')

  pub Reads-append :
      (ls ms : List Str) (rs ss : List Record)
      → Reads ls rs
      → Reads ms ss
      → Reads (ls ++ ms) (rs ++ ss)
  Reads-append [] ms rs ss e k = subst (λ x. Reads ms (x ++ ss)) (sym e) k
  Reads-append (l ∷ ls) ms rs ss (inl (b, h)) k = inl (b, Reads-append ls ms rs ss h k)
  Reads-append (l ∷ ls) ms rs ss (inr (r, rs', b, p, e, h)) k =
      inr (r, rs' ++ ss, b, p, ap (λ x. x ++ ss) e, Reads-append ls ms rs' ss h k)

  module _ {S : Type 0} (step : S → Record → S) (line : S → ℕ) where
    -- The loop folds its body over the records.
    pub each_record-Reads :
        (ls : List Str) (rs : List Record) (s : S)
        → Reads ls rs
        → each_record parse step line ls s ≡ ok (fold step s rs)
    unfolding each_record
    each_record-Reads [] rs s e = ap (λ x. ok (fold step s x)) (sym e)
    each_record-Reads (l ∷ ls) rs s (inl (b, h)) = rw (b, each_record) (each_record-Reads ls rs s h)
    each_record-Reads (l ∷ ls) rs s (inr (r, rs', b, p, e, h)) =
        rw (b, p, each_record)
          (each_record-Reads ls rs' (step s r) h ∙ ap (λ x. ok (fold step s x)) (sym e))

    -- It ends without an error only where each line is blank or a record.
    pub each_record-ok :
        (ls : List Str) (s t : S)
        → each_record parse step line ls s ≡ ok t
        → (rs : List Record) × Reads ls rs
    unfolding each_record
    each_record-ok [] s t e = ([], refl)
    each_record-ok (l ∷ ls) s t e = elim (Bool-cases (is_blank l)) [
      | inl b ↦ let (rs, h) = each_record-ok ls s t (rw (b, each_record) at e) in (rs, inl (b, h))
      | inr b ↦ elim (parsed-cases (parse l)) [
        | inl (r, p) ↦
            let (rs, h) = each_record-ok ls (step s r) t (rw (b, p, each_record) at e) in
            (r ∷ rs, inr (r, rs, b, p, refl, h))
        | inr (d, p) ↦ absurd (failed≢ok (rw (b, p, each_record) at e))
      ]
    ]

-- The text is empty or ends in a newline.
abbrev pub IsTerminated : Str → Type 0
IsTerminated [] = Unit
IsTerminated (c ∷ []) = c ≡ 10
IsTerminated (c ∷ d ∷ s) = IsTerminated (d ∷ s)

extend-cons :
    (c : ℕ) (b : Bool) (l : Str) (ls : List Str)
    → (m : Str) × (ms : List Str) × (extend c b (l ∷ ls) ≡ m ∷ ms)
extend-cons c b l ls = elim (Bool-cases (c == 10)) [
  | inl e ↦ ([], l ∷ ls, rw e refl)
  | inr e ↦ elim (Bool-cases (c == 13 && b)) [
    | inl f ↦ (l, ls, rw (e, f) refl)
    | inr f ↦ (c ∷ l, ls, rw (e, f) refl)
  ]
]

extend-append :
    (c : ℕ) (b : Bool) (l : Str) (ls tl : List Str)
    → extend c b (l ∷ (ls ++ tl)) ≡ extend c b (l ∷ ls) ++ tl
extend-append c b l ls tl = elim (Bool-cases (c == 10)) [
  | inl e ↦ rw e refl
  | inr e ↦ elim (Bool-cases (c == 13 && b)) [ inl f ↦ rw (e, f) refl | inr f ↦ rw (e, f) refl ]
]

-- A text that is not empty has a line.
lines-cons : (c : ℕ) (s : Str) → (l : Str) × (ls : List Str) × (lines (c ∷ s) ≡ l ∷ ls)
unfolding lines
lines-cons c [] = elim (Bool-cases (c == 10)) [
  | inl e ↦ ([], [], rw e refl)
  | inr e ↦ (c ∷ [], [], ground arith)
]
lines-cons c (d ∷ s) =
    let (l, ls, e) = lines-cons d s in
    let (m, ms, f) = extend-cons c (d == 10) l ls in (m, ms, ap (extend c (d == 10)) e ∙ f)

-- Lines after a terminated text are lines of their own.
pub lines-append : (s t : Str) → IsTerminated s → lines (s ++ t) ≡ lines s ++ lines t
unfolding lines
lines-append [] t h = refl
lines-append (c ∷ []) t h = rw ((==_iff c 10).1 h) refl
lines-append (c ∷ d ∷ s) t h =
    let (l, ls, e) = lines-cons d s in
    ap (extend c (d == 10)) (lines-append (d ∷ s) t h ∙ ap (λ x. x ++ lines t) e)
    ∙ extend-append c (d == 10) l ls (lines t)
    ∙ ap (λ x. extend c (d == 10) x ++ lines t) (sym e)

-- A text without a line's end is one line.
pub lines-line : (s : Str) → Free 10 s → Free 13 s → lines (s ++ (10 ∷ [])) ≡ s ∷ []
unfolding lines
lines-line [] h k = refl
lines-line (c ∷ s) (a, h) (b, k) =
    rw ((eq-false_iff _ (==_iff c 10)).1 a, (eq-false_iff _ (==_iff c 13)).1 b)
      (ap (onto_first c) (lines-line s h k))

pub IsTerminated-append : (s t : Str) → IsTerminated (s ++ (t ++ (10 ∷ [])))
IsTerminated-append [] [] = refl
IsTerminated-append [] (c ∷ []) = refl
IsTerminated-append [] (c ∷ d ∷ t) = IsTerminated-append [] (d ∷ t)
IsTerminated-append (c ∷ []) [] = refl
IsTerminated-append (c ∷ []) (d ∷ t) = IsTerminated-append [] (d ∷ t)
IsTerminated-append (c ∷ d ∷ s) t = IsTerminated-append (d ∷ s) t
