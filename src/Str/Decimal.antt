-- ===== src/Str/Decimal.antt =====
-- The decimal text of an integer, as `Display` writes it, and the number a decimal text stands for.
use mcpdef.Prelude.{
  ℕ, zero, suc, [], ◌∷◌, ◌+◌, ◌-◌, ◌*◌, ◌/◌, ◌%◌, ◌≤◌, ◌<◌, ◌==◌, if◌then◌else◌, ◌≡◌, ◌≢◌, sym, ap,
  ◌∙◌, inl, inr, Bool-cases, ==_iff, arith,
}
use mcpdef.Str.{Str}
use mcpdef.Str.Laws.{Free}

-- The digits of `n` before the text `rest`; `n` steps are enough.
unfoldable digits : ℕ → ℕ → Str → Str
digits zero n rest = rest
digits (suc steps) n rest =
    let more = digits steps (n / 10) ((48 + n % 10) ∷ rest) in
    if n / 10 == 0 then (48 + n % 10) ∷ rest else more

unfoldable pub decimal : ℕ → Str
unfolding digits
decimal n = digits (suc n) n []

unfoldable read : ℕ → Str → ℕ
read n [] = n
read n (c ∷ s) = read (n * 10 + (c - 48)) s

read-digits :
    (steps n : ℕ) (rest : Str) → n ≤ steps → read 0 (digits (suc steps) n rest) ≡ read n rest
unfolding digits read
read-digits zero n rest h =
    rw ((==_iff (n / 10) 0).1 (omega arith)) (ap (λ v. read v rest) (omega arith))
read-digits (suc steps) n rest h = elim (Bool-cases (n / 10 == 0)) [
  | inl e ↦ rw e (ap (λ v. read v rest) (ground arith))
  | inr e ↦ rw e (
      read-digits steps (n / 10) ((48 + n % 10) ∷ rest) (ground arith)
      ∙ ap (λ v. read v rest) (ground arith))
]

pub decimal-injective : (m n : ℕ) → decimal m ≡ decimal n → m ≡ n
unfolding decimal read
decimal-injective m n e =
    sym (read-digits m m [] (omega arith)) ∙ ap (read 0) e ∙ read-digits n n [] (omega arith)

digits-Free :
    (c steps n : ℕ) (rest : Str)
    → ((d : ℕ) → 48 + d % 10 ≢ c)
    → Free c rest
    → Free c (digits steps n rest)
unfolding digits
digits-Free c zero n rest h k = k
digits-Free c (suc steps) n rest h k = elim (Bool-cases (n / 10 == 0)) [
  | inl e ↦ rw e (h n, k)
  | inr e ↦ rw e (digits-Free c steps (n / 10) ((48 + n % 10) ∷ rest) h (h n, k))
]

-- A decimal text holds no character below the digits.
pub decimal-Free : (c n : ℕ) → c < 48 → Free c (decimal n)
unfolding decimal
decimal-Free c n h = digits-Free c (suc n) n [] (λ d. omega arith) tt

-- Nor one above them.
pub decimal-Free_above : (c n : ℕ) → 57 < c → Free c (decimal n)
unfolding decimal
decimal-Free_above c n h = digits-Free c (suc n) n [] (λ d. omega arith) tt
