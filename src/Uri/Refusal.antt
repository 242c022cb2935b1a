-- ===== src/Uri/Refusal.antt =====
-- Why `normalize` of crates/mcpdef-policy/src/uri.rs refuses a URI, and results that may be refused.
use mcpdef.Prelude.{◌≡◌, refl, Option, none, some}

pub data Refused : Type 0 where
  no_scheme bad_escape backslash nul control encoded_separator empty_segment double_encoded :
      Refused

pub data Checked {ℓ} (A : Type ℓ) : Type ℓ where
  err : (why : Refused) → Checked A
  ok : (accepted : A) → Checked A

infixl 5 ◌>>=◌
abbrev pub ◌>>=◌ {ℓ κ} :
    {A : Type ℓ} {B : Type κ} (step : Checked A) (next : A → Checked B) → Checked B
err why >>= next = err why
ok accepted >>= next = next accepted

-- `Option::ok_or`.
abbrev pub ok_or {ℓ} : {A : Type ℓ} → Option A → Refused → Checked A
ok_or (some a) e = ok a
ok_or none e = err e

-- `Option<Result<..>>::transpose`, over a function on the option's value.
abbrev pub traverse {ℓ κ} :
    {A : Type ℓ} {B : Type κ} → (A → Checked B) → Option A → Checked (Option B)
traverse f none = ok none
traverse f (some a) = f a >>= λ b. ok (some b)

-- A bind that succeeds, taken apart.
pub >>=-eq-ok {ℓ κ} :
    {A : Type ℓ} {B : Type κ} (step : Checked A) (next : A → Checked B) {last : B}
    → (step >>= next) ≡ ok last
    → (accepted : A) × (step ≡ ok accepted) × (next accepted ≡ ok last)
>>=-eq-ok (err why) next e = cc
>>=-eq-ok (ok accepted) next e = (accepted, refl, e)

pub ok-injective {ℓ} : {A : Type ℓ} {a b : A} → ok a ≡ ok b → a ≡ b
ok-injective e = cc

pub err≢ok {ℓ} : {A : Type ℓ} {e : Refused} {a : A} → ¬ (◌≡◌ {A = Checked A} (err e) (ok a))
err≢ok h = cc
