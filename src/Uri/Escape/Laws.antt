-- ===== src/Uri/Escape/Laws.antt =====
-- Decoding escapes twice is decoding them once.
use mcpdef.Prelude.{
  subst, ℕ, ◌/◌, ◌%◌, ◌<◌, [], ◌∷◌, ◌++◌, ◌≡◌, ◌⊎◌, inl, inr, refl, sym, ◌∙◌, some, true, false,
  ◌&&◌, ◌==◌, ==_iff, arith, Bool-cases, Option-cases,
}
use mcpdef.Str.{Str}
use mcpdef.Uri.Refusal.{ok, ◌>>=◌, >>=-eq-ok, ok-injective, err≢ok}
use mcpdef.Uri.Escape.{
  Part, percent, is_path, hex_digit, hex_pair, hex_char, is_unreserved, rewritten, decode,
  escaped_twice, unescape,
}

decode-plain :
    (which : Part) (c : ℕ) (s : Str)
    → c == percent ≡ false
    → decode which (c ∷ s) ≡ (decode which s >>= λ more. ok (c ∷ more))
unfolding decode
decode-plain which c [] e = rw (e, decode)
decode-plain which c (h ∷ []) e = rw (e, decode)
decode-plain which c (h ∷ (l ∷ s)) e = rw (e, decode)

decode-escape :
    (which : Part) (h l b : ℕ) (s : Str)
    → hex_pair h l ≡ some b
    → decode which (percent ∷ h ∷ l ∷ s)
      ≡ (rewritten which b >>= λ out. decode which s >>= λ more. ok (out ++ more))
unfolding decode
decode-escape which h l b s e = rw (e, decode)

hex_digit-lt : (d v : ℕ) → hex_digit d ≡ some v → v < 16
unfolding hex_digit
hex_digit-lt d v e = ground arith

hex_digit-hex_char : (d : ℕ) → d < 16 → hex_digit (hex_char d) ≡ some d
unfolding hex_digit hex_char
hex_digit-hex_char d h = ground arith

hex_pair-lt : (h l b : ℕ) → hex_pair h l ≡ some b → b < 256
unfolding hex_pair
hex_pair-lt h l b e = ground (arith, hex_digit-lt h, hex_digit-lt l)

hex_pair-hex_char : (b : ℕ) → b < 256 → hex_pair (hex_char (b / 16)) (hex_char (b % 16)) ≡ some b
unfolding hex_pair
hex_pair-hex_char b h = ground (arith, hex_digit-hex_char (b / 16), hex_digit-hex_char (b % 16))

unreserved-ne : (b : ℕ) → is_unreserved b ≡ true → b == percent ≡ false
unfolding is_unreserved
unreserved-ne b h = ground arith

-- What an accepted escape leaves.
rewritten-cases :
    (which : Part) (b : ℕ) (out : Str)
    → rewritten which b ≡ ok out
    → ((is_unreserved b ≡ true) × (out ≡ b ∷ []))
      ⊎ (out ≡ percent ∷ hex_char (b / 16) ∷ hex_char (b % 16) ∷ [])
unfolding rewritten
rewritten-cases which b out e = ground arith

-- The same character, or the same escape, comes out of what one escape left.
rewritten-again :
    (which : Part) (b : ℕ) (out more : Str)
    → b < 256
    → rewritten which b ≡ ok out
    → decode which more ≡ ok more
    → decode which (out ++ more) ≡ ok (out ++ more)
rewritten-again which b out more lt e ih = elim (rewritten-cases which b out e) [
  | inl (plain, same) ↦ rw (same, decode-plain which b more (unreserved-ne b plain), ih) refl
  | inr same ↦
      let twice =
        decode-escape which (hex_char (b / 16)) (hex_char (b % 16)) b more
          (hex_pair-hex_char b lt) in
      rw (same, twice, e, ih, same) refl
]

plain-again :
    (which : Part) (c : ℕ) (s out : Str)
    → c == percent ≡ false
    → decode which (c ∷ s) ≡ ok out
    → ((more : Str) → decode which s ≡ ok more → decode which more ≡ ok more)
    → decode which out ≡ ok out
plain-again which c s out e h ih =
    let (more, first, same) =
      >>=-eq-ok (decode which s) (λ more. ok (c ∷ more)) (sym (decode-plain which c s e) ∙ h) in
    let out_is : c ∷ more ≡ out = ok-injective same in
    rw (← out_is, decode-plain which c more e, ih more first) refl

escape-again :
    (which : Part) (h l : ℕ) (s out : Str)
    → decode which (percent ∷ h ∷ l ∷ s) ≡ ok out
    → ((more : Str) → decode which s ≡ ok more → decode which more ≡ ok more)
    → decode which out ≡ ok out
unfolding decode
escape-again which h l s out e ih = elim (Option-cases (hex_pair h l)) [
  | inl bad ↦ absurd (err≢ok (rw (bad, decode) at e))
  | inr (b, pair) ↦
      let (first, fe, rest) =
        >>=-eq-ok (rewritten which b) _ (sym (decode-escape which h l b s pair) ∙ e) in
      let (more, me, same) = >>=-eq-ok (decode which s) (λ m. ok (first ++ m)) rest in
      let out_is : first ++ more ≡ out = ok-injective same in
      rw (← out_is) (rewritten-again which b first more (hex_pair-lt h l b pair) fe (ih more me))
]

decode-decode : (which : Part) (s out : Str) → decode which s ≡ ok out → decode which out ≡ ok out
unfolding decode
decode-decode which [] out e = rw (← ok-injective e)
decode-decode which (c ∷ []) out e = elim (Bool-cases (c == percent)) [
  | inl p ↦ absurd (err≢ok (rw (p, decode) at e))
  | inr p ↦ plain-again which c [] out p e (decode-decode which [])
]
decode-decode which (c ∷ (h ∷ [])) out e = elim (Bool-cases (c == percent)) [
  | inl p ↦ absurd (err≢ok (rw (p, decode) at e))
  | inr p ↦ plain-again which c (h ∷ []) out p e (decode-decode which (h ∷ []))
]
decode-decode which (c ∷ (h ∷ (l ∷ s))) out e = elim (Bool-cases (c == percent)) [
  | inl p ↦
      escape-again which h l s out
        (subst (λ x. decode which (x ∷ h ∷ l ∷ s) ≡ ok out) ((==_iff c percent).0 p) e)
        (decode-decode which s)
  | inr p ↦ plain-again which c (h ∷ l ∷ s) out p e (decode-decode which (h ∷ l ∷ s))
]

-- What `unescape` accepts it leaves as it is when it is given it again: nothing that it let through
-- decodes further.
pub unescape_idempotent :
    (which : Part) (part out : Str) → unescape part which ≡ ok out → unescape out which ≡ ok out
unfolding unescape
unescape_idempotent which part out e =
    let (mid, first, rest) = >>=-eq-ok (decode which part) _ e in
    elim (Bool-cases (is_path which && escaped_twice mid)) [
      | inl twice ↦ absurd (err≢ok (rw twice at rest))
      | inr once ↦
          let same : mid ≡ out = ok-injective (rw once at rest) in
          rw (← same, decode-decode which part mid first, once) refl
    ]
