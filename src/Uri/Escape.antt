-- ===== src/Uri/Escape.antt =====
-- Percent escapes: `unescape`, `escaped_twice` and `hex_pair` of crates/mcpdef-policy/src/uri.rs.
-- The source reads bytes and copies whole characters; an escape's digits are ASCII, so reading
-- characters finds the same escapes.
pub mod Laws
use mathlib.Core.Option
use mcpdef.Prelude.{
  ℕ, zero, suc, ◌+◌, ◌-◌, ◌*◌, ◌/◌, ◌%◌, List, [], ◌∷◌, ◌++◌, Option, none, some, Bool, true, false,
  ◌&&◌, ◌||◌, leb, ◌==◌, if◌then◌else◌,
}
use mcpdef.Str.{Str, is_ascii_alphanumeric}
use mcpdef.Uri.Refusal.{
  Refused, bad_escape, nul, encoded_separator, double_encoded, Checked, ok, err, ◌>>=◌, ok_or,
}

pub data Part : Type 0 where
  path other : Part

abbrev pub percent : ℕ
percent = b'%'

abbrev pub is_path : Part → Bool
is_path path = true
is_path other = false

-- `char::to_digit(16)`.
unfoldable pub hex_digit : ℕ → Option ℕ
hex_digit d =
    if leb b'0' d && leb d b'9'
    then some (d - b'0')
    else if leb b'A' d && leb d b'F'
    then some (d - 55)
    else if leb b'a' d && leb d b'f'
    then some (d - 87)
    else none

-- The byte two hex digits spell.
unfoldable pub hex_pair : ℕ → ℕ → Option ℕ
unfolding hex_digit
hex_pair hi lo = elim (hex_digit hi) [
  | none ↦ none
  | some h ↦ Option.map (λ l. h * 16 + l) (hex_digit lo)
]

-- The table `HEX`.
unfoldable pub hex_char : ℕ → ℕ
hex_char d = if leb d 9 then d + b'0' else d + 55

unfoldable pub is_unreserved : ℕ → Bool
unfolding is_ascii_alphanumeric
is_unreserved b = is_ascii_alphanumeric b || (b == b'-' || (b == b'.' || (b == b'_' || b == b'~')))

abbrev pub is_separator : ℕ → Bool
is_separator b = b == b'/' || b == 92

-- What one escape leaves in the output, or why it is refused.
unfoldable pub rewritten : Part → ℕ → Checked Str
unfolding hex_char is_unreserved
rewritten which b =
    if b == 0
    then err nul
    else if is_separator b && is_path which
    then err encoded_separator
    else if is_unreserved b
    then ok (b ∷ [])
    else ok (percent ∷ hex_char (b / 16) ∷ hex_char (b % 16) ∷ [])

-- The loop of `unescape`.
unfoldable pub decode : Part → Str → Checked Str
unfolding hex_pair rewritten
decode which [] = ok []
decode which (c ∷ []) = if c == percent then err bad_escape else ok (c ∷ [])
decode which (c ∷ h ∷ []) =
    let rest = decode which (h ∷ []) in
    if c == percent then err bad_escape else (rest >>= λ more. ok (c ∷ more))
decode which (c ∷ h ∷ l ∷ s) =
    let escaped = ok_or (hex_pair h l) bad_escape >>= λ b.
    rewritten which b >>= λ out. decode which s >>= λ more. ok (out ++ more) in
    let plain = decode which (h ∷ l ∷ s) >>= λ more. ok (c ∷ more) in
    if c == percent then escaped else plain

-- What a second decode takes to a dot, a separator, a NUL or another `%`.
abbrev pub is_risky : ℕ → Bool
is_risky b = b == 0 || (b == b'.' || (is_separator b || b == percent))

abbrev pub spells : (ℕ → Bool) → Option ℕ → Bool
spells p none = false
spells p (some b) = p b

-- One window of five.
unfoldable pub twice_here : ℕ → ℕ → ℕ → ℕ → ℕ → Bool
unfolding hex_pair
twice_here w0 w1 w2 w3 w4 =
    w0 == percent
    && (spells (λ b. b == percent) (hex_pair w1 w2) && spells is_risky (hex_pair w3 w4))

unfoldable pub escaped_twice : Str → Bool
unfolding twice_here
escaped_twice (w0 ∷ w1 ∷ w2 ∷ w3 ∷ w4 ∷ s) =
    twice_here w0 w1 w2 w3 w4 || escaped_twice (w1 ∷ w2 ∷ w3 ∷ w4 ∷ s)
escaped_twice s = false

unfoldable pub unescape : Str → Part → Checked Str
unfolding decode escaped_twice
unescape part which = decode which part >>= λ out.
    if is_path which && escaped_twice out then err double_encoded else ok out
