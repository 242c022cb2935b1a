-- ===== src/Wire/Headers/Codec.antt =====
-- The encoding of a header's value is undone by the decoding, and a header can carry it.
use mcpdef.Prelude.{
  ℕ, List, [], ◌∷◌, ◌++◌, none, some, Bool, true, false, not, ◌||◌, ◌≡◌, ◌≢◌, inl, inr, refl, sym,
  ap, ◌∙◌, all, append_assoc, Bool-cases, Option-cases, arith, false≢true,
}
use mcpdef.Str.{Str, strip_prefix, strip_suffix, starts_with}
use mcpdef.Str.Laws.{strip_prefix_iff, strip_suffix-append, strip_suffix-some}
use mcpdef.Wire.Headers.{
  sentinel_open, sentinel_close, ok, bytes, Codecs, is_safe_char, is_header_safe, needs_encoding,
  starts_blank, ends_blank, inner_of, encode_header_value, decode_header_value, decoded_inner,
  decoded_bytes, decoded_text,
}

last-true : (a b c : Bool) → (a || b || c || true) ≢ false
last-true true b c e = false≢true (sym e)
last-true false true c e = false≢true (sym e)
last-true false false true e = false≢true (sym e)
last-true false false false e = false≢true (sym e)

left-false : (a b : Bool) → (a || b) ≡ false → a ≡ false
left-false true b e = e
left-false false b e = refl

all-append : (p : ℕ → Bool) (s t : Str) → all p s ≡ true → all p t ≡ true → all p (s ++ t) ≡ true
all-append p [] t h k = k
all-append p (c ∷ s) t h k = ground (arith, all-append p s t)

plain_safe : (v : Str) → needs_encoding v ≡ false → is_header_safe v ≡ true
unfolding needs_encoding
plain_safe v e =
    let blank = not (is_header_safe v) || starts_blank v in
    let first =
      left-false (not (is_header_safe v)) (starts_blank v)
        (left-false blank (ends_blank v) (left-false (blank || ends_blank v) _ e)) in
    ground (arith, first)

-- A text that is not stripped of the sentinel: where it would be, it needs an encoding.
inner_of-none :
    (v : Str) → needs_encoding v ≡ false → inner_of (strip_prefix sentinel_open v) ≡ none
unfolding needs_encoding starts_with
inner_of-none v e = elim (Option-cases (strip_prefix sentinel_open v)) [
  | inl p ↦ ap inner_of p
  | inr (rest, p) ↦ elim (Option-cases (strip_suffix sentinel_close rest)) [
    | inl q ↦ ap inner_of p ∙ q
    | inr (inner, q) ↦
        let whole : v ≡ (sentinel_open ++ inner) ++ sentinel_close =
          (strip_prefix_iff sentinel_open v rest).0 p
          ∙ ap (λ x. sentinel_open ++ x) (strip_suffix-some sentinel_close rest inner q)
          ∙ sym (append_assoc sentinel_open inner sentinel_close) in
        let ends : strip_suffix sentinel_close v ≡ some (sentinel_open ++ inner) =
          ap (strip_suffix sentinel_close) whole
          ∙ strip_suffix-append sentinel_close (sentinel_open ++ inner) in
        absurd
          (last-true (not (is_header_safe v)) (starts_blank v) (ends_blank v) (rw (p, ends) at e))
  ]
]

module _ (codecs : Codecs) where
  -- The decoder reads what the encoder wrote.
  abbrev pub RoundTrips : Str → Type 0
  RoundTrips v =
      (b : List ℕ) × (codecs.decode64 (codecs.encode64 v) ≡ bytes b) × (codecs.from_utf8 b ≡ some v)

  -- A value encoded for a header is decoded to itself, if Base64 and UTF-8 read back what they
  -- wrote of it.
  pub decode-encode_header_value :
      (v : Str) → RoundTrips v → decode_header_value codecs (encode_header_value codecs v) ≡ ok v
  unfolding decode_header_value encode_header_value
  decode-encode_header_value v (b, d, u) = elim (Bool-cases (needs_encoding v)) [
    | inr e ↦ rw e (ap (decoded_inner codecs v) (inner_of-none v e))
    | inl e ↦
        let sent = sentinel_open ++ (codecs.encode64 v ++ sentinel_close) in
        rw e (
          ap (λ o. decoded_inner codecs sent (inner_of o))
            ((strip_prefix_iff sentinel_open _ (codecs.encode64 v ++ sentinel_close)).1 refl)
          ∙ ap (decoded_inner codecs sent) (strip_suffix-append sentinel_close (codecs.encode64 v))
          ∙ ap (decoded_bytes codecs) d
          ∙ ap (decoded_text codecs) u)
  ]

  -- A header can carry an encoded value, if it can carry Base64.
  pub encode_header_value-safe :
      (v : Str)
      → is_header_safe (codecs.encode64 v) ≡ true
      → is_header_safe (encode_header_value codecs v) ≡ true
  unfolding encode_header_value is_header_safe
  encode_header_value-safe v h = elim (Bool-cases (needs_encoding v)) [
    | inl e ↦ rw e (all-append is_safe_char (codecs.encode64 v) sentinel_close h refl)
    | inr e ↦ rw e (plain_safe v e)
  ]
