-- ===== src/Audit/Hash/Laws.antt =====
-- What the hash of a record fixes: the fields before the later members, each as text, and the text
-- of the later members.
use mcpdef.Prelude.{
  ℕ, [], ◌∷◌, ◌++◌, Option, none, some, false, ◌≡◌, ◌↔◌, inl, inr, refl, sym, ap, ◌∙◌, subst,
  append-nil, map, if◌then◌else◌, ◌==◌, Bool-cases, arith,
}
use mathlib.Core.List.{tail}
use mcpdef.Str.{Str}
use mcpdef.Str.Laws.{Free}
use mcpdef.Str.Decimal.{decimal, decimal-injective, decimal-Free}
use mcpdef.Audit.{Record}
use mcpdef.Audit.Hash.{
  us, unwrap_or_empty, later_text, later_members, hashed_text, contains_us, has_separator,
  without_separator,
}

contains_us_iff : (s : Str) → (contains_us s ≡ false) ↔ Free us s
contains_us_iff [] = (λ _. tt, λ _. refl)
contains_us_iff (c ∷ s) = ground (arith, contains_us_iff s)

-- No name or rule of the record holds the separator.
pub has_separator_iff :
    (r : Record)
    → (has_separator r ≡ false) ↔ (
        Free us r.agent
        × Free us r.server
        × Free us (unwrap_or_empty r.method)
        × Free us (unwrap_or_empty r.tool)
        × Free us (unwrap_or_empty r.rule))
unfolding has_separator
has_separator_iff r = ground (
  arith,
  contains_us_iff r.agent,
  contains_us_iff r.server,
  contains_us_iff (unwrap_or_empty r.method),
  contains_us_iff (unwrap_or_empty r.tool),
  contains_us_iff (unwrap_or_empty r.rule),
)

pub without_separator-Free : (s : Str) → Free us (without_separator s)
unfolding without_separator
without_separator-Free s = elim (Bool-cases (contains_us s)) [
  | inl e ↦ rw e (replaced s)
  | inr e ↦ rw e ((contains_us_iff s).0 e)
]
  where
    replaced : (t : Str) → Free us (map (λ c. if c == us then 9247 else c) t)
    replaced [] = tt
    replaced (c ∷ t) = (ground arith, replaced t)

-- Two texts without a character are the same before the same such character.
pub peel_at :
    (k : ℕ) (a b x y : Str) → Free k a → Free k b → a ++ (k ∷ x) ≡ b ++ (k ∷ y) → (a ≡ b) × (x ≡ y)
peel_at k [] [] x y h j e = (refl, ap tail e)
peel_at k [] (d ∷ b) x y h (p, j) e = absurd (p (sym cc e))
peel_at k (c ∷ a) [] x y (p, h) j e = absurd (p cc e)
peel_at k (c ∷ a) (d ∷ b) x y (p, h) (q, j) e =
    let (f, g) = peel_at k a b x y h j (ap tail e) in (cc, g)

-- The same of the separator.
peel : (a b x y : Str) → Free us a → Free us b → a ++ (us ∷ x) ≡ b ++ (us ∷ y) → (a ≡ b) × (x ≡ y)
peel = peel_at us

-- No field of the record holds the separator. (The later members come last.)
abbrev pub IsClear : Record → Type 0
IsClear r = (has_separator r ≡ false) × Free us r.decision × Free us r.prev_hash

unmarked : (b y : Str) → ¬ Free us (b ++ (us ∷ y))
unmarked [] y h = h.0 refl
unmarked (c ∷ b) y h = unmarked b y h.1

last-later :
    (a b : Str) (o q : Option Str)
    → Free us a
    → Free us b
    → a ++ later_text o ≡ b ++ later_text q
    → (a ≡ b) × (o ≡ q)
last-later a b (some x) (some y) h k e = let (f, g) = peel a b x y h k e in (f, ap some g)
last-later a b none none h k e = (sym (append-nil a) ∙ e ∙ append-nil b, refl)
last-later a b none (some y) h k e =
    absurd (unmarked b y (subst (Free us) (sym (append-nil a) ∙ e) h))
last-later a b (some x) none h k e =
    absurd (unmarked a x (subst (Free us) (sym (append-nil b) ∙ sym e) k))

number-Free : (n : ℕ) → Free us (decimal n)
number-Free n = decimal-Free us n (omega arith)

module _ (json_str : Str → Str) where
  -- The fields agree as the hash encodes them: an absent name or rule as the empty text.
  abbrev pub SameFields : Record → Record → Type 0
  SameFields r s =
      (r.seq ≡ s.seq)
      × (r.ts_unix_ms ≡ s.ts_unix_ms)
      × (r.agent ≡ s.agent)
      × (r.server ≡ s.server)
      × (unwrap_or_empty r.method ≡ unwrap_or_empty s.method)
      × (unwrap_or_empty r.tool ≡ unwrap_or_empty s.tool)
      × (r.decision ≡ s.decision)
      × (unwrap_or_empty r.rule ≡ unwrap_or_empty s.rule)
      × (r.latency_ms ≡ s.latency_ms)
      × (r.prev_hash ≡ s.prev_hash)
      × (later_members json_str r ≡ later_members json_str s)

  pub hashed_text-SameFields :
      (r s : Record)
      → IsClear r
      → IsClear s
      → hashed_text json_str r ≡ hashed_text json_str s
      → SameFields r s
  unfolding hashed_text
  hashed_text-SameFields r s (h, d, p) (k, d', p') e =
      let (agent, server, method, tool, rule) = (has_separator_iff r).0 h in
      let (agent', server', method', tool', rule') = (has_separator_iff s).0 k in
      let (e0, t0) = peel _ _ _ _ (number-Free r.seq) (number-Free s.seq) e in
      let (e1, t1) = peel _ _ _ _ (number-Free r.ts_unix_ms) (number-Free s.ts_unix_ms) t0 in
      let (e2, t2) = peel _ _ _ _ agent agent' t1 in
      let (e3, t3) = peel _ _ _ _ server server' t2 in
      let (e4, t4) = peel _ _ _ _ method method' t3 in
      let (e5, t5) = peel _ _ _ _ tool tool' t4 in
      let (e6, t6) = peel _ _ _ _ d d' t5 in
      let (e7, t7) = peel _ _ _ _ rule rule' t6 in
      let (e8, t8) = peel _ _ _ _ (number-Free r.latency_ms) (number-Free s.latency_ms) t7 in
      let (e9, t9) = last-later _ _ _ _ p p' t8 in
      (
        decimal-injective _ _ e0,
        decimal-injective _ _ e1,
        e2,
        e3,
        e4,
        e5,
        e6,
        e7,
        decimal-injective _ _ e8,
        e9,
        t9,
      )
