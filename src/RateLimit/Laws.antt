-- ===== src/RateLimit/Laws.antt =====
-- Which calls are shed, and which buckets a call touches.
use mcpdef.Prelude.{
  List, Option, none, some, Bool, true, false, if◌then◌else◌, ◌≡◌, ◌≢◌, ◌↔◌, ◌⊎◌, inl, inr, refl,
  Bool-cases, false≢true, Option-cases, eq-false_iff, sym, ap, subst,
}
use mcpdef.Str.{Str}
use mcpdef.Table.{Key, str_key, get}
use mcpdef.Table.Laws.{get-insert_ne}
use mcpdef.RateLimit.{
  Numbers, LimitScope, global_scope, tool_scope, admitted, limited, TokenBucket, try_acquire,
  RateLimiter, entry, spend_own, spend, check, pair_key,
}

decided_iff :
    (b : Bool) (scope : LimitScope)
    → ((if b then admitted else limited scope) ≡ admitted) ↔ (b ≡ true)
decided_iff true scope = (λ _. refl, λ _. refl)
decided_iff false scope = (λ e. cc e, λ e. absurd (false≢true e))

refused_iff :
    (b : Bool) (scope : LimitScope)
    → ((if b then admitted else limited scope) ≡ limited scope) ↔ (b ≡ false)
refused_iff true scope = (λ e. cc e, λ e. absurd (false≢true (sym e)))
refused_iff false scope = (λ _. refl, λ _. refl)

limited-injective : {s t : LimitScope} → limited s ≡ limited t → s ≡ t
limited-injective e = cc e

tool≢global : tool_scope ≢ global_scope
tool≢global e = cc e

module _ (N : Numbers) where
  -- What the bucket holds at a time: what it held, and what the time since brought at its rate, up
  -- to its capacity.
  abbrev pub tokens_at : TokenBucket N → N.Instant → N.Float
  tokens_at b now = N.min (N.add b.tokens (N.mul (N.since now b.last) b.refill_per_sec)) b.capacity

  -- One token at least.
  abbrev pub HasToken : TokenBucket N → N.Instant → Type 0
  HasToken b now = N.le N.one (tokens_at b now) ≡ true

  try_acquire_iff :
      (b : TokenBucket N) (now : N.Instant) → ((try_acquire N b now).0 ≡ true) ↔ HasToken b now
  unfolding try_acquire
  try_acquire_iff b now = elim (Bool-cases (N.le N.one (tokens_at b now))) [
    | inl e ↦ rw e (λ _. refl, λ _. refl)
    | inr e ↦ rw e (λ h. absurd (false≢true h), λ h. absurd (false≢true h))
  ]

  refuses_iff :
      (b : TokenBucket N) (now : N.Instant) → ((try_acquire N b now).0 ≡ false) ↔ (¬ HasToken b now)
  refuses_iff b now = eq-false_iff (try_acquire N b now).0 (try_acquire_iff b now)

  -- The global bucket has a token, where there is one.
  abbrev pub GlobalAdmits : Option (TokenBucket N) → N.Instant → Type 0
  GlobalAdmits none now = Unit
  GlobalAdmits (some g) now = HasToken g now

  -- There is a global bucket without a token.
  abbrev pub GlobalRefuses : Option (TokenBucket N) → N.Instant → Type 0
  GlobalRefuses none now = ⊥
  GlobalRefuses (some g) now = ¬ HasToken g now

  module _ {K : Type 0} ⦃key : Key K⦄ where
    -- The bucket that a key spends from: the one that is there, or a full one.
    abbrev pub IsOwn :
        List (K × TokenBucket N) → N.Float × N.Float → K → N.Instant → TokenBucket N → Type 0
    IsOwn buckets (capacity, refill) k now b =
        (get buckets k ≡ some b)
        ⊎ ((get buckets k ≡ none)
            × (b ≡ record {
              capacity = capacity;
              tokens = capacity;
              refill_per_sec = refill;
              last = now;
            }))

    -- The key's own bucket has a token, where there is a template for one.
    abbrev pub OwnAdmits :
        List (K × TokenBucket N) → Option (N.Float × N.Float) → K → N.Instant → Type 0
    OwnAdmits buckets none k now = Unit
    OwnAdmits buckets (some template) k now =
        (b : TokenBucket N) × IsOwn buckets template k now b × HasToken b now

    -- There is a template, and the key's own bucket is without a token.
    abbrev pub OwnRefuses :
        List (K × TokenBucket N) → Option (N.Float × N.Float) → K → N.Instant → Type 0
    OwnRefuses buckets none k now = ⊥
    OwnRefuses buckets (some template) k now =
        (b : TokenBucket N) × IsOwn buckets template k now b × (¬ HasToken b now)

    -- The entry is the one bucket that is the key's own.
    entry_iff :
        (buckets : List (K × TokenBucket N)) (capacity refill : N.Float) (k : K) (now : N.Instant)
        (b : TokenBucket N)
        → IsOwn buckets (capacity, refill) k now b ↔ (b ≡ entry N buckets k capacity refill now)
    entry_iff buckets capacity refill k now b = elim (Option-cases (get buckets k)) [
      | inl e ↦ rw (e, entry) (λ h. elim h [ inl f ↦ cc f | inr (_, f) ↦ f ], λ f. inr (refl, f))
      | inr (c, e) ↦
          rw (e, entry)
            (λ h. elim h [ inl f ↦ cc f | inr (f, _) ↦ cc f ], λ f. inl (ap some (sym f)))
    ]

    IsOwn-iff :
        (P : TokenBucket N → Type 0) (buckets : List (K × TokenBucket N))
        (capacity refill : N.Float) (k : K) (now : N.Instant)
        → P (entry N buckets k capacity refill now)
          ↔ ((b : TokenBucket N) × IsOwn buckets (capacity, refill) k now b × P b)
    IsOwn-iff P buckets capacity refill k now =
        let own = entry N buckets k capacity refill now in
        (
          λ h. (own, (entry_iff buckets capacity refill k now own).1 refl, h),
          λ (b, is, h). subst P ((entry_iff buckets capacity refill k now b).0 is) h,
        )

    spend_own_iff :
        (global : Option (TokenBucket N)) (buckets : List (K × TokenBucket N))
        (template : Option (N.Float × N.Float)) (k : K) (scope : LimitScope) (now : N.Instant)
        → ((spend_own N global buckets template k scope now).decision ≡ admitted)
          ↔ OwnAdmits buckets template k now
    unfolding spend_own
    spend_own_iff global buckets none k scope now = (λ _. tt, λ _. refl)
    spend_own_iff global buckets (some (capacity, refill)) k scope now =
        let own = entry N buckets k capacity refill now in
        let (to, from) = decided_iff (try_acquire N own now).0 scope in
        let (has, is) = try_acquire_iff own now in
        let (up, down) = IsOwn-iff (λ b. HasToken b now) buckets capacity refill k now in
        (λ h. up (has (to h)), λ h. from (is (down h)))

    spend_own-refused :
        (global : Option (TokenBucket N)) (buckets : List (K × TokenBucket N))
        (template : Option (N.Float × N.Float)) (k : K) (scope : LimitScope) (now : N.Instant)
        → ((spend_own N global buckets template k scope now).decision ≡ limited scope)
          ↔ OwnRefuses buckets template k now
    unfolding spend_own
    spend_own-refused global buckets none k scope now = (λ e. cc e, λ h. absurd h)
    spend_own-refused global buckets (some (capacity, refill)) k scope now =
        let own = entry N buckets k capacity refill now in
        let (to, from) = refused_iff (try_acquire N own now).0 scope in
        let (has, is) = refuses_iff own now in
        let (up, down) = IsOwn-iff (λ b. ¬ HasToken b now) buckets capacity refill k now in
        (λ h. up (has (to h)), λ h. from (is (down h)))

    -- The scope's own bucket never answers for the global one.
    spend_own-scope :
        (global : Option (TokenBucket N)) (buckets : List (K × TokenBucket N))
        (template : Option (N.Float × N.Float)) (k : K) (scope : LimitScope) (now : N.Instant)
        → scope ≢ global_scope
        → (spend_own N global buckets template k scope now).decision ≢ limited global_scope
    unfolding spend_own
    spend_own-scope global buckets none k scope now d e = cc e
    spend_own-scope global buckets (some (capacity, refill)) k scope now d e =
        elim (Bool-cases (try_acquire N (entry N buckets k capacity refill now) now).0) [
          | inl f ↦ cc (rw f at e)
          | inr f ↦ d (limited-injective (rw f at e))
        ]

    -- A call is admitted exactly if the global bucket lets it pass, where there is one, and so does
    -- the key's own bucket, where there is a template for one.
    pub spend_iff :
        (global : Option (TokenBucket N)) (buckets : List (K × TokenBucket N))
        (template : Option (N.Float × N.Float)) (k : K) (scope : LimitScope) (now : N.Instant)
        → ((spend N global buckets template k scope now).decision ≡ admitted)
          ↔ (GlobalAdmits global now × OwnAdmits buckets template k now)
    unfolding spend
    spend_iff none buckets template k scope now =
        let (to, from) = spend_own_iff none buckets template k scope now in
        (λ h. (tt, to h), λ h. from h.1)
    spend_iff (some g) buckets template k scope now = elim (Bool-cases (try_acquire N g now).0) [
      | inl e ↦
          let (to, from) =
            spend_own_iff (some (try_acquire N g now).1) buckets template k scope now in
          rw e (λ h. ((try_acquire_iff g now).0 e, to h), λ h. from h.1)
      | inr e ↦ rw e (λ h. cc h, λ h. absurd ((refuses_iff g now).0 e h.0))
    ]

    -- A call is refused for the global scope exactly if there is a global bucket without a token,
    -- and then no bucket of the scope changes; it is refused for its own scope exactly if the global
    -- bucket lets it pass and its own does not.
    pub spend-refused :
        (global : Option (TokenBucket N)) (buckets : List (K × TokenBucket N))
        (template : Option (N.Float × N.Float)) (k : K) (scope : LimitScope) (now : N.Instant)
        → scope ≢ global_scope
        → (((spend N global buckets template k scope now).decision ≡ limited global_scope)
            ↔ GlobalRefuses global now)
          × (GlobalRefuses global now
              → (spend N global buckets template k scope now).buckets_after ≡ buckets)
          × (((spend N global buckets template k scope now).decision ≡ limited scope)
              ↔ (GlobalAdmits global now × OwnRefuses buckets template k now))
    unfolding spend
    spend-refused none buckets template k scope now d =
        let (to, from) = spend_own-refused none buckets template k scope now in
        (
          (λ e. spend_own-scope none buckets template k scope now d e, λ h. absurd h),
          λ h. absurd h,
          (λ e. (tt, to e), λ h. from h.1),
        )
    spend-refused (some g) buckets template k scope now d =
        elim (Bool-cases (try_acquire N g now).0) [
          | inl e ↦
              let spent = some (try_acquire N g now).1 in
              let has = (try_acquire_iff g now).0 e in
              let (to, from) = spend_own-refused spent buckets template k scope now in
              rw e (
                (
                  λ f. absurd (spend_own-scope spent buckets template k scope now d f),
                  λ h. absurd (h has),
                ),
                λ h. absurd (h has),
                (λ f. (has, to f), λ h. from h.1),
              )
          | inr e ↦
              let not_one = (refuses_iff g now).0 e in
              rw e (
                (λ _. not_one, λ _. refl),
                λ _. refl,
                (λ f. absurd (d (sym (limited-injective f))), λ h. absurd (not_one h.0)),
              )
        ]

    spend_own-other :
        (global : Option (TokenBucket N)) (buckets : List (K × TokenBucket N))
        (template : Option (N.Float × N.Float)) (k k' : K) (scope : LimitScope) (now : N.Instant)
        → k' ≢ k
        → get (spend_own N global buckets template k scope now).buckets_after k' ≡ get buckets k'
    unfolding spend_own
    spend_own-other global buckets none k k' scope now d = refl
    spend_own-other global buckets (some (capacity, refill)) k k' scope now d =
        get-insert_ne buckets k k' (try_acquire N (entry N buckets k capacity refill now) now).1 d

    -- A call leaves the buckets of the other keys as they were.
    pub spend-other :
        (global : Option (TokenBucket N)) (buckets : List (K × TokenBucket N))
        (template : Option (N.Float × N.Float)) (k k' : K) (scope : LimitScope) (now : N.Instant)
        → k' ≢ k
        → get (spend N global buckets template k scope now).buckets_after k' ≡ get buckets k'
    unfolding spend
    spend-other none buckets template k k' scope now d =
        spend_own-other none buckets template k k' scope now d
    spend-other (some g) buckets template k k' scope now d =
        elim (Bool-cases (try_acquire N g now).0) [
          | inl e ↦
              rw e
                (spend_own-other (some (try_acquire N g now).1) buckets template k k' scope now d)
          | inr e ↦ rw e refl
        ]

  -- A tool call spends from the global bucket and the bucket of its server and tool, and from no
  -- other: not from another server's tool of the same name, nor another tool's, nor from the
  -- buckets for reads, prompts and completions.
  pub check-other :
      (l : RateLimiter N) (server tool : Str) (other : Str × Str) (now : N.Instant)
      → other ≢ (server, tool)
      → (get (check N l server tool now).1.per_tool other ≡ get l.per_tool other)
        × ((check N l server tool now).1.reads ≡ l.reads)
        × ((check N l server tool now).1.prompts ≡ l.prompts)
        × ((check N l server tool now).1.completions ≡ l.completions)
  unfolding check
  check-other l server tool other now d = (
    spend-other l.global l.per_tool l.tool_template (server, tool) other tool_scope now d,
    refl,
    refl,
    refl,
  )

  -- A tool call is admitted exactly if the global bucket holds a token at that time, where there is
  -- one, and so does the bucket of its server and tool, which is a full one at its first call: what
  -- a bucket holds is what it held before and what the time since brought at its rate, up to its
  -- capacity.
  pub check_iff :
      (l : RateLimiter N) (server tool : Str) (now : N.Instant)
      → ((check N l server tool now).0 ≡ admitted)
        ↔ (GlobalAdmits l.global now × OwnAdmits l.per_tool l.tool_template (server, tool) now)
  unfolding check
  check_iff l server tool now =
      spend_iff l.global l.per_tool l.tool_template (server, tool) tool_scope now

  -- A tool call is refused for the global scope exactly if there is a global bucket that holds no
  -- token, and then no tool's bucket changes; it is refused for the tool's scope exactly if the
  -- global bucket lets it pass, where there is one, and the tool's own bucket holds no token.
  pub check-refused :
      (l : RateLimiter N) (server tool : Str) (now : N.Instant)
      → (((check N l server tool now).0 ≡ limited global_scope) ↔ GlobalRefuses l.global now)
        × (GlobalRefuses l.global now → (check N l server tool now).1.per_tool ≡ l.per_tool)
        × (((check N l server tool now).0 ≡ limited tool_scope) ↔ (
            GlobalAdmits l.global now × OwnRefuses l.per_tool l.tool_template (server, tool) now))
  unfolding check
  check-refused l server tool now =
      spend-refused l.global l.per_tool l.tool_template (server, tool) tool_scope now tool≢global
