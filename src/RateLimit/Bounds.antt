-- ===== src/RateLimit/Bounds.antt =====
-- No bucket ever holds more than its capacity.
use mcpdef.Prelude.{
  List, Option, none, some, true, ◌≡◌, inl, inr, refl, sym, subst, Bool-cases, Option-cases, All,
}
use mcpdef.Str.{Str}
use mcpdef.Table.{Key, str_key, get}
use mcpdef.Table.Laws.{All-insert, All-get}
use mcpdef.RateLimit.{
  Numbers, IsOrdered, LimitScope, tool_scope, reads_scope, prompts_scope, completions_scope,
  TokenBucket, refilled, try_acquire, RateLimiter, entry, spend_own, spend, check, check_read,
  check_prompt, check_completion, pair_key,
}

module _ (N : Numbers) where
  -- The capacity is a number, and the tokens are at most it.
  pub record IsFilled (b : TokenBucket N) : Type 0 where
    pub number : N.le b.capacity b.capacity ≡ true
    pub at_most : N.le b.tokens b.capacity ≡ true

  module _ (ordered : IsOrdered N) where
    -- After `try_acquire`, whatever the answer and however the clock moved, the bucket holds at most
    -- its capacity, and capacity and rate are as before.
    pub try_acquire-IsFilled :
        (b : TokenBucket N) (now : N.Instant)
        → N.le b.capacity b.capacity ≡ true
        → IsFilled (try_acquire N b now).1
          × ((try_acquire N b now).1.capacity ≡ b.capacity)
          × ((try_acquire N b now).1.refill_per_sec ≡ b.refill_per_sec)
          × ((try_acquire N b now).1.last ≡ now)
    unfolding try_acquire
    try_acquire-IsFilled b now number =
        let top : N.le (refilled N b now) b.capacity ≡ true =
          ordered.min_le (N.add b.tokens (N.mul (N.since now b.last) b.refill_per_sec)) b.capacity
            number in
        elim (Bool-cases (N.le N.one (refilled N b now))) [
          | inl e ↦ rw e (
            record {
              number = number;
              at_most =
                  ordered.le_trans (N.sub (refilled N b now) N.one) (refilled N b now) b.capacity
                    (ordered.sub_le (refilled N b now) e) top;
            },
            refl,
            refl,
            refl,
          )
          | inr e ↦ rw e (record { number = number; at_most = top }, refl, refl, refl)
        ]

    abbrev pub TemplateNumber : Option (N.Float × N.Float) → Type 0
    TemplateNumber none = Unit
    TemplateNumber (some (capacity, refill)) = N.le capacity capacity ≡ true

    abbrev pub GlobalFilled : Option (TokenBucket N) → Type 0
    GlobalFilled none = Unit
    GlobalFilled (some g) = IsFilled g

    module _ {K : Type 0} ⦃key : Key K⦄ where
      abbrev pub Filled : List (K × TokenBucket N) → Type 0
      Filled buckets = All (λ e. IsFilled e.1) buckets

      entry-number :
          (buckets : List (K × TokenBucket N)) (k : K) (capacity refill : N.Float) (now : N.Instant)
          → Filled buckets
          → N.le capacity capacity ≡ true
          → N.le
              (entry N buckets k capacity refill now).capacity
              (entry N buckets k capacity refill now).capacity
            ≡ true
      entry-number buckets k capacity refill now h number = elim (Option-cases (get buckets k)) [
        | inl e ↦ rw (e, entry) number
        | inr (b, e) ↦ rw (e, entry) (All-get (λ x. IsFilled x.1) buckets k b h e).1.number
      ]

      spend_own-Filled :
          (global : Option (TokenBucket N)) (buckets : List (K × TokenBucket N))
          (template : Option (N.Float × N.Float)) (k : K) (scope : LimitScope) (now : N.Instant)
          → Filled buckets
          → TemplateNumber template
          → Filled (spend_own N global buckets template k scope now).buckets_after
      unfolding spend_own
      spend_own-Filled global buckets none k scope now h number = h
      spend_own-Filled global buckets (some (capacity, refill)) k scope now h number =
          let b = entry N buckets k capacity refill now in
          All-insert (λ x. IsFilled x.1) buckets k (try_acquire N b now).1
            (try_acquire-IsFilled b now (entry-number buckets k capacity refill now h number)).0 h

      spend_own-global :
          (global : Option (TokenBucket N)) (buckets : List (K × TokenBucket N))
          (template : Option (N.Float × N.Float)) (k : K) (scope : LimitScope) (now : N.Instant)
          → (spend_own N global buckets template k scope now).global_after ≡ global
      unfolding spend_own
      spend_own-global global buckets none k scope now = refl
      spend_own-global global buckets (some (capacity, refill)) k scope now = refl

      -- A call keeps the global bucket and every bucket of the scope filled to its capacity at most.
      spend-Filled :
          (global : Option (TokenBucket N)) (buckets : List (K × TokenBucket N))
          (template : Option (N.Float × N.Float)) (k : K) (scope : LimitScope) (now : N.Instant)
          → GlobalFilled global
          → Filled buckets
          → TemplateNumber template
          → GlobalFilled (spend N global buckets template k scope now).global_after
            × Filled (spend N global buckets template k scope now).buckets_after
      unfolding spend
      spend-Filled none buckets template k scope now g h number = (
        subst GlobalFilled (sym (spend_own-global none buckets template k scope now)) tt,
        spend_own-Filled none buckets template k scope now h number,
      )
      spend-Filled (some b) buckets template k scope now g h number =
          let after = (try_acquire-IsFilled b now g.number).0 in
          let spent = some (try_acquire N b now).1 in
          elim (Bool-cases (try_acquire N b now).0) [
            | inl e ↦ rw e (
              subst GlobalFilled (sym (spend_own-global spent buckets template k scope now)) after,
              spend_own-Filled spent buckets template k scope now h number,
            )
            | inr e ↦ rw e (after, h)
          ]

    -- Every bucket of the limiter is filled to its capacity at most.
    pub record IsValid (l : RateLimiter N) : Type 0 where
      pub template_number : TemplateNumber l.tool_template
      pub global_filled : GlobalFilled l.global
      pub per_tool_filled : Filled l.per_tool
      pub reads_filled : Filled l.reads
      pub prompts_filled : Filled l.prompts
      pub completions_filled : Filled l.completions

    -- The four checks keep every bucket of the limiter filled to its capacity at most, whatever they
    -- answer.
    pub checks-IsValid :
        (l : RateLimiter N) (server tool : Str) (now : N.Instant)
        → IsValid l
        → IsValid (check N l server tool now).1
          × IsValid (check_read N l server now).1
          × IsValid (check_prompt N l server now).1
          × IsValid (check_completion N l server now).1
    unfolding check check_read check_prompt check_completion
    checks-IsValid l server tool now v =
        let t =
          spend-Filled l.global l.per_tool l.tool_template (server, tool) tool_scope now
            v.global_filled v.per_tool_filled v.template_number in
        let r =
          spend-Filled l.global l.reads l.tool_template server reads_scope now v.global_filled
            v.reads_filled v.template_number in
        let p =
          spend-Filled l.global l.prompts l.tool_template server prompts_scope now v.global_filled
            v.prompts_filled v.template_number in
        let c =
          spend-Filled l.global l.completions l.tool_template server completions_scope now
            v.global_filled v.completions_filled v.template_number in
        (
          record {
            template_number = v.template_number;
            global_filled = t.0;
            per_tool_filled = t.1;
            reads_filled = v.reads_filled;
            prompts_filled = v.prompts_filled;
            completions_filled = v.completions_filled;
          },
          record {
            template_number = v.template_number;
            global_filled = r.0;
            per_tool_filled = v.per_tool_filled;
            reads_filled = r.1;
            prompts_filled = v.prompts_filled;
            completions_filled = v.completions_filled;
          },
          record {
            template_number = v.template_number;
            global_filled = p.0;
            per_tool_filled = v.per_tool_filled;
            reads_filled = v.reads_filled;
            prompts_filled = p.1;
            completions_filled = v.completions_filled;
          },
          record {
            template_number = v.template_number;
            global_filled = c.0;
            per_tool_filled = v.per_tool_filled;
            reads_filled = v.reads_filled;
            prompts_filled = v.prompts_filled;
            completions_filled = c.1;
          },
        )
