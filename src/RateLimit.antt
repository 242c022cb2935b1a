-- ===== src/RateLimit.antt =====
-- The rate limiter: `TokenBucket`, `LimitScope`, `RateDecision` and `RateLimiter` of
-- crates/mcpdef-ratelimit/src/lib.rs. The standard library's `f64` and `Instant` are parameters.
-- What changes a bucket or the limiter returns it with the answer.
pub mod Laws
pub mod Bounds
use mcpdef.Prelude.{
  List, [], ◌∷◌, Option, none, some, Bool, true, false, if◌then◌else◌, ◌≡◌, ◌↔◌, ◌&&◌,
}
use mathlib.Core.Option
use mcpdef.Str.{Str, str, str_eq, is_some}
use mcpdef.Str.Laws.{str_eq_iff}
use mcpdef.Prelude.{and_iff}
use mcpdef.Table
use mcpdef.Table.{Key, str_key, get}

-- `f64` and `Instant`: `since` is `saturating_duration_since` in seconds, and `le` is `<=`, which
-- fails where an operand is no number.
pub record Numbers : Type 1 where
  pub Float : Type 0
  pub Instant : Type 0
  pub one : Float
  pub add : Float → Float → Float
  pub mul : Float → Float → Float
  pub sub : Float → Float → Float
  pub min : Float → Float → Float
  pub le : Float → Float → Bool
  pub since : Instant → Instant → Float

-- What the limiter relies on: the minimum is at most an operand that is a number, taking one away
-- does not make a number larger, and the order is transitive.
pub record IsOrdered (N : Numbers) : Type 0 where
  pub min_le : (a b : N.Float) → N.le b b ≡ true → N.le (N.min a b) b ≡ true
  pub sub_le : (a : N.Float) → N.le N.one a ≡ true → N.le (N.sub a N.one) a ≡ true
  pub le_trans : (a b c : N.Float) → N.le a b ≡ true → N.le b c ≡ true → N.le a c ≡ true

pub data LimitScope : Type 0 where
  global_scope tool_scope reads_scope prompts_scope completions_scope : LimitScope

abbrev pub as_str : LimitScope → Str
as_str global_scope = str "global"
as_str tool_scope = str "tool"
as_str reads_scope = str "resource read"
as_str prompts_scope = str "prompt"
as_str completions_scope = str "completion"

pub data RateDecision : Type 0 where
  admitted : RateDecision
  limited : LimitScope → RateDecision

abbrev pub is_allow : RateDecision → Bool
is_allow admitted = true
is_allow (limited scope) = false

abbrev pub pair_same : Str × Str → Str × Str → Bool
pair_same (a, b) (c, d) = str_eq a c && str_eq b d

pub pair_same_iff : (k l : Str × Str) → (pair_same k l ≡ true) ↔ (k ≡ l)
pair_same_iff (a, b) (c, d) =
    let (to, from) = and_iff (str_eq a c) (str_eq b d) (str_eq_iff a c) (str_eq_iff b d) in
    (λ h. let (e, f) = to h in cc (e, f), λ h. from (cc h, cc h))

-- The key of a server's tool.
instance abbrev pub pair_key : Key (Str × Str)
pair_key = record { same = pair_same; same_iff = pair_same_iff }

module _ (N : Numbers) where
  pub record TokenBucket : Type 0 where
    pub capacity : N.Float
    pub tokens : N.Float
    pub refill_per_sec : N.Float
    pub last : N.Instant

  -- `TokenBucket::new`: full as of `now`.
  abbrev pub full_bucket : N.Float → N.Float → N.Instant → TokenBucket
  full_bucket capacity refill_per_sec now = record {
    capacity = capacity;
    tokens = capacity;
    refill_per_sec = refill_per_sec;
    last = now;
  }

  -- The bucket with the tokens given, as of `now`.
  abbrev pub holding : TokenBucket → N.Instant → N.Float → TokenBucket
  holding b now tokens = record {
    capacity = b.capacity;
    tokens = tokens;
    refill_per_sec = b.refill_per_sec;
    last = now;
  }

  abbrev pub refilled : TokenBucket → N.Instant → N.Float
  refilled b now = N.min (N.add b.tokens (N.mul (N.since now b.last) b.refill_per_sec)) b.capacity

  unfoldable pub try_acquire : TokenBucket → N.Instant → Bool × TokenBucket
  try_acquire b now =
      if N.le N.one (refilled b now)
      then (true, holding b now (N.sub (refilled b now) N.one))
      else (false, holding b now (refilled b now))

  pub record RateLimiter : Type 0 where
    pub tool_template : Option (N.Float × N.Float)
    pub per_tool : List ((Str × Str) × TokenBucket)
    pub reads : List (Str × TokenBucket)
    pub prompts : List (Str × TokenBucket)
    pub completions : List (Str × TokenBucket)
    pub global : Option TokenBucket

  -- `RateLimiter::new`, from `(rate, burst)` for each scope.
  unfoldable pub limiter :
      Option (N.Float × N.Float) → Option (N.Float × N.Float) → N.Instant → Option RateLimiter
  limiter none none now = none
  limiter per_tool global now = some (record {
    tool_template = Option.map (λ s. (s.1, s.0)) per_tool;
    per_tool = [];
    reads = [];
    prompts = [];
    completions = [];
    global = Option.map (λ s. full_bucket s.1 s.0 now) global;
  })

  -- A scope's buckets after a call, the global bucket, and the answer.
  pub record Spent (K : Type 0) : Type 0 where
    pub decision : RateDecision
    pub global_after : Option TokenBucket
    pub buckets_after : List (K × TokenBucket)

  module _ {K : Type 0} ⦃key : Key K⦄ where
    -- `entry(key).or_insert_with(..)`: the bucket that is there, or a full one.
    abbrev pub entry : List (K × TokenBucket) → K → N.Float → N.Float → N.Instant → TokenBucket
    entry buckets k capacity refill now = elim (get buckets k) [
      | some b ↦ b
      | none ↦ full_bucket capacity refill now
    ]

    -- The end of `spend`: the scope's own bucket, where there is a template.
    unfoldable pub spend_own :
        Option TokenBucket
        → List (K × TokenBucket)
        → Option (N.Float × N.Float)
        → K
        → LimitScope
        → N.Instant
        → Spent K
    unfolding try_acquire get Table.insert
    spend_own global buckets none k scope now = record {
      decision = admitted;
      global_after = global;
      buckets_after = buckets;
    }
    spend_own global buckets (some (capacity, refill)) k scope now =
        let taken = try_acquire (entry buckets k capacity refill now) now in
        record {
          decision = if taken.0 then admitted else limited scope;
          global_after = global;
          buckets_after = Table.insert buckets k taken.1;
        }

    unfoldable pub spend :
        Option TokenBucket
        → List (K × TokenBucket)
        → Option (N.Float × N.Float)
        → K
        → LimitScope
        → N.Instant
        → Spent K
    unfolding spend_own
    spend none buckets template k scope now = spend_own none buckets template k scope now
    spend (some g) buckets template k scope now =
        let taken = try_acquire g now in
        if taken.0 then spend_own (some taken.1) buckets template k scope now else record {
          decision = limited global_scope;
          global_after = some taken.1;
          buckets_after = buckets;
        }

  unfoldable pub check : RateLimiter → Str → Str → N.Instant → RateDecision × RateLimiter
  unfolding spend str_eq
  check l server tool now =
      let s = spend l.global l.per_tool l.tool_template (server, tool) tool_scope now in
      (
        s.decision,
        record {
          tool_template = l.tool_template;
          per_tool = s.buckets_after;
          reads = l.reads;
          prompts = l.prompts;
          completions = l.completions;
          global = s.global_after;
        },
      )

  unfoldable pub check_read : RateLimiter → Str → N.Instant → RateDecision × RateLimiter
  unfolding spend str_eq
  check_read l server now =
      let s = spend l.global l.reads l.tool_template server reads_scope now in
      (
        s.decision,
        record {
          tool_template = l.tool_template;
          per_tool = l.per_tool;
          reads = s.buckets_after;
          prompts = l.prompts;
          completions = l.completions;
          global = s.global_after;
        },
      )

  unfoldable pub check_prompt : RateLimiter → Str → N.Instant → RateDecision × RateLimiter
  unfolding spend str_eq
  check_prompt l server now =
      let s = spend l.global l.prompts l.tool_template server prompts_scope now in
      (
        s.decision,
        record {
          tool_template = l.tool_template;
          per_tool = l.per_tool;
          reads = l.reads;
          prompts = s.buckets_after;
          completions = l.completions;
          global = s.global_after;
        },
      )

  unfoldable pub check_completion : RateLimiter → Str → N.Instant → RateDecision × RateLimiter
  unfolding spend str_eq
  check_completion l server now =
      let s = spend l.global l.completions l.tool_template server completions_scope now in
      (
        s.decision,
        record {
          tool_template = l.tool_template;
          per_tool = l.per_tool;
          reads = l.reads;
          prompts = l.prompts;
          completions = s.buckets_after;
          global = s.global_after;
        },
      )
