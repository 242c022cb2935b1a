-- ===== src/Tests/Limits.antt =====
-- The rate limiter of crates/mcpdef-ratelimit, its numbers taken to be whole.
use mcpdef.Prelude.{
  ℕ, ◌+◌, ◌-◌, ◌*◌, [], ◌∷◌, ◌≡◌, ◌↔◌, refl, some, true, leb, if◌then◌else◌, arith,
}
use mcpdef.Str.{str}
use mcpdef.Table.{str_key}
use mcpdef.RateLimit.{
  Numbers, IsOrdered, TokenBucket, RateLimiter, admitted, limited, global_scope, tool_scope,
  try_acquire, check, check_read, check_prompt, check_completion, pair_key,
}
use mcpdef.RateLimit.Laws.{
  GlobalAdmits, OwnAdmits, GlobalRefuses, OwnRefuses, check_iff, check-refused,
}
use mcpdef.RateLimit.Bounds.{IsFilled, IsValid, try_acquire-IsFilled, checks-IsValid}

abbrev whole : Numbers
whole = record {
  Float = ℕ;
  Instant = ℕ;
  one = 1;
  add = ◌+◌;
  mul = ◌*◌;
  sub = ◌-◌;
  min = λ a b. if leb a b then a else b;
  le = leb;
  since = ◌-◌;
}

whole_min : (a b : ℕ) → leb (if leb a b then a else b) b ≡ true
whole_min a b = ground arith

whole_sub : (a : ℕ) → leb (a - 1) a ≡ true
whole_sub a = ground arith

whole_trans : (a b c : ℕ) → leb a b ≡ true → leb b c ≡ true → leb a c ≡ true
whole_trans a b c h k = ground arith

whole_ordered : IsOrdered whole
whole_ordered = record {
  min_le = λ a b h. whole_min a b;
  sub_le = λ a h. whole_sub a;
  le_trans = whole_trans;
}

abbrev spent : TokenBucket whole
spent = record { capacity = 3; tokens = 0; refill_per_sec = 1; last = 10 }

abbrev limiter : RateLimiter whole
limiter = record {
  tool_template = some (2, 1);
  per_tool = ((str "github", str "get_file"), spent) ∷ [];
  reads = [];
  prompts = [];
  completions = [];
  global = some spent;
}

check_iff_example : ((check whole limiter (str "github") (str "get_file") 11).0 ≡ admitted) ↔ (
    GlobalAdmits whole limiter.global 11
    × OwnAdmits whole limiter.per_tool limiter.tool_template (str "github", str "get_file") 11)
check_iff_example = check_iff whole limiter (str "github") (str "get_file") 11

check_run : (check whole limiter (str "github") (str "get_file") 11).0 ≡ admitted
unfolding check
check_run = refl

check-refused_example :
    (((check whole limiter (str "github") (str "get_file") 10).0 ≡ limited global_scope)
      ↔ GlobalRefuses whole limiter.global 10)
    × (GlobalRefuses whole limiter.global 10
        → (check whole limiter (str "github") (str "get_file") 10).1.per_tool ≡ limiter.per_tool)
    × (((check whole limiter (str "github") (str "get_file") 10).0 ≡ limited tool_scope) ↔ (
        GlobalAdmits whole limiter.global 10
        × OwnRefuses whole limiter.per_tool limiter.tool_template
            (str "github", str "get_file")
            10))
check-refused_example = check-refused whole limiter (str "github") (str "get_file") 10

check_refuses : (check whole limiter (str "github") (str "get_file") 10).0 ≡ limited global_scope
unfolding check
check_refuses = refl

try_acquire-IsFilled_example :
    IsFilled whole (try_acquire whole spent 20).1
    × ((try_acquire whole spent 20).1.capacity ≡ 3)
    × ((try_acquire whole spent 20).1.refill_per_sec ≡ 1)
    × ((try_acquire whole spent 20).1.last ≡ 20)
try_acquire-IsFilled_example = try_acquire-IsFilled whole whole_ordered spent 20 refl

spent-IsFilled : IsFilled whole spent
spent-IsFilled = record { number = refl; at_most = refl }

limiter-IsValid : IsValid whole whole_ordered limiter
limiter-IsValid = record {
  template_number = refl;
  global_filled = spent-IsFilled;
  per_tool_filled = (spent-IsFilled, tt);
  reads_filled = tt;
  prompts_filled = tt;
  completions_filled = tt;
}

checks-IsValid_example :
    IsValid whole whole_ordered (check whole limiter (str "github") (str "get_file") 12).1
    × IsValid whole whole_ordered (check_read whole limiter (str "github") 12).1
    × IsValid whole whole_ordered (check_prompt whole limiter (str "github") 12).1
    × IsValid whole whole_ordered (check_completion whole limiter (str "github") 12).1
checks-IsValid_example =
    checks-IsValid whole whole_ordered limiter (str "github") (str "get_file") 12 limiter-IsValid
