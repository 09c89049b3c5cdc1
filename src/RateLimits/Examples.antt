-- ===== src/RateLimits/Examples.antt =====
-- Two requests a minute, and the theorem on rate limits at them.
use mathlib.Core.List.{Memᴰ}
use aiagentguard.Periods.{bucket_start}
use aiagentguard.Budgets.{scope_matches}
use aiagentguard.RateLimits.{
  RateLimit, Buckets, count_all, put_count, acquire_matched, acquire_rate_limits,
}
use aiagentguard.RateLimits.Counting.{Attempt, let_through, rate_limit_holds}
use aiagentguard.Prelude.{ℕ, ◌+◌, ◌≤◌, ◌≡◌, refl, true, none, [], ◌∷◌, arith}

abbrev two_a_minute : RateLimit
two_a_minute = record {
  id = 4;
  organization_id = 1;
  scope = "organization";
  scope_id = none;
  window_seconds = 60;
  max_requests = 2;
  active = true;
}

abbrev at_time : ℕ → Attempt
at_time now = record { now = now; facts = λ key. none }

abbrev no_buckets : Buckets
no_buckets limit start = none

-- Of three attempts in a minute two are let through, and the next minute is new.
three_attempts :
    let_through 1
      (two_a_minute ∷ [])
      two_a_minute
      60
      (at_time 61 ∷ at_time 70 ∷ at_time 119 ∷ at_time 120 ∷ [])
      no_buckets
    ≡ 2
unfolding acquire_rate_limits acquire_matched count_all put_count bucket_start scope_matches
three_attempts = refl

rate_limit_holds_example :
    let_through 1
        (two_a_minute ∷ [])
        two_a_minute
        60
        (at_time 61 ∷ at_time 70 ∷ at_time 119 ∷ [])
        no_buckets
      + 0
    ≤ 2
rate_limit_holds_example =
    rate_limit_holds 1 (two_a_minute ∷ []) (λ id. 2) two_a_minute (Memᴰ.head refl) refl (refl, tt)
      60 (at_time 61 ∷ at_time 70 ∷ at_time 119 ∷ []) no_buckets (λ i s. omega arith)
