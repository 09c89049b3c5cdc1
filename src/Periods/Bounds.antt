-- ===== src/Periods/Bounds.antt =====
-- Where windows and periods lie: `_bucket_start` and `_period_start` of
-- apps/api/agentguard_api/limits.py.
use native.Mathlib.Nat.{mul-add-mod_self_right, mod-eq_of_lt, mod-lt, div-add-mod'}
use aiagentguard.Prelude.{ℕ, sym, ◌∙◌, ◌%◌, ◌+◌, ◌*◌, ◌/◌, ◌≤◌, ◌<◌, ◌-◌, ◌≡◌, arith}
use aiagentguard.Periods.{bucket_start, period_start, weekday, day_seconds}

remainder_of_split : (q r t seconds : ℕ) → t ≡ q * seconds + r → r < seconds → t % seconds ≡ r
remainder_of_split q r t seconds e h = rw e (mul-add-mod_self_right q seconds r ∙ mod-eq_of_lt h)

-- A time that lies less than a window behind a multiple of the window has that multiple as start.
bucket_start_of :
    (q later seconds : ℕ)
    → q * seconds ≤ later
    → later < q * seconds + seconds
    → bucket_start later seconds ≡ q * seconds
unfolding bucket_start
bucket_start_of q later seconds from to =
    omega
      (arith, remainder_of_split q (later - q * seconds) later seconds (omega arith) (omega arith))

bucket_start_multiple : (now seconds : ℕ) → bucket_start now seconds ≡ now / seconds * seconds
unfolding bucket_start
bucket_start_multiple now seconds = omega (arith, div-add-mod' now seconds)

-- Where windows are not empty, every time lies in its own window, and every time of that window has
-- the same window.
pub bucket_start_partition :
    (now later seconds : ℕ)
    → 0 < seconds
    → bucket_start now seconds ≤ later
    → later < bucket_start now seconds + seconds
    → (bucket_start now seconds ≤ now)
      × (now < bucket_start now seconds + seconds)
      × (bucket_start later seconds ≡ bucket_start now seconds)
bucket_start_partition now later seconds h from to =
    let start = bucket_start_multiple now seconds in
    (
      omega (arith, div-add-mod' now seconds),
      omega (arith, div-add-mod' now seconds, mod-lt now h),
      bucket_start_of (now / seconds) later seconds (omega arith) (omega arith) ∙ sym start,
    )

weekly_day :
    (now : ℕ)
    → period_start now "weekly" / day_seconds ≡ now / day_seconds - weekday (now / day_seconds)
unfolding period_start
weekly_day now = omega arith

-- From Monday, 1970-01-05, on, a week begins on a Monday, holds its own time, and is the week of
-- each of its times.
pub weekly_partition :
    (now later : ℕ)
    → 4 * day_seconds ≤ now
    → period_start now "weekly" ≤ later
    → later < period_start now "weekly" + 7 * day_seconds
    → (weekday (period_start now "weekly" / day_seconds) ≡ 0)
      × (period_start now "weekly" ≤ now)
      × (now < period_start now "weekly" + 7 * day_seconds)
      × (period_start later "weekly" ≡ period_start now "weekly")
unfolding period_start weekday
weekly_partition now later h from to =
    (rw weekly_day (omega arith), omega arith, omega arith, omega arith)
