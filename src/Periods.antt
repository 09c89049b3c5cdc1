-- ===== src/Periods.antt =====
-- Fixed windows and budget periods: `_bucket_start` and `_period_start` of
-- apps/api/agentguard_api/limits.py. A time is its whole number of seconds since 1970 in UTC, and
-- a day its number since then; `weekday` and `day` of Python's `datetime` are written out for the
-- proleptic Gregorian calendar.
pub mod Bounds
mod Examples
use aiagentguard.Prelude.{ℕ, ◌+◌, ◌-◌, ◌*◌, ◌/◌, ◌%◌, String, ◌≡◌, refl, str_eq, if◌then◌else◌}

abbrev pub day_seconds : ℕ
day_seconds = 86400

-- Monday is 0; 1970-01-01 was a Thursday.
unfoldable pub weekday : ℕ → ℕ
weekday day = (day + 3) % 7

-- Years are counted from March, in cycles of 400 years.
year_of_cycle : ℕ → ℕ
year_of_cycle n = (n - n / 1460 + n / 36524 - n / 146096) / 365

day_of_year : ℕ → ℕ
unfolding year_of_cycle
day_of_year n = let year = year_of_cycle n in n - (365 * year + year / 4 - year / 100)

unfoldable pub day_of_month : ℕ → ℕ
unfolding day_of_year
day_of_month day =
    let since_march = day_of_year ((day + 719468) % 146097) in
    let month = (5 * since_march + 2) / 153 in since_march - (153 * month + 2) / 5 + 1

unfoldable pub bucket_start : ℕ → ℕ → ℕ
bucket_start now seconds = now - now % seconds

unfoldable pub period_start : ℕ → String → ℕ
period_start now period =
    let today = now / day_seconds in
    if str_eq period "daily"
    then today * day_seconds
    else if str_eq period "weekly"
    then (today - weekday today) * day_seconds
    else (today - (day_of_month today - 1)) * day_seconds

-- 2026-11-26 is a Thursday; its week began on the 23rd and its month on the 1st.
week_of_november : period_start 1795709859 "weekly" ≡ 1795392000
unfolding period_start weekday
week_of_november = refl

month_of_november : period_start 1795709859 "monthly" ≡ 1793491200
unfolding period_start day_of_month
month_of_november = refl
