-- ===== src/Periods/Examples.antt =====
-- The theorems on windows and periods at times of November 2026: `_bucket_start` and
-- `_period_start` of apps/api/agentguard_api/limits.py.
use aiagentguard.Prelude.{◌≡◌, ◌≤◌, ◌<◌, ◌+◌, ◌*◌, ◌/◌, arith}
use aiagentguard.Periods.{bucket_start, period_start, weekday, day_seconds}
use aiagentguard.Periods.Bounds.{bucket_start_partition, weekly_partition}

bucket_start_partition_example :
    (bucket_start 1795709859 3600 ≤ 1795709859)
    × (1795709859 < bucket_start 1795709859 3600 + 3600)
    × (bucket_start 1795710000 3600 ≡ bucket_start 1795709859 3600)
unfolding bucket_start
bucket_start_partition_example =
    bucket_start_partition 1795709859 1795710000 3600 (omega arith) (omega arith) (omega arith)

weekly_partition_example :
    (weekday (period_start 1795709859 "weekly" / day_seconds) ≡ 0)
    × (period_start 1795709859 "weekly" ≤ 1795709859)
    × (1795709859 < period_start 1795709859 "weekly" + 7 * day_seconds)
    × (period_start 1795400000 "weekly" ≡ period_start 1795709859 "weekly")
unfolding period_start weekday
weekly_partition_example =
    weekly_partition 1795709859 1795400000 (omega arith) (omega arith) (omega arith)
