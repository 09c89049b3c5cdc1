-- ===== src/RateLimits.antt =====
-- Rate limits: `acquire_rate_limits` of apps/api/agentguard_api/limits.py, with the counters in the
-- table RateLimitBucket of apps/api/agentguard_api/models.py and with those in Redis. A bucket is
-- found by its unique key, a limit and the start of a window; windows are positive.
pub mod Counting
mod Examples
use aiagentguard.Budgets.{Facts, scope_matches}
use aiagentguard.Periods.{bucket_start}
use aiagentguard.Prelude.{
  ℕ, ◌+◌, String, Bool, true, false, ◌&&◌, Option, none, some, List, [], ◌∷◌, leb, ◌==◌,
  if◌then◌else◌, select,
}

pub record RateLimit : Type 0 where
  pub id : ℕ
  pub organization_id : ℕ
  pub scope : String
  pub scope_id : Option String
  pub window_seconds : ℕ
  pub max_requests : ℕ
  pub active : Bool

-- The counts of the buckets that are there.
abbrev pub Buckets : Type 0
Buckets = ℕ → ℕ → Option ℕ

-- `unavailable` is the answer when Redis fails.
pub data Admission : Type 0 where
  admitted : Admission
  exceeded : (max_requests window_seconds : ℕ) → Admission
  unavailable : Admission

abbrev pub count_at : Buckets → ℕ → ℕ → ℕ
count_at bs limit start = elim (bs limit start) [ none ↦ 0 | some n ↦ n ]

unfoldable pub put_count : Buckets → ℕ → ℕ → ℕ → Buckets
put_count bs limit start n = λ l s. if (l == limit) && (s == start) then some n else bs l s

-- The rows of the query that `_scope_matches`.
abbrev pub matched : ℕ → Facts → List RateLimit → List RateLimit
matched organization facts table =
    select (λ l. scope_matches l.scope l.scope_id facts)
      (select (λ l. (l.organization_id == organization) && l.active) table)

-- The loop on the database: a bucket that is not there is inserted with 0.
unfoldable pub count_all : ℕ → List RateLimit → Buckets → Admission × Buckets
count_all now [] bs = (admitted, bs)
count_all now (l ∷ ls) bs =
    let start = bucket_start now l.window_seconds in
    let count = count_at bs l.id start in
    let rest = count_all now ls (put_count bs l.id start (count + 1)) in
    if leb l.max_requests count
    then (exceeded l.max_requests l.window_seconds, put_count bs l.id start count)
    else rest

-- The loop on Redis: the script increments first. A key outlives its window.
unfoldable pub count_all_redis : ℕ → List RateLimit → Buckets → Admission × Buckets
count_all_redis now [] bs = (admitted, bs)
count_all_redis now (l ∷ ls) bs =
    let start = bucket_start now l.window_seconds in
    let value = count_at bs l.id start + 1 in
    let counted = put_count bs l.id start value in
    let rest = count_all_redis now ls counted in
    if leb value l.max_requests then rest else (exceeded l.max_requests l.window_seconds, counted)

-- Where the counters are, and whether Redis answers.
pub data Backend : Type 0 where
  database redis redis_down : Backend

unfoldable pub acquire_matched : Backend → ℕ → List RateLimit → Buckets → Admission × Buckets
acquire_matched backend now [] bs = (admitted, bs)
acquire_matched database now (l ∷ ls) bs = count_all now (l ∷ ls) bs
acquire_matched redis now (l ∷ ls) bs = count_all_redis now (l ∷ ls) bs
acquire_matched redis_down now (l ∷ ls) bs = (unavailable, bs)

unfoldable pub acquire_rate_limits :
    Backend → ℕ → ℕ → Facts → List RateLimit → Buckets → Admission × Buckets
acquire_rate_limits backend now organization facts table bs =
    acquire_matched backend now (matched organization facts table) bs
