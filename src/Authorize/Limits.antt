-- ===== src/Authorize/Limits.antt =====
-- What an action that may go on consumes: rate limits, the plan's quota and budgets, in the order of
-- `authorize` of apps/api/agentguard_api/authorization.py, with PLAN_LIMITS and
-- `action_quota_available` of apps/api/agentguard_api/limits.py.
use aiagentguard.Budgets.{Budget, Ledger, Facts, Verdict, granted, reserve_budgets}
use aiagentguard.RateLimits.{RateLimit, Buckets, Backend, Admission, admitted, acquire_rate_limits}
use aiagentguard.Periods.{period_start}
use aiagentguard.Authorize.Overrides.{Decision, allowed, needs_approval, rate_limited, over_budget}
use aiagentguard.Prelude.{
  ℕ, ◌+◌, String, Bool, true, false, not, ◌&&◌, List, [], ◌∷◌, ltb, leb, ◌==◌, if◌then◌else◌,
  str_eq, select,
}

pub record PlanLimits : Type 0 where
  pub agents : ℕ
  pub tools : ℕ
  pub actions : ℕ
  pub retention_days : ℕ

-- `PLAN_LIMITS.get(plan, PLAN_LIMITS["free"])`.
unfoldable pub plan_limits : String → PlanLimits
plan_limits plan =
    if str_eq plan "pro"
    then record { agents = 20; tools = 100; actions = 100000; retention_days = 30 }
    else if str_eq plan "team"
    then record { agents = 100; tools = 1000; actions = 1000000; retention_days = 90 }
    else if str_eq plan "enterprise"
    then record {
      agents = 10000000;
      tools = 10000000;
      actions = 10000000000;
      retention_days = 3650;
    }
    else record { agents = 3; tools = 5; actions = 10000; retention_days = 7 }

pub record UsageEvent : Type 0 where
  pub organization_id : ℕ
  pub kind : String
  pub quantity : ℕ
  pub occurred_at : ℕ

unfoldable pub quantity_of : List UsageEvent → ℕ
quantity_of [] = 0
quantity_of (e ∷ es) = e.quantity + quantity_of es

unfoldable pub used_actions : ℕ → ℕ → List UsageEvent → ℕ
used_actions now organization es = quantity_of (
    select
      (λ e.
        (e.organization_id == organization)
        && (str_eq e.kind "protected_action" && leb (period_start now "monthly") e.occurred_at))
      es)

unfoldable pub action_quota_available : ℕ → ℕ → String → List UsageEvent → Bool
action_quota_available now organization plan es =
    ltb (used_actions now organization es) (plan_limits plan).actions

-- The rows that the limits read and write.
pub record Capacity : Type 0 where
  pub limits : List RateLimit
  pub buckets : Buckets
  pub plan : String
  pub usage : List UsageEvent
  pub budgets : List Budget
  pub ledger : Ledger

abbrev pub goes_on : Decision → Bool
goes_on allowed = true
goes_on needs_approval = true
goes_on _ = false

abbrev pub is_admitted : Admission → Bool
is_admitted admitted = true
is_admitted _ = false

abbrev pub is_granted : Verdict → Bool
is_granted granted = true
is_granted _ = false

-- The decision after `if decision in {"allow", "require_approval"}: …`, for the request `id`.
unfoldable pub consume : Backend → ℕ → ℕ → ℕ → Facts → ℕ → Decision → Capacity → Decision × Capacity
consume backend now organization id facts amount_minor decision c =
    let (admission, buckets) =
      acquire_rate_limits backend now organization facts c.limits c.buckets in
    let counted = record c { buckets = buckets } in
    let (verdict, ledger) =
      reserve_budgets facts now amount_minor c.budgets organization id c.ledger in
    if goes_on decision
    then (if not (is_admitted admission)
        then (rate_limited, counted)
        else if not (action_quota_available now organization c.plan c.usage)
        then (over_budget, counted)
        else if is_granted verdict
        then (decision, record counted { ledger = ledger })
        else (over_budget, record counted { ledger = ledger }))
    else (decision, c)
