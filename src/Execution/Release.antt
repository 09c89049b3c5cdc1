-- ===== src/Execution/Release.antt =====
-- Requests that are stopped give their budget back: `_execute_remote`, `claim_sdk_request` and
-- `_expire_if_needed` of apps/api/agentguard_api/runtime_routes.py.
use aiagentguard.Approvals.{executing}
use aiagentguard.Budgets.Settle.{due}
use aiagentguard.Budgets.Invariant.{due-settle}
use aiagentguard.Execution.{
  Site, settle, expire_if_needed, block, tool_changed, start_remote, claim_sdk_request,
}
use aiagentguard.Prelude.{ℕ, String, ◌≡◌, ◌≢◌, ◌⊎◌, subst, sym, false, some, arith, inl, inr}

-- A transaction that starts a request, or stops it, or leaves it alone.
abbrev pub Steps : Site → Site → Type 0
Steps s after =
    ((after.request.status ≡ s.request.status) × (after.ledger ≡ s.ledger))
    ⊎ (((after.request.status ≡ executing) × (after.ledger ≡ s.ledger))
        ⊎ (after.ledger ≡ settle (some false) s))

start-Steps : (now : ℕ) (s : Site) → Steps s (start_remote now s).1
unfolding start_remote block tool_changed
start-Steps now s = ground arith

claim-Steps :
    (digest : String → String) (now ttl : ℕ) (token : String) (s : Site)
    → Steps s (claim_sdk_request digest now ttl token s).1
unfolding claim_sdk_request expire_if_needed block tool_changed
claim-Steps digest now ttl token s = ground arith

Steps-release :
    (s after : Site)
    → Steps s after
    → after.request.status ≢ s.request.status
    → after.request.status ≢ executing
    → (i start : ℕ) → due s.request.id i start after.ledger.reservations ≡ 0
Steps-release s after (inl same) moved idle i start = absurd (moved same.0)
Steps-release s after (inr (inl runs)) moved idle i start = absurd (idle runs.0)
Steps-release s after (inr (inr settled)) moved idle i start =
    rw settled (due-settle false s.request.id s.ledger i start)

-- When a claim or the start of a remote execution moves a request to another state than executing,
-- none of the reservations of the request stays open.
pub stopped_releases :
    (digest : String → String) (now ttl : ℕ) (token : String) (s after : Site)
    → (after ≡ (start_remote now s).1) ⊎ (after ≡ (claim_sdk_request digest now ttl token s).1)
    → after.request.status ≢ s.request.status
    → after.request.status ≢ executing
    → (i start : ℕ) → due s.request.id i start after.ledger.reservations ≡ 0
stopped_releases digest now ttl token s after (inl e) moved idle i start =
    Steps-release s after (subst (Steps s) (sym e) (start-Steps now s)) moved idle i start
stopped_releases digest now ttl token s after (inr e) moved idle i start =
    Steps-release s after (subst (Steps s) (sym e) (claim-Steps digest now ttl token s)) moved idle
      i start
