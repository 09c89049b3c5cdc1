-- ===== src/Worker/Expiry.antt =====
-- `expire_stale` of apps/worker/agentguard_worker/main.py on the tables ApprovalRequest and
-- AuthorizationRequest and the budget ledger. Of an audit event its request and its type are kept.
use aiagentguard.Approvals.{
  ApprovalRequest, expired, RequestStatus, request_expired, executing, failed, is_pending,
  awaits_approval,
}
use aiagentguard.Budgets.{Ledger, settle_budget_reservations}
use aiagentguard.Worker.Deliveries.{limit}
use aiagentguard.Prelude.{
  ℕ, ◌+◌, String, Bool, true, false, ◌&&◌, Option, none, some, List, [], ◌∷◌, ◌++◌, any, map,
  select, leb, ◌==◌, if◌then◌else◌,
}

pub record Approval : Type 0 where
  pub row : ApprovalRequest
  pub request_id : ℕ

pub record Request : Type 0 where
  pub id : ℕ
  pub organization_id : ℕ
  pub status : RequestStatus
  pub execution_claim_hash : Option String
  pub claim_expires_at : Option ℕ

pub data Event : Type 0 where
  approval_expired claim_expired : (request_id : ℕ) → Event

pub record Store : Type 0 where
  pub approvals : List Approval
  pub requests : List Request
  pub ledger : Ledger
  pub events : List Event

abbrev pub is_stale : ℕ → Approval → Bool
is_stale now a = is_pending a.row.state && leb a.row.expires_at now

abbrev is_executing : RequestStatus → Bool
is_executing executing = true
is_executing _ = false

abbrev pub is_past : ℕ → Option ℕ → Bool
is_past now none = false
is_past now (some at) = leb at now

abbrev pub is_overdue : ℕ → Request → Bool
is_overdue now r = is_executing r.status && is_past now r.claim_expires_at

-- The request of an approval, if there is one that awaits it.
abbrev pub awaits : Approval → Request → Bool
awaits a r = (r.id == a.request_id) && (r.organization_id == a.row.organization_id)

abbrev expire_request : Request → Request
expire_request r = record r { status = request_expired }

abbrev expire_approval_row : ℕ → ℕ → Approval → Approval
expire_approval_row now id a =
    if a.row.id == id
    then record a { row = record a.row { state = expired; resolved_at = some now } }
    else a

-- One turn of the loop over the approvals.
unfoldable pub expire_approval : ℕ → Approval → ℕ × Store → ℕ × Store
expire_approval now a (count, s) =
    if any (λ r. awaits a r && awaits_approval r.status) s.requests
    then (
      count + 1,
      record s {
        approvals = map (expire_approval_row now a.row.id) s.approvals;
        requests = map (λ r. if awaits a r then expire_request r else r) s.requests;
        ledger = settle_budget_reservations a.request_id (some false) s.ledger;
        events = s.events ++ (approval_expired a.request_id ∷ []);
      },
    )
    else (count, s)

unfoldable pub expire_approvals : ℕ → List Approval → ℕ × Store → ℕ × Store
expire_approvals now [] found = found
expire_approvals now (a ∷ rest) found = expire_approvals now rest (expire_approval now a found)

abbrev pub fail_claim : ℕ → Request → Request
fail_claim id r =
    if r.id == id
    then record r { status = failed; execution_claim_hash = none; claim_expires_at = none }
    else r

-- One turn of the loop over the claims: nobody knows the outcome, so the budget stays reserved.
unfoldable pub expire_claims : List Request → ℕ × Store → ℕ × Store
expire_claims [] found = found
expire_claims (r ∷ rest) (count, s) = expire_claims rest (
  count + 1,
  record s {
    requests = map (fail_claim r.id) s.requests;
    ledger = settle_budget_reservations r.id none s.ledger;
    events = s.events ++ (claim_expired r.id ∷ []);
  },
)

unfoldable pub expire_stale : ℕ → ℕ → Store → ℕ × Store
expire_stale batch now s =
    let found = expire_approvals now (limit batch (select (is_stale now) s.approvals)) (0, s) in
    expire_claims (limit batch (select (is_overdue now) found.1.requests)) found
