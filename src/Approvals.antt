-- ===== src/Approvals.antt =====
-- Approvals: `decide_approval` of apps/api/agentguard_api/admin_routes.py on the tables
-- ApprovalRequest, ApprovalDecision, OrganizationMember and AuthorizationRequest of
-- apps/api/agentguard_api/models.py. The store holds one approval with its request, both locked by
-- the caller, the tables that the handler queries, the budget ledger, and the audit events that it
-- appends, newest first. A call returns its answer with the store that is committed.
pub mod Quorum
pub mod Closing
mod Examples
use aiagentguard.Budgets.{Ledger, settle_budget_reservations}
use aiagentguard.Prelude.{
  ℕ, ◌+◌, String, Bool, true, false, not, ◌&&◌, ◌||◌, Option, none, some, List, [], ◌∷◌, any,
  select, length, ltb, leb, ◌==◌, if◌then◌else◌, str_eq,
}

pub data ApprovalState : Type 0 where
  pending approved rejected expired : ApprovalState

pub data RequestStatus : Type 0 where
  evaluating authorized pending_approval request_approved request_rejected request_expired :
      RequestStatus
  executing succeeded failed denied agent_disabled rate_limited budget_exceeded : RequestStatus

-- The two texts that `resolved` can hold.
pub data Resolution : Type 0 where
  granted refused : Resolution

pub data Vote : Type 0 where
  approve reject : Vote

pub record ApprovalRequest : Type 0 where
  pub id : ℕ
  pub organization_id : ℕ
  pub mode : String
  pub threshold : ℕ
  pub eligible_roles : List String
  pub state : ApprovalState
  pub expires_at : ℕ
  pub resolved_at : Option ℕ

pub record ApprovalDecision : Type 0 where
  pub organization_id : ℕ
  pub approval_request_id : ℕ
  pub user_id : ℕ
  pub decision : Vote
  pub comment : String

pub record Member : Type 0 where
  pub organization_id : ℕ
  pub user_id : ℕ
  pub role : String
  pub active : Bool

-- The columns that the handler reads or writes.
pub record Request : Type 0 where
  pub id : ℕ
  pub status : RequestStatus

-- The event `approval.decision`.
pub record DecisionEvent : Type 0 where
  pub request_id : ℕ
  pub user_id : ℕ
  pub decision : Vote
  pub approval_id : ℕ
  pub resolution : Option Resolution
  pub comment : String

pub record Store : Type 0 where
  pub approval : ApprovalRequest
  pub request : Request
  pub decisions : List ApprovalDecision
  pub members : List Member
  pub ledger : Ledger
  pub events : List DecisionEvent

pub data Answer : Type 0 where
  forbidden conflict gone : Answer
  decided :
      (state : ApprovalState)
      → (status : RequestStatus) → (approvals rejects threshold : ℕ) → Answer

abbrev pub is_pending : ApprovalState → Bool
is_pending pending = true
is_pending _ = false

abbrev pub awaits_approval : RequestStatus → Bool
awaits_approval pending_approval = true
awaits_approval _ = false

abbrev pub is_approve : Vote → Bool
is_approve approve = true
is_approve reject = false

abbrev pub decided_by : ℕ → ℕ → ApprovalDecision → Bool
decided_by approval user d = (d.approval_request_id == approval) && (d.user_id == user)

abbrev pub approvals_in : ℕ → List ApprovalDecision → ℕ
approvals_in approval ds =
    length (select (λ d. (d.approval_request_id == approval) && is_approve d.decision) ds)

abbrev pub rejects_in : ℕ → List ApprovalDecision → ℕ
rejects_in approval ds =
    length (select (λ d. (d.approval_request_id == approval) && not (is_approve d.decision)) ds)

abbrev pub eligible_count : ApprovalRequest → List Member → ℕ
eligible_count a ms = length (
    select
      (λ m.
        (m.organization_id == a.organization_id)
        && (m.active && any (str_eq m.role) a.eligible_roles))
      ms)

abbrev pub needed : ApprovalRequest → List Member → ℕ
needed a ms = if str_eq a.mode "all" then eligible_count a ms else a.threshold

-- `eligible_count - rejects < threshold` on integers.
unfoldable pub resolution_of : ApprovalRequest → ℕ → ℕ → ℕ → ℕ → Option Resolution
resolution_of a approvals rejects eligible threshold =
    if leb threshold approvals
    then some granted
    else if ltb 0 rejects
        && ((str_eq a.mode "any" || str_eq a.mode "all") || ltb eligible (threshold + rejects))
    then some refused
    else none

-- What a resolution writes on the approval, the request and the ledger.
unfoldable pub resolve : ℕ → Option Resolution → Store → Store
resolve now none s = s
resolve now (some granted) s = record s {
  approval = record s.approval { state = approved; resolved_at = some now };
  request = record s.request { status = request_approved };
}
resolve now (some refused) s = record s {
  approval = record s.approval { state = rejected; resolved_at = some now };
  request = record s.request { status = request_rejected };
  ledger = settle_budget_reservations s.request.id (some false) s.ledger;
}

unfoldable pub expire : ℕ → Store → Store
expire now s = record s {
  approval = record s.approval { state = expired; resolved_at = some now };
  request = record s.request { status = request_expired };
  ledger = settle_budget_reservations s.request.id (some false) s.ledger;
}

-- The part from `db.add` on.
unfoldable pub vote : ℕ → ℕ → Vote → String → Store → Answer × Store
vote now user choice comment s =
    let a = s.approval in
    let ds : List ApprovalDecision =
      record {
        organization_id = a.organization_id;
        approval_request_id = a.id;
        user_id = user;
        decision = choice;
        comment = comment;
      }
      ∷ s.decisions in
    let approvals = approvals_in a.id ds in
    let rejects = rejects_in a.id ds in
    let threshold = needed a s.members in
    let resolution = resolution_of a approvals rejects (eligible_count a s.members) threshold in
    let s' = resolve now resolution (record s { decisions = ds }) in
    let event : DecisionEvent = record {
      request_id = s.request.id;
      user_id = user;
      decision = choice;
      approval_id = a.id;
      resolution = resolution;
      comment = comment;
    } in
    (
      decided s'.approval.state s'.request.status approvals rejects threshold,
      record s' { events = event ∷ s.events },
    )

unfoldable pub decide_approval : ℕ → ℕ → String → Vote → String → Store → Answer × Store
decide_approval now user role choice comment s =
    let a = s.approval in
    if not (any (str_eq role) a.eligible_roles)
    then (forbidden, s)
    else if not (is_pending a.state) || not (awaits_approval s.request.status)
    then (conflict, s)
    else if leb a.expires_at now
    then (gone, expire now s)
    else if any (decided_by a.id user) s.decisions
    then (conflict, s)
    else vote now user choice comment s
