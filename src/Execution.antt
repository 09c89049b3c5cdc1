-- ===== src/Execution.antt =====
-- The life of an authorized request: `_expire_if_needed`, `_finalize`, `_check_execution_allowed`,
-- `_execute_remote`, `claim_sdk_request` and `report_sdk_result` of
-- apps/api/agentguard_api/runtime_routes.py, and the claims' half of `expire_stale` of
-- apps/worker/agentguard_worker/main.py. The store holds one locked request with what its handlers
-- read and write; the operations of an agent are here what their handlers do after `_owned_request`,
-- which Owned puts before them. Each operation is one transaction and reads the clock once, as
-- `now`. The texts of results, the wire format and `correlation_id` are left out, since no guard
-- reads them.
pub mod Dispatch
pub mod Claims
pub mod Release
pub mod Owned
mod Examples
use aiagentguard.Access.{Access, Tool, execution_blocked, is_expired}
use aiagentguard.Approvals.{
  ApprovalState, pending, expired, RequestStatus, authorized, request_approved, request_expired,
  executing, succeeded, failed, agent_disabled, is_pending, awaits_approval,
}
use aiagentguard.Budgets.{Ledger, settle_budget_reservations}
use aiagentguard.Prelude.{
  ℕ, ◌+◌, String, Bool, true, false, not, ◌&&◌, ◌||◌, Option, none, some, List, [], ◌∷◌, leb,
  if◌then◌else◌, str_eq,
}

-- The decrypted payload.
pub record Payload : Type 0 where
  pub tool_snapshot_hash : String
  pub arguments : String

pub record Execution : Type 0 where
  pub id : ℕ
  pub organization_id : String
  pub agent_id : String
  pub credential_id : String
  pub status : RequestStatus
  pub reason : String
  pub execution_claim_hash : Option String
  pub claim_expires_at : Option ℕ
  pub expires_at : ℕ
  pub payload : Option Payload
  pub started_at : Option ℕ
  pub completed_at : Option ℕ

pub data EventType : Type 0 where
  approval_expired tool_execution execution_blocked_event execution_claimed claim_expired :
      EventType

pub record Site : Type 0 where
  pub request : Execution
  pub approval : Option ApprovalState
  pub tool : Tool
  pub access : Access
  pub ledger : Ledger
  pub events : List EventType

-- `granted` hands the arguments to the agent's process, and `called` to the provider.
pub data Reply : Type 0 where
  refused : (code : ℕ) → (detail : String) → Reply
  output : RequestStatus → Reply
  granted : (claim_token arguments : String) → Reply
  called : (arguments : String) → Reply

abbrev pub is_open : RequestStatus → Bool
is_open authorized = true
is_open request_approved = true
is_open _ = false

abbrev pub is_executing : RequestStatus → Bool
is_executing executing = true
is_executing _ = false

-- `settle_budget_reservations` for the request of the store.
abbrev pub settle : Option Bool → Site → Ledger
settle outcome s = settle_budget_reservations s.request.id outcome s.ledger

abbrev expired_approval : Option ApprovalState → Option ApprovalState
expired_approval (some pending) = some expired
expired_approval other = other

unfoldable pub expire_if_needed : ℕ → Site → Site
expire_if_needed now s =
    if awaits_approval s.request.status && leb s.request.expires_at now
    then record s {
      request = record s.request { status = request_expired };
      approval = expired_approval s.approval;
      ledger = settle (some false) s;
      events = approval_expired ∷ s.events;
    }
    else s

-- The two values of `status` that a result can have.
pub data ResultStatus : Type 0 where
  result_succeeded result_failed : ResultStatus

abbrev pub status_of : ResultStatus → RequestStatus
status_of result_succeeded = succeeded
status_of result_failed = failed

abbrev pub outcome_of : ResultStatus → Option Bool → Option Bool
outcome_of result_succeeded budget_succeeded = some true
outcome_of result_failed budget_succeeded = budget_succeeded

unfoldable pub finalize : ℕ → ResultStatus → Option Bool → Site → Reply × Site
finalize now status budget_succeeded s = (
  output (status_of status),
  record s {
    request = record s.request {
      status = status_of status;
      completed_at = some now;
      execution_claim_hash = none;
      claim_expires_at = none;
      payload = none;
    };
    ledger = settle (outcome_of status budget_succeeded) s;
    events = tool_execution ∷ s.events;
  },
)

-- What `_check_execution_allowed` commits before it raises.
unfoldable pub block : Site → Site
block s = record s {
  request = record s.request {
    status = agent_disabled;
    reason = "Execution blocked by current emergency or access controls";
  };
  ledger = settle (some false) s;
  events = execution_blocked_event ∷ s.events;
}

abbrev blocked_reply : Reply
blocked_reply = refused 403 "Execution blocked by current emergency or access controls"

abbrev changed_reply : Reply
changed_reply = refused 409 "Tool configuration changed after authorization"

unfoldable pub tool_changed : Site → Site
tool_changed s = record s {
  request = record s.request {
    status = failed;
    reason = "Tool configuration changed after authorization";
  };
  ledger = settle (some false) s;
}

-- `_execute_remote` up to the commit that precedes the call of the provider.
unfoldable pub start_remote : ℕ → Site → Reply × Site
start_remote now s =
    if str_eq s.tool.adapter "sdk"
    then (refused 409 "SDK tools must be claimed and executed in the agent process", s)
    else if not (is_open s.request.status)
    then (output s.request.status, s)
    else if execution_blocked now s.access s.tool
    then (blocked_reply, block s)
    else if leb s.request.expires_at now
    then (
      output request_expired,
      record s {
        request = record s.request { status = request_expired };
        ledger = settle (some false) s;
      },
    )
    else elim s.request.payload [
      | none ↦ (refused 409 "Executable payload is unavailable", s)
      | some payload ↦
          if str_eq payload.tool_snapshot_hash s.tool.snapshot
          then (
            called payload.arguments,
            record s { request = record s.request { status = executing; started_at = some now } },
          )
          else (changed_reply, tool_changed s)
    ]

-- The rest of `_execute_remote`: the provider's answer was good, or it failed or broke the schema.
abbrev pub finish_remote : ℕ → ResultStatus → Site → Reply × Site
finish_remote now status s = finalize now status none s

-- The worker on a claim that is overdue.
unfoldable pub expire_claim : ℕ → Site → Site
expire_claim now s = elim s.request.claim_expires_at [
  | none ↦ s
  | some at ↦
      if is_executing s.request.status && leb at now
      then record s {
        request = record s.request {
          status = failed;
          execution_claim_hash = none;
          claim_expires_at = none;
        };
        ledger = settle none s;
        events = claim_expired ∷ s.events;
      }
      else s
]

-- `digest` is `digest_secret`: a SHA-256 with the deployment's pepper.
module _ (digest : String → String) where
  -- The handler after `_owned_request`; `claim_token` is fresh, and `ttl` is `execution_claim_ttl_seconds`.
  unfoldable pub claim_sdk_request : ℕ → ℕ → String → Site → Reply × Site
  claim_sdk_request now ttl claim_token before =
      let s = expire_if_needed now before in
      if not (str_eq s.tool.adapter "sdk")
      then (refused 409 "Only SDK tools can be claimed by an agent process", s)
      else if not (is_open s.request.status)
      then (refused 409 "Request cannot be claimed from its state", s)
      else if execution_blocked now s.access s.tool
      then (blocked_reply, block s)
      else if leb s.request.expires_at now
      then (refused 410 "Request has expired", s)
      else elim s.request.payload [
        | none ↦ (refused 410 "Request has expired", s)
        | some frozen ↦
            if str_eq frozen.tool_snapshot_hash s.tool.snapshot
            then (
              granted claim_token frozen.arguments,
              record s {
                request = record s.request {
                  status = executing;
                  started_at = some now;
                  execution_claim_hash = some (digest claim_token);
                  claim_expires_at = some (now + ttl);
                };
                events = execution_claimed ∷ s.events;
              },
            )
            else (changed_reply, tool_changed s)
      ]

  abbrev pub holds_claim : Option String → Option String → Bool
  holds_claim (some claim) (some expected) =
      not (str_eq expected "") && (not (str_eq claim "") && str_eq (digest claim) expected)
  holds_claim _ _ = false

  -- `valid` says whether the result fits the tool's output schema.
  abbrev checked_status : ResultStatus → Bool → ResultStatus
  checked_status result_succeeded valid = if valid then result_succeeded else result_failed
  checked_status result_failed valid = result_failed

  -- The handler after `_owned_request`.
  unfoldable pub report_sdk_result : ℕ → Option String → ResultStatus → Bool → Site → Reply × Site
  report_sdk_result now claim status valid s =
      if not (is_executing s.request.status && holds_claim claim s.request.execution_claim_hash)
      then (refused 409 "Execution claim is invalid or already consumed", s)
      else if is_expired now s.request.claim_expires_at
      then (
        refused 410 "Execution claim expired",
        record s {
          request = record s.request { status = failed; execution_claim_hash = none };
          ledger = settle none s;
        },
      )
      else finalize now (checked_status status valid) none s
