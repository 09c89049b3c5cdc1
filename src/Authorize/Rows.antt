-- ===== src/Authorize/Rows.antt =====
-- The rows that `authorize` of apps/api/agentguard_api/authorization.py reads and writes, on the
-- columns that it uses; a row's `number` is its organization's id in the tables of the limits. The
-- encrypted payload is the record that is encrypted.
use aiagentguard.Json.{Value, Fields, Items}
use aiagentguard.Access.{Agent, Tool, KillSwitch}
use aiagentguard.Approvals.{ApprovalRequest, RequestStatus}
use aiagentguard.Dlp.{Expressions, Finding}
use aiagentguard.Risk.{Factor}
use aiagentguard.Policy.Evaluation.{Version, Obligation}
use aiagentguard.Authorize.Limits.{Capacity}
use aiagentguard.Authorize.Overrides.{Decision}
use aiagentguard.Prelude.{ℕ, String, Bool, Option, List}

pub record ToolRow (N : Type 0) : Type 0 where
  pub row : Tool
  pub organization_id : String
  pub financial : Bool
  pub destructive : Bool
  pub sensitive_data : Bool
  pub read_write_classification : String
  pub tags : Items N
  pub input_schema : Value N
  pub config : Fields N

pub record AgentRow : Type 0 where
  pub row : Agent
  pub name : String
  pub risk_level : String

-- `expressions` are the built-in ones with the organization's custom patterns.
pub record Organization : Type 0 where
  pub id : String
  pub number : ℕ
  pub name : String
  pub active : Bool
  pub dlp_action : String
  pub expressions : Expressions

pub record Permission : Type 0 where
  pub organization_id : String
  pub agent_id : String
  pub tool_id : String
  pub allowed : Bool

pub record Policy (N : Type 0) : Type 0 where
  pub id : String
  pub organization_id : String
  pub workspace_id : Option String
  pub enabled : Bool
  pub priority : N
  pub current_version : ℕ

pub record PolicyVersion (N : Type 0) : Type 0 where
  pub policy_id : String
  pub version : ℕ
  pub document : Value N

pub record Plaintext (N : Type 0) : Type 0 where
  pub arguments : Value N
  pub context : Value N
  pub tool_snapshot_hash : String

pub record Request (N : Type 0) : Type 0 where
  pub id : ℕ
  pub organization_id : String
  pub workspace_id : String
  pub agent_id : String
  pub tool_id : String
  pub credential_id : String
  pub correlation_id : String
  pub idempotency_key : Option String
  pub arguments_hash : String
  pub sanitized_arguments : Value N
  pub encrypted_payload : Plaintext N
  pub policy_id : Value N
  pub policy_version : Version N
  pub risk_score : ℕ
  pub decision : Decision
  pub status : RequestStatus
  pub approval_id : Option ℕ
  pub created_at : ℕ
  pub expires_at : ℕ

-- The notification "Approval required".
pub record Notice : Type 0 where
  pub organization_id : String
  pub tool : String
  pub approval_id : ℕ
  pub request_id : ℕ

-- The event `authorization.decision`.
pub record DecisionEvent (N : Type 0) : Type 0 where
  pub request_id : ℕ
  pub decision : Decision
  pub risk_score : ℕ
  pub arguments_hash : String
  pub factors : List Factor
  pub findings : List Finding
  pub obligations : List (Obligation N)
  pub approval_id : Option ℕ

pub record Store (N : Type 0) : Type 0 where
  pub organizations : List Organization
  pub tools : List (ToolRow N)
  pub permissions : List Permission
  pub switches : List KillSwitch
  pub policies : List (Policy N)
  pub versions : List (PolicyVersion N)
  pub capacity : Capacity
  pub requests : List (Request N)
  pub approvals : List ApprovalRequest
  pub notices : List Notice
  pub events : List (DecisionEvent N)

-- `crashed` is an exception that nothing catches.
pub data Outcome (N : Type 0) : Type 0 where
  rejected : (code : ℕ) → (detail : String) → Outcome N
  crashed : Outcome N
  answered : Request N → ToolRow N → Outcome N
