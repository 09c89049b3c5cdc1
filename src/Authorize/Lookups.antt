-- ===== src/Authorize/Lookups.antt =====
-- What `authorize` looks up, with `_current_policies`, `_history` and `request_output` of
-- apps/api/agentguard_api/authorization.py. Parameters are the numbers with what is done on them,
-- `yaml.safe_load`, `hash_payload` and `validate` of jsonschema. A call has the id that its request
-- gets, which is that of its approval too, and the settings' times to live.
use mathlib.Core.Option
use aiagentguard.Json.{
  Numbers, Value, null, bool, num, str, list, dict, Items, nil, cons, Fields, end, field, get,
  truthy,
}
use aiagentguard.Access.{Credential}
use aiagentguard.Approvals.{
  RequestStatus, authorized, pending_approval, request_approved, request_rejected, request_expired,
  executing, succeeded, failed, denied as denied_status, agent_disabled,
  rate_limited as limited_status, budget_exceeded,
}
use aiagentguard.RateLimits.{Backend}
use aiagentguard.Risk.{Amounts, score, Factor}
use aiagentguard.Policy.Documents.{Loaded, redact}
use aiagentguard.Policy.Evaluation.{Obligation, obliged}
use aiagentguard.Authorize.Inputs.{Money, Payload}
use aiagentguard.Authorize.Overrides.{
  Decision, allowed, needs_approval, denied, disabled, rate_limited, over_budget,
}
use aiagentguard.Authorize.Rows.{
  ToolRow, AgentRow, Permission, Policy, PolicyVersion, Request, Store, Outcome, rejected, answered,
}
use aiagentguard.Prelude.{
  ℕ, ◌-◌, String, Bool, true, false, not, ◌&&◌, ◌||◌, Option, none, some, List, [], ◌∷◌, first,
  length, select, leb, ◌==◌, if◌then◌else◌, str_eq,
}

pub data SchemaFailure : Type 0 where
  validation_error schema_error : SchemaFailure

pub record Libraries (numbers : Numbers) : Type 0 where
  pub money : Money numbers
  pub amounts : Amounts numbers
  pub safe_load : String → Loaded numbers.Number
  pub hash_payload : Fields numbers.Number → String
  pub validate : Value numbers.Number → Fields numbers.Number → Option SchemaFailure

pub record Settings : Type 0 where
  pub backend : Backend
  pub authorization_ttl_seconds : ℕ
  pub approval_ttl_seconds : ℕ

pub record Call (N : Type 0) : Type 0 where
  pub now : ℕ
  pub id : ℕ
  pub credential : Credential
  pub agent : AgentRow
  pub payload : Payload N
  pub correlation_id : String

abbrev pub is_key : Option String → String → Bool
is_key none key = false
is_key (some k) key = str_eq k key

abbrev pub status_of : Decision → RequestStatus
status_of allowed = authorized
status_of needs_approval = pending_approval
status_of denied = denied_status
status_of disabled = agent_disabled
status_of rate_limited = limited_status
status_of over_budget = budget_exceeded

module _ {N : Type 0} where
  abbrev pub tool_by_id : String → List (ToolRow N) → Option (ToolRow N)
  tool_by_id id tools = first (λ t. str_eq t.row.id id) tools

  abbrev pub tool_by_name : AgentRow → String → List (ToolRow N) → Option (ToolRow N)
  tool_by_name agent name tools =
      first
        (λ t.
          str_eq t.organization_id agent.row.organization_id
          && (str_eq t.row.name name && str_eq t.row.environment agent.row.environment))
        tools

  abbrev pub permission_of : AgentRow → ToolRow N → List Permission → Option Bool
  permission_of agent tool ps =
      Option.map (λ (p : Permission). p.allowed)
        (first
          (λ p.
            str_eq p.organization_id agent.row.organization_id
            && (str_eq p.agent_id agent.row.id && str_eq p.tool_id tool.row.id))
          ps)

  abbrev pub used_by : AgentRow → Request N → Bool
  used_by agent r =
      str_eq r.organization_id agent.row.organization_id && str_eq r.agent_id agent.row.id

  abbrev pub previous_request : AgentRow → String → List (Request N) → Option (Request N)
  previous_request agent key rs = first (λ r. used_by agent r && is_key r.idempotency_key key) rs

  abbrev pub recent_uses : ℕ → AgentRow → List (Request N) → ℕ
  recent_uses now agent rs =
      length (select (λ r. used_by agent r && leb (now - 60) r.created_at) rs)

  abbrev pub value_or_null : Option (Value N) → Value N
  value_or_null none = null
  value_or_null (some v) = v

  abbrev pub is_redaction : Obligation N → Bool
  is_redaction (obliged redact id parameters reason) = true
  is_redaction _ = false

  -- `request_output` shows a decision that was approved, or will not be, as an answer.
  unfoldable pub shown_decision : Request N → Decision
  shown_decision r = elim r.decision [
    | needs_approval ↦ elim r.status [
      | request_approved ↦ allowed
      | authorized ↦ allowed
      | executing ↦ allowed
      | succeeded ↦ allowed
      | request_rejected ↦ denied
      | request_expired ↦ denied
      | failed ↦ denied
      | _ ↦ needs_approval
    ]
    | decision ↦ decision
  ]

module _ (numbers : Numbers) (libraries : Libraries numbers) where
  open numbers use {Number}

  -- The answer to an idempotency key that was used before.
  unfoldable pub replay_request : Call Number → Store Number → Request Number → Outcome Number
  replay_request call s previous =
      if not (str_eq previous.credential_id call.credential.id)
      then rejected 409 "Idempotency key belongs to another credential"
      else elim (tool_by_id previous.tool_id s.tools) [
        | none ↦ rejected 409 "Idempotent request references a deleted tool"
        | some tool ↦
            if not (str_eq tool.row.name call.payload.tool)
              || not
                  (str_eq previous.arguments_hash (libraries.hash_payload call.payload.arguments))
            then rejected 409 "Idempotency key cannot be reused with different arguments or tool"
            else answered previous tool
      ]

  unfoldable pub replay : Call Number → Store Number → Option (Outcome Number)
  replay call s = elim call.payload.idempotency_key [
    | none ↦ none
    | some key ↦
        if str_eq key ""
        then none
        else Option.map (replay_request call s) (previous_request call.agent key s.requests)
  ]

  abbrev pub schema_failure : Value Number → Fields Number → Option SchemaFailure
  schema_failure schema arguments =
      if truthy numbers schema then libraries.validate schema arguments else none

  abbrev pub number : ℕ → Value Number
  number n = num (libraries.money.number n)

  abbrev policy_value : List (PolicyVersion Number) → Policy Number → List (Value Number)
  policy_value versions p =
      elim (first (λ v. str_eq v.policy_id p.id && v.version == p.current_version) versions) [
        | none ↦ []
        | some v ↦
            dict (
              field "id" (str p.id) (
                field "version" (number v.version) (
                  field "priority" (num p.priority)
                    (field "enabled" (bool p.enabled) (field "document" v.document end)))))
            ∷ []
      ]

  abbrev joined_items : List (Value Number) → Items Number → Items Number
  joined_items [] rest = rest
  joined_items (v ∷ vs) rest = cons v (joined_items vs rest)

  abbrev policy_values : List (PolicyVersion Number) → List (Policy Number) → Items Number
  policy_values versions [] = nil
  policy_values versions (p ∷ ps) =
      joined_items (policy_value versions p) (policy_values versions ps)

  abbrev in_workspace : String → Option String → Bool
  in_workspace id none = true
  in_workspace id (some workspace) = str_eq workspace id

  unfoldable pub current_policies : AgentRow → Store Number → Value Number
  current_policies agent s = list (
      policy_values s.versions (
        select
          (λ p.
            str_eq p.organization_id agent.row.organization_id
            && (p.enabled && in_workspace agent.row.workspace_id p.workspace_id))
          s.policies))

  unfoldable pub history : ℕ → AgentRow → ToolRow Number → List (Request Number) → Fields Number
  history now agent tool rs =
      field "tool_uses"
        (number (length (select (λ r. used_by agent r && str_eq r.tool_id tool.row.id) rs)))
        (field "agent_uses" (number (length (select (used_by agent) rs)))
          (field "recent_requests" (number (recent_uses now agent rs)) end))

  unfoldable pub risk_of : Call Number → ToolRow Number → ℕ → Store Number → ℕ × List Factor
  risk_of call tool amount_minor s =
      let agent = call.agent in
      let amount : Value Number = num (libraries.money.major_of amount_minor) in
      score numbers libraries.amounts
        (dict (
          field "financial" (bool tool.financial) (
            field "destructive" (bool tool.destructive) (
              field "read_write_classification" (str tool.read_write_classification) (
                field "sensitive_data" (bool tool.sensitive_data)
                  (field "environment" (str tool.row.environment) end))))))
        (dict (
          field "environment" (str agent.row.environment)
            (field "risk_level" (str agent.risk_level) end)))
        (dict (
          field "amount" amount (
            field "arguments" (dict (field "amount" amount end))
              (field "destination" (value_or_null (get "destination" call.payload.context)) end))))
        (dict (history call.now agent tool s.requests))
