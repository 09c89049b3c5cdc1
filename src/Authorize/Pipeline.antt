-- ===== src/Authorize/Pipeline.antt =====
-- `authorize` of apps/api/agentguard_api/authorization.py: replay, the checks that raise, the policy
-- with what overrides it, and what is written.
use mathlib.Core.Option
use aiagentguard.Json.{Numbers, Value, null, str, num, list, dict, Fields, end, field, get, truthy}
use aiagentguard.Approvals.{ApprovalRequest, pending}
use aiagentguard.Budgets.{Facts}
use aiagentguard.Dlp.{scan, Scan}
use aiagentguard.Risk.{Factor}
use aiagentguard.Policy.Errors.{Result, ok, err}
use aiagentguard.Policy.Evaluation.{evaluate, Decision as PolicyDecision}
use aiagentguard.Authorize.Inputs.{amount_to_minor, currency_of, valid_currency}
use aiagentguard.Authorize.Limits.{Capacity, UsageEvent, consume}
use aiagentguard.Authorize.Overrides.{
  Decision, needs_approval, decision_of, permission_denied, Checks, override,
}
use aiagentguard.Authorize.Rows.{
  ToolRow, Organization, Request, Notice, DecisionEvent, Store, Outcome, rejected, crashed,
  answered,
}
use aiagentguard.Authorize.Lookups.{
  validation_error, schema_error, Libraries, Settings, Call, status_of, tool_by_name, permission_of,
  is_redaction, replay, schema_failure, value_or_null, number, current_policies, recent_uses,
  risk_of,
}
use aiagentguard.Prelude.{
  ℕ, ◌+◌, String, Bool, true, false, not, ◌&&◌, ◌||◌, Option, none, some, List, [], ◌∷◌, ◌++◌, any,
  if◌then◌else◌, str_eq, first,
}

-- What the checks that raise have found.
pub record Prepared (N : Type 0) : Type 0 where
  pub tool : ToolRow N
  pub organization : Organization
  pub permission : Option Bool
  pub amount_minor : ℕ
  pub risk : ℕ × List Factor
  pub scanned : Value N × Scan

pub data Preparation (N : Type 0) : Type 0 where
  raised : (code : ℕ) → (detail : String) → Preparation N
  prepared : Prepared N → Preparation N

abbrev pub has_findings : Scan → Bool
has_findings s = elim s.findings [ [] ↦ false | f ∷ fs ↦ true ]

abbrev pub awaits : Decision → Bool
awaits needs_approval = true
awaits _ = false

abbrev optional : {N : Type 0} → Option String → Value N
optional none = null
optional (some text) = str text

abbrev notice_of : {N : Type 0} → Request N → Prepared N → Notice
notice_of r p = record {
  organization_id = r.organization_id;
  tool = p.tool.row.name;
  approval_id = r.id;
  request_id = r.id;
}

module _ (numbers : Numbers) (libraries : Libraries numbers) where
  open numbers use {Number}

  -- From the amount on.
  unfoldable pub prepare_amount :
      Call Number → Store Number → ToolRow Number → Organization → Preparation Number
  prepare_amount call s tool organization =
      elim (amount_to_minor numbers libraries.money tool.financial call.payload.arguments) [
        | none ↦ raised 422 "Tool amount is invalid"
        | some amount_minor ↦
            if not (
              valid_currency libraries.money.is_alpha
                (currency_of numbers libraries.money call.payload.arguments tool.config))
            then raised 422 "Currency must be a three-letter code"
            else prepared (record {
              tool = tool;
              organization = organization;
              permission = permission_of call.agent tool s.permissions;
              amount_minor = amount_minor;
              risk = risk_of numbers libraries call tool amount_minor s;
              scanned = scan organization.expressions (dict call.payload.arguments);
            })
      ]

  abbrev organization_of : Call Number → Store Number → Option Organization
  organization_of call s =
      first (λ (o : Organization). str_eq o.id call.agent.row.organization_id) s.organizations

  unfoldable pub prepare_tool : Call Number → Store Number → ToolRow Number → Preparation Number
  prepare_tool call s tool =
      elim (schema_failure numbers libraries tool.input_schema call.payload.arguments) [
        | some validation_error ↦ raised 422 "Tool arguments do not match schema"
        | some schema_error ↦ raised 503 "Registered tool schema is invalid"
        | none ↦ elim (organization_of call s) [
          | none ↦ raised 401 "Organization is inactive"
          | some organization ↦
              if not organization.active
              then raised 401 "Organization is inactive"
              else prepare_amount call s tool organization
        ]
      ]

  unfoldable pub prepare : Call Number → Store Number → Preparation Number
  prepare call s = elim (tool_by_name call.agent call.payload.tool s.tools) [
    | none ↦ raised 404 "Tool is not registered for this agent environment"
    | some tool ↦ prepare_tool call s tool
  ]

  unfoldable pub facts_of : Call Number → Store Number → Prepared Number → Fields Number
  facts_of call s p =
      let agent = call.agent in
      let arguments = call.payload.arguments in
      let context = call.payload.context in
      let customer = value_or_null (get "customer_id" arguments) in
      let tail : Fields Number = field "customer" customer (
        field "customer_id" customer (
          field "ip" (value_or_null (get "ip" context)) (
            field "tags" (list p.tool.tags) (
              field "risk_score" (number numbers libraries p.risk.0) (
                field "data_classification"
                  (str (
                    if p.tool.sensitive_data || has_findings p.scanned.1
                    then "sensitive"
                    else "normal"))
                  (field "request_count"
                    (number numbers libraries (recent_uses call.now agent s.requests))
                    (field "destination" (value_or_null (get "destination" context)) end))))))) in
      field "organization" (str p.organization.name) (
        field "organization_id" (str p.organization.id) (
          field "workspace_id" (str agent.row.workspace_id) (
            field "team_id" (optional agent.row.team_id) (
              field "agent" (str agent.name) (
                field "agent_id" (str agent.row.id) (
                  field "tool" (str p.tool.row.name) (
                    field "tool_id" (str p.tool.row.id) (
                      field "provider" (str p.tool.row.provider) (
                        field "amount" (num (libraries.money.major_of p.amount_minor)) (
                          field "environment" (str agent.row.environment) (
                            field "resource" (value_or_null (get "resource" context))
                              tail)))))))))))

  -- `str(facts.get(key))` for the limits.
  abbrev pub limit_facts : Fields Number → Facts
  limit_facts facts key = Option.map libraries.money.show (get key facts)

  unfoldable pub policy_of :
      Call Number → Store Number → Prepared Number → Result (PolicyDecision Number)
  policy_of call s p =
      evaluate numbers libraries.safe_load libraries.money.show
        (current_policies numbers libraries call.agent s) (dict (facts_of call s p))

  abbrev other_environment : Call Number → Bool
  other_environment call = elim (get "environment" call.payload.context) [
    | none ↦ false
    | some (str text) ↦ not (str_eq text "") && not (str_eq text call.agent.row.environment)
    | some v ↦ truthy numbers v
  ]

  abbrev pub checks_of : Call Number → Store Number → Prepared Number → Checks
  checks_of call s p = record {
    agent = call.agent.row;
    tool = p.tool.row;
    switches = s.switches;
    denied_permission = permission_denied call.credential p.tool.row p.permission;
    other_environment = other_environment call;
    has_findings = has_findings p.scanned.1;
    dlp_action = p.organization.dlp_action;
  }

  -- The decision before it is known whether there is capacity.
  unfoldable pub decision_before :
      Call Number → Store Number → Prepared Number → PolicyDecision Number → Decision
  decision_before call s p policy = override (checks_of call s p) (decision_of policy.decision)

  abbrev executed_arguments : Call Number → Prepared Number → PolicyDecision Number → Value Number
  executed_arguments call p policy =
      if (has_findings p.scanned.1 && str_eq p.organization.dlp_action "redact")
        || any is_redaction policy.obligations
      then p.scanned.0
      else dict call.payload.arguments

  -- The row as it stands at the end, with the decision that is made.
  unfoldable pub request_row :
      Settings → Call Number → Prepared Number → PolicyDecision Number → Decision → Request Number
  request_row settings call p policy decision = record {
    id = call.id;
    organization_id = call.agent.row.organization_id;
    workspace_id = call.agent.row.workspace_id;
    agent_id = call.agent.row.id;
    tool_id = p.tool.row.id;
    credential_id = call.credential.id;
    correlation_id = call.correlation_id;
    idempotency_key = call.payload.idempotency_key;
    arguments_hash = libraries.hash_payload call.payload.arguments;
    sanitized_arguments = p.scanned.0;
    encrypted_payload = record {
      arguments = executed_arguments call p policy;
      context = (scan p.organization.expressions (dict call.payload.context)).0;
      tool_snapshot_hash = p.tool.row.snapshot;
    };
    policy_id = policy.policy_id;
    policy_version = policy.policy_version;
    risk_score = p.risk.0;
    decision = decision;
    status = status_of decision;
    approval_id = if awaits decision then some call.id else none;
    created_at = call.now;
    expires_at = call.now + settings.authorization_ttl_seconds;
  }

  abbrev approval_row : Settings → Call Number → Prepared Number → ApprovalRequest
  approval_row settings call p = record {
    id = call.id;
    organization_id = p.organization.number;
    mode = "any";
    threshold = 1;
    eligible_roles = "owner" ∷ "admin" ∷ "approver" ∷ [];
    state = pending;
    expires_at = call.now + settings.approval_ttl_seconds;
    resolved_at = none;
  }

  abbrev usage_of : Call Number → Prepared Number → UsageEvent
  usage_of call p = record {
    organization_id = p.organization.number;
    kind = "protected_action";
    quantity = 1;
    occurred_at = call.now;
  }

  abbrev event_of : Request Number → Prepared Number → PolicyDecision Number → DecisionEvent Number
  event_of r p policy = record {
    request_id = r.id;
    decision = r.decision;
    risk_score = r.risk_score;
    arguments_hash = r.arguments_hash;
    factors = p.risk.1;
    findings = p.scanned.1.findings;
    obligations = policy.obligations;
    approval_id = r.approval_id;
  }

  -- What one call writes when its capacity is `taken`.
  unfoldable pub write :
      Settings
      → Call Number
      → Store Number
      → Prepared Number
      → PolicyDecision Number
      → Decision
      → Capacity
      → Outcome Number × Store Number
  write settings call s p policy decision taken =
      let r = request_row settings call p policy decision in
      (
        answered r p.tool,
        record s {
          capacity = record taken { usage = usage_of call p ∷ taken.usage };
          requests = s.requests ++ (r ∷ []);
          approvals =
              if awaits decision then approval_row settings call p ∷ s.approvals else s.approvals;
          notices = if awaits decision then notice_of r p ∷ s.notices else s.notices;
          events = event_of r p policy ∷ s.events;
        },
      )

  unfoldable pub consumed :
      Settings
      → Call Number
      → Store Number
      → Prepared Number
      → PolicyDecision Number
      → Decision × Capacity
  consumed settings call s p policy =
      consume settings.backend call.now p.organization.number call.id
        (limit_facts (facts_of call s p)) p.amount_minor (decision_before call s p policy)
        s.capacity

  unfoldable pub issue :
      Settings
      → Call Number
      → Store Number
      → Prepared Number
      → PolicyDecision Number
      → Outcome Number × Store Number
  issue settings call s p policy =
      let (decision, taken) = consumed settings call s p policy in
      write settings call s p policy decision taken

  unfoldable pub authorize_new :
      Settings → Call Number → Store Number → Outcome Number × Store Number
  authorize_new settings call s = elim (prepare call s) [
    | raised code detail ↦ (rejected code detail, s)
    | prepared p ↦ elim (policy_of call s p) [
      | err e ↦ (crashed, s)
      | ok policy ↦ issue settings call s p policy
    ]
  ]

  unfoldable pub authorize : Settings → Call Number → Store Number → Outcome Number × Store Number
  authorize settings call s = elim (replay numbers libraries call s) [
    | some outcome ↦ (outcome, s)
    | none ↦ authorize_new settings call s
  ]
