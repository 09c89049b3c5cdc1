-- ===== src/Execution/Examples.antt =====
-- A request for an SDK tool, and the theorems on executions at it. Digests are the tokens themselves.
use aiagentguard.Access.{
  Agent, Tool, Credential, Access, is_expired, execution_blocked, rows_block, active_kill_reason,
  first_reason, covers, expected, credential_blocked, denied_by,
}
use aiagentguard.Access.Switches.{applies_to, execution_allowed}
use aiagentguard.Approvals.{authorized, succeeded}
use aiagentguard.Budgets.{reserved}
use aiagentguard.Budgets.Settle.{due}
use aiagentguard.Execution.{
  Site, is_executing, result_succeeded, expire_if_needed, finalize, start_remote, claim_sdk_request,
  report_sdk_result, holds_claim,
}
use aiagentguard.Execution.Dispatch.{claim, start, hand_outs, dispatched_once}
use aiagentguard.Execution.Claims.{Claimed, report_consumes}
use aiagentguard.Execution.Owned.{
  Caller, IsOwn, is_same, owns, claim_request, report_result, is_output, is_there, presents,
  claim_then_report,
}
use aiagentguard.Execution.Release.{stopped_releases}
use aiagentguard.Prelude.{
  ◌+◌, ◌&&◌, ◌==◌, ltb, ◌≤◌, String, ◌≡◌, refl, inl, true, false, none, some, [], ◌∷◌, any, str_eq,
}

abbrev agent : Agent
agent = record {
  id = "a1";
  organization_id = "o1";
  workspace_id = "w1";
  team_id = none;
  environment = "production";
  status = "active";
}

abbrev tool_with : String → Tool
tool_with adapter = record {
  id = "t1";
  name = "refund";
  provider = "stripe";
  adapter = adapter;
  environment = "production";
  disabled = false;
  snapshot = "h1";
}

abbrev access : Access
access = record {
  organization_active = some true;
  agent = some agent;
  credential = some (record {
    id = "c1";
    organization_id = "o1";
    agent_id = "a1";
    key_hash = "";
    environment = "production";
    scopes = [];
    expires_at = none;
    revoked_at = none;
  });
  permission_allowed = none;
  switches =
      record {
        organization_id = "o1";
        scope = "team";
        scope_id = some "x";
        active = true;
        reason = "incident";
      }
      ∷ [];
}

abbrev site : String → Site
site adapter = record {
  request = record {
    id = 3;
    organization_id = "o1";
    agent_id = "a1";
    credential_id = "c1";
    status = authorized;
    reason = "";
    execution_claim_hash = none;
    claim_expires_at = none;
    expires_at = 100;
    payload = some (record { tool_snapshot_hash = "h1"; arguments = "{}" });
    started_at = none;
    completed_at = none;
  };
  approval = none;
  tool = tool_with adapter;
  access = access;
  ledger = record {
    usages = λ i s. some (record { used_minor = 0; reserved_minor = 500 });
    reservations =
        record { budget_id = 1; period = 0; request_id = 3; amount_minor = 500; state = reserved }
        ∷ [];
  };
  events = [];
}

abbrev plain : String → String
plain text = text

abbrev claimed : Site
claimed = (claim_sdk_request plain 10 60 "tok" (site "sdk")).1

execution_allowed_example :
    (access.organization_active ≡ some true)
    × ((a : Agent) × (c : Credential) × (access.agent ≡ some a)
        × (access.credential ≡ some c)
        × (str_eq a.status "active" ≡ true)
        × ((tool_with "sdk").disabled ≡ false)
        × (credential_blocked 10 a c (tool_with "sdk") ≡ false)
        × (denied_by access.permission_allowed ≡ false)
        × (any (applies_to a (some (tool_with "sdk"))) access.switches ≡ false))
unfolding execution_blocked rows_block active_kill_reason first_reason covers expected is_expired
execution_allowed_example = execution_allowed 10 access (tool_with "sdk") (refl, tt) refl

dispatched_once_example :
    hand_outs plain (claim 10 60 "tok" ∷ claim 11 60 "other" ∷ start 12 ∷ []) (site "sdk") ≤ 1
dispatched_once_example =
    dispatched_once plain (claim 10 60 "tok" ∷ claim 11 60 "other" ∷ start 12 ∷ []) (site "sdk")

abbrev caller : Caller
caller = record {
  agent = agent;
  credential = record {
    id = "c1";
    organization_id = "o1";
    agent_id = "a1";
    key_hash = "";
    environment = "production";
    scopes = [];
    expires_at = none;
    revoked_at = none;
  };
}

claim_then_report_example :
    let found = some (tool_with "sdk") in
    let s' = (claim_request plain 10 60 "tok" caller 3 found (site "sdk")).1 in
    IsOwn caller 3 (site "sdk").request
    × ((tool : Tool) × (found ≡ some tool)
        × Claimed plain 10 60 "tok" "tok" "{}" (record (site "sdk") { tool = tool }) s')
    × (is_output (report_result plain 20 (some "tok") result_succeeded true caller 3 found s').0 ≡ (
        ((3 == 3) && is_same caller caller)
        && (is_there found && (presents plain "tok" (some "tok") && ltb 20 (10 + 60)))))
unfolding claim_request owns claim_sdk_request expire_if_needed execution_blocked rows_block
    active_kill_reason first_reason covers expected is_expired
claim_then_report_example =
    claim_then_report plain 10 20 60 "tok" "tok" "{}" caller caller 3 3 (some (tool_with "sdk"))
      (some (tool_with "sdk")) (some "tok") result_succeeded true (site "sdk") refl refl

report_consumes_example :
    let after = (report_sdk_result plain 20 (some "tok") result_succeeded true claimed).1 in
    (is_executing claimed.request.status ≡ true)
    × (holds_claim plain (some "tok") claimed.request.execution_claim_hash ≡ true)
    × (is_expired 20 claimed.request.claim_expires_at ≡ false)
    × ((report_sdk_result plain 21 (some "tok") result_succeeded true after).1 ≡ after)
unfolding claim_sdk_request expire_if_needed execution_blocked rows_block active_kill_reason
    first_reason covers expected is_expired report_sdk_result finalize
report_consumes_example =
    report_consumes plain 20 21 (some "tok") (some "tok") result_succeeded result_succeeded true
      true claimed succeeded refl

-- The remote request was left until it had expired.
stopped_releases_example : due 3 1 0 (start_remote 200 (site "http")).1.ledger.reservations ≡ 0
unfolding start_remote execution_blocked rows_block active_kill_reason first_reason covers expected
    is_expired
stopped_releases_example =
    stopped_releases plain 200 60 "tok" (site "http") (start_remote 200 (site "http")).1 (inl refl)
      (λ e. cc) (λ e. cc) 1 0
