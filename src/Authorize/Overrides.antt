-- ===== src/Authorize/Overrides.antt =====
-- What stands above the policy's decision: kill switches, states, permissions, environments and
-- findings, in the order of `authorize` of apps/api/agentguard_api/authorization.py.
use aiagentguard.Access.{
  Agent, Tool, Credential, KillSwitch, active_kill_reason, is_truthy, lacks_scope, denied_by,
}
use aiagentguard.Policy.Documents.{Action, allow, require_approval}
use aiagentguard.Prelude.{
  String, Bool, true, false, not, ◌&&◌, ◌||◌, Option, some, List, if◌then◌else◌, str_eq,
}

-- `request.decision`.
pub data Decision : Type 0 where
  allowed needs_approval denied disabled rate_limited over_budget : Decision

abbrev pub decision_of : Action → Decision
decision_of allow = allowed
decision_of require_approval = needs_approval
decision_of _ = denied

-- `permission_denied`: a credential without the scope, or a permission that is switched off.
unfoldable pub permission_denied : Credential → Tool → Option Bool → Bool
permission_denied credential tool permission = lacks_scope credential tool || denied_by permission

-- What the override reads; `other_environment` says that the caller names one that is not the agent's.
pub record Checks : Type 0 where
  pub agent : Agent
  pub tool : Tool
  pub switches : List KillSwitch
  pub denied_permission : Bool
  pub other_environment : Bool
  pub has_findings : Bool
  pub dlp_action : String

abbrev pub is_allowed : Decision → Bool
is_allowed allowed = true
is_allowed _ = false

unfoldable pub override : Checks → Decision → Decision
override c decision =
    if not (str_eq c.agent.status "active")
      || is_truthy (active_kill_reason c.switches c.agent (some c.tool))
    then disabled
    else if c.tool.disabled
    then disabled
    else if c.denied_permission
    then denied
    else if c.other_environment
    then denied
    else if c.has_findings && str_eq c.dlp_action "block"
    then denied
    else if c.has_findings && (str_eq c.dlp_action "approval" && is_allowed decision)
    then needs_approval
    else decision
