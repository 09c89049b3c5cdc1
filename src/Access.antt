-- ===== src/Access.antt =====
-- Who may act now: `_active_kill_reason` of apps/api/agentguard_api/authorization.py and the guard
-- of `_check_execution_allowed` of apps/api/agentguard_api/runtime_routes.py, on the columns that
-- they read. An id is a text here, as it is compared with the id of a scope. `snapshot` is the hash
-- of `tool_snapshot(tool)`.
pub mod Switches
use aiagentguard.Prelude.{
  ℕ, String, Bool, true, false, not, ◌&&◌, ◌||◌, Option, none, some, List, [], ◌∷◌, any, leb,
  if◌then◌else◌, str_eq, select,
}

pub record KillSwitch : Type 0 where
  pub organization_id : String
  pub scope : String
  pub scope_id : Option String
  pub active : Bool
  pub reason : String

pub record Agent : Type 0 where
  pub id : String
  pub organization_id : String
  pub workspace_id : String
  pub team_id : Option String
  pub environment : String
  pub status : String

pub record Tool : Type 0 where
  pub id : String
  pub name : String
  pub provider : String
  pub adapter : String
  pub environment : String
  pub disabled : Bool
  pub snapshot : String

pub record Credential : Type 0 where
  pub id : String
  pub organization_id : String
  pub agent_id : String
  pub key_hash : String
  pub environment : String
  pub scopes : List String
  pub expires_at : Option ℕ
  pub revoked_at : Option ℕ

-- What the guard looks up for a request; `none` is a row that is not there.
pub record Access : Type 0 where
  pub organization_active : Option Bool
  pub agent : Option Agent
  pub credential : Option Credential
  pub permission_allowed : Option Bool
  pub switches : List KillSwitch

abbrev pub same_text : Option String → Option String → Bool
same_text none none = true
same_text (some a) (some b) = str_eq a b
same_text _ _ = false

abbrev tool_id : Option Tool → Option String
tool_id none = none
tool_id (some tool) = some tool.id

-- The dictionary `expected`: the outer `none` is a scope that is no key of it.
unfoldable pub expected : Agent → Option Tool → String → Option (Option String)
expected agent tool scope =
    if str_eq scope "organization"
    then some (some agent.organization_id)
    else if str_eq scope "workspace"
    then some (some agent.workspace_id)
    else if str_eq scope "team"
    then some agent.team_id
    else if str_eq scope "agent"
    then some (some agent.id)
    else if str_eq scope "tool"
    then some (tool_id tool)
    else if str_eq scope "environment"
    then some (some agent.environment)
    else none

abbrev pub points_at : Option (Option String) → Option String → Bool
points_at none scope_id = false
points_at (some id) scope_id = same_text id scope_id

unfoldable pub covers : Agent → Option Tool → KillSwitch → Bool
covers agent tool switch =
    str_eq switch.scope "organization"
    || points_at (expected agent tool switch.scope) switch.scope_id

-- The rows of the query.
abbrev pub switches_of : Agent → List KillSwitch → List KillSwitch
switches_of agent all =
    select (λ switch. str_eq switch.organization_id agent.organization_id && switch.active) all

unfoldable pub first_reason : Agent → Option Tool → List KillSwitch → Option String
first_reason agent tool [] = none
first_reason agent tool (switch ∷ rest) =
    let later = first_reason agent tool rest in
    if covers agent tool switch then some switch.reason else later

unfoldable pub active_kill_reason : List KillSwitch → Agent → Option Tool → Option String
active_kill_reason all agent tool = first_reason agent tool (switches_of agent all)

abbrev pub is_truthy : Option String → Bool
is_truthy none = false
is_truthy (some text) = not (str_eq text "")

-- `is_expired` of apps/api/agentguard_api/security.py.
unfoldable pub is_expired : ℕ → Option ℕ → Bool
is_expired now none = false
is_expired now (some at) = leb at now

abbrev pub is_none {ℓ} : {A : Type ℓ} → Option A → Bool
is_none none = true
is_none (some a) = false

abbrev pub lacks_scope : Credential → Tool → Bool
lacks_scope credential tool = elim credential.scopes [
  | [] ↦ false
  | s ∷ ss ↦ not (any (str_eq tool.name) (s ∷ ss)) && not (any (str_eq "*") (s ∷ ss))
]

abbrev pub credential_blocked : ℕ → Agent → Credential → Tool → Bool
credential_blocked now agent credential tool =
    not (is_none credential.revoked_at)
    || (is_expired now credential.expires_at
        || (not (str_eq credential.environment agent.environment)
            || (not (str_eq tool.environment agent.environment) || lacks_scope credential tool)))

abbrev pub denied_by : Option Bool → Bool
denied_by (some false) = true
denied_by _ = false

-- The condition of `_check_execution_allowed`, in its order; a row that is not there blocks.
unfoldable pub rows_block :
    ℕ → Option Bool → Option Agent → Option Credential → Option Bool → List KillSwitch → Tool → Bool
rows_block now (some true) (some agent) (some credential) permission switches tool =
    not (str_eq agent.status "active")
    || (tool.disabled
        || (credential_blocked now agent credential tool
            || (denied_by permission || is_truthy (active_kill_reason switches agent (some tool)))))
rows_block now _ _ _ permission switches tool = true

unfoldable pub execution_blocked : ℕ → Access → Tool → Bool
execution_blocked now access tool =
    rows_block now access.organization_active access.agent access.credential
      access.permission_allowed access.switches tool
