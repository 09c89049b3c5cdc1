-- ===== src/Authorize/Examples.antt =====
-- A refund of 20 that a policy allows, without limits. Numbers and decimals are naturals, and the
-- hash of arguments is a fixed text.
use aiagentguard.Json.{
  Numbers, Value, null, num, str, list, dict, nil, cons, end, field, get, keys, count, size,
  dumps_ok,
}
use aiagentguard.Access.{Credential, active_kill_reason, first_reason}
use aiagentguard.Budgets.{reserve_budgets, collect, conclude, charge}
use aiagentguard.RateLimits.{database, acquire_rate_limits, acquire_matched}
use aiagentguard.Dlp.{plain, scan, visit, visit_fields, visit_text, apply_patterns, mask_cards}
use aiagentguard.Authorize.Inputs.{amount_to_minor, minor_of_text, currency_of, valid_currency}
use aiagentguard.Authorize.Limits.{
  consume, action_quota_available, used_actions, quantity_of, plan_limits,
}
use aiagentguard.Authorize.Overrides.{override, permission_denied}
use aiagentguard.Authorize.Rows.{Outcome, ToolRow, AgentRow, Policy, PolicyVersion, Store}
use aiagentguard.Authorize.Lookups.{Libraries, Settings, Call, replay, current_policies, tool_by_id}
use aiagentguard.Authorize.Pipeline.{
  authorize, authorize_new, prepare, prepare_tool, prepare_amount, policy_of, issue, write,
  consumed, request_row, decision_before,
}
use aiagentguard.Policy.Documents.{
  yaml_error, check_scope, check_rules, check_rule, check_rule_list, check_policy,
  load as load_document, validate_policy, parse_policy, action_of, get_or,
}
use aiagentguard.Policy.Conditions.{validate_when, when}
use aiagentguard.Policy.Evaluation.{
  evaluate, find_all, find_in_policy, find_in_document, find_rules, find_rule, priority_of,
  add_rule, winner,
}
use aiagentguard.Authorize.Earned.{
  is_authorized, proceeds, IsEarned, authorize-Earned, authorize_reservations,
}
use aiagentguard.Authorize.Replay.{HasOwnId, is_answered, again, authorize-again}
use aiagentguard.Prelude.{
  leb, ◌&&◌, ℕ, ◌*◌, upper, String, ◌≡◌, refl, ap, subst, true, false, none, some, List, [], ◌∷◌,
  ltb, ◌==◌, str_eq, if◌then◌else◌, first,
}
use aiagentguard.Prelude.Int.{pos}

abbrev naturals : Numbers
naturals = record {
  Number = ℕ;
  num_eq = ◌==◌;
  of_bool = λ b. if b then 1 else 0;
  text = λ n. if n == 20 then "20" else "0";
  as_int = λ n. some (pos n);
  num_finite = λ n. true;
  Decimal = ℕ;
  parse = λ s. if str_eq s "20" then some 20 else if str_eq s "0" then some 0 else none;
  is_finite = λ d. true;
  dec_ltb = ltb;
  dec_eqb = ◌==◌;
}

abbrev show_value : Value ℕ → String
show_value (num n) = naturals.text n
show_value (str s) = s
show_value _ = ""

abbrev libraries : Libraries naturals
libraries = record {
  money = record {
    show = show_value;
    zero_decimal = 0;
    cap = 90000000000;
    minor_of = λ d. d * 100;
    major_of = λ n. n;
    number = λ n. n;
    is_alpha = λ c. leb 65 c && leb c 90;
  };
  amounts = record { show = show_value; of_nat = λ n. n; times = ◌*◌ };
  safe_load = λ text. yaml_error;
  hash_payload = λ fields. "hash";
  validate = λ schema fields. none;
}

abbrev settings : Settings
settings = record {
  backend = database;
  authorization_ttl_seconds = 300;
  approval_ttl_seconds = 3600;
}

abbrev agent : AgentRow
agent = record {
  row = record {
    id = "a1";
    organization_id = "o1";
    workspace_id = "w1";
    team_id = none;
    environment = "production";
    status = "active";
  };
  name = "Refunds";
  risk_level = "low";
}

abbrev tool : ToolRow ℕ
tool = record {
  row = record {
    id = "t1";
    name = "refund";
    provider = "stripe";
    adapter = "stripe";
    environment = "production";
    disabled = false;
    snapshot = "s1";
  };
  organization_id = "o1";
  financial = true;
  destructive = false;
  sensitive_data = false;
  read_write_classification = "write";
  tags = nil;
  input_schema = null;
  config = end;
}

abbrev credential : Credential
credential = record {
  id = "c1";
  organization_id = "o1";
  agent_id = "a1";
  key_hash = "h";
  environment = "production";
  scopes = [];
  expires_at = none;
  revoked_at = none;
}

abbrev call : Call ℕ
call = record {
  now = 1000;
  id = 7;
  credential = credential;
  agent = agent;
  payload = record {
    tool = "refund";
    arguments = field "amount" (num 20) end;
    context = end;
    idempotency_key = some "k1";
  };
  correlation_id = "x1";
}

abbrev policy : Policy ℕ
policy = record {
  id = "p1";
  organization_id = "o1";
  workspace_id = none;
  enabled = true;
  priority = 0;
  current_version = 1;
}

abbrev version : PolicyVersion ℕ
version = record {
  policy_id = "p1";
  version = 1;
  document = dict (field "rules" (list (cons (dict (field "action" (str "allow") end)) nil)) end);
}

abbrev store_with : List (Policy ℕ) → Store ℕ
store_with policies = record {
  organizations =
      record {
        id = "o1";
        number = 1;
        name = "Acme";
        active = true;
        dlp_action = "redact";
        expressions = record {
          secret_key = str_eq "password";
          patterns = [];
          cards = λ text. plain text ∷ [];
        };
      }
      ∷ [];
  tools = tool ∷ [];
  permissions = [];
  switches = [];
  policies = policies;
  versions = version ∷ [];
  capacity = record {
    limits = [];
    buckets = λ limit start. none;
    plan = "free";
    usage = [];
    budgets = [];
    ledger = record { usages = λ budget start. none; reservations = [] };
  };
  requests = [];
  approvals = [];
  notices = [];
  events = [];
}

abbrev answer : Store ℕ → Outcome ℕ
answer s = (authorize naturals libraries settings call s).0

refund_authorized : is_authorized (answer (store_with (policy ∷ []))) ≡ true
unfolding authorize authorize_new replay first prepare prepare_tool prepare_amount amount_to_minor
    minor_of_text currency_of valid_currency upper policy_of current_policies evaluate find_all
    find_in_policy find_in_document find_rules find_rule priority_of parse_policy load_document
    validate_policy check_policy check_scope check_rules check_rule check_rule_list validate_when
    dumps_ok size when winner action_of get_or keys count get add_rule issue write consumed consume
    request_row decision_before override permission_denied active_kill_reason first_reason scan
    visit visit_fields visit_text apply_patterns mask_cards acquire_rate_limits acquire_matched
    action_quota_available used_actions quantity_of plan_limits reserve_budgets collect conclude
    charge
refund_authorized = refl

refund_answered : is_answered (answer (store_with (policy ∷ []))) ≡ true
unfolding authorize authorize_new replay first prepare prepare_tool prepare_amount amount_to_minor
    minor_of_text currency_of valid_currency upper policy_of current_policies evaluate find_all
    find_in_policy find_in_document find_rules find_rule priority_of parse_policy load_document
    validate_policy check_policy check_scope check_rules check_rule check_rule_list validate_when
    dumps_ok size when winner action_of get_or keys count get add_rule issue write consumed consume
    request_row decision_before override permission_denied active_kill_reason first_reason scan
    visit visit_fields visit_text apply_patterns mask_cards acquire_rate_limits acquire_matched
    action_quota_available used_actions quantity_of plan_limits reserve_budgets collect conclude
    charge
refund_answered = refl

refund_denied : proceeds (answer (store_with [])) ≡ false
unfolding authorize authorize_new replay first prepare prepare_tool prepare_amount amount_to_minor
    minor_of_text currency_of valid_currency upper policy_of current_policies evaluate find_all
    find_in_policy find_in_document find_rules find_rule priority_of parse_policy load_document
    validate_policy check_policy check_scope check_rules check_rule check_rule_list validate_when
    dumps_ok size when winner action_of get_or keys count get add_rule issue write consumed consume
    request_row decision_before override permission_denied active_kill_reason first_reason scan
    visit visit_fields visit_text apply_patterns mask_cards acquire_rate_limits acquire_matched
    action_quota_available used_actions quantity_of plan_limits reserve_budgets collect conclude
    charge
refund_denied = refl

refund_is_new :
    (policies : List (Policy ℕ)) → replay naturals libraries call (store_with policies) ≡ none
unfolding replay first
refund_is_new policies = refl

authorize-Earned_example : IsEarned naturals libraries settings call (store_with (policy ∷ []))
authorize-Earned_example =
    authorize-Earned naturals libraries settings call (store_with (policy ∷ []))
      (refund_is_new (policy ∷ [])) refund_authorized

authorize_reservations_example :
    (authorize naturals libraries settings call (store_with [])).1.capacity.ledger.reservations ≡ []
authorize_reservations_example =
    authorize_reservations naturals libraries settings call (store_with []) refund_denied

only_tool :
    (found : ToolRow ℕ) → some tool ≡ some found → tool_by_id found.row.id (tool ∷ []) ≡ some found
unfolding first
only_tool found h =
    subst (λ (t : ToolRow ℕ). tool_by_id t.row.id (tool ∷ []) ≡ some t) {x = tool} {y = found}
      (ap (λ o. elim o [ none ↦ tool | some t ↦ t ]) h) (refl {a = some tool})

own_id : HasOwnId naturals libraries call (store_with (policy ∷ []))
unfolding first
own_id found h = only_tool found h

authorize-again_example :
    authorize naturals libraries settings
      (again naturals libraries 1010 8 call)
      (authorize naturals libraries settings call (store_with (policy ∷ []))).1
    ≡ authorize naturals libraries settings call (store_with (policy ∷ []))
authorize-again_example =
    authorize-again naturals libraries settings settings call (store_with (policy ∷ [])) 1010 8 "k1"
      refl refl own_id (refund_is_new (policy ∷ [])) refund_answered
