-- ===== src/Lib.antt =====
-- AgentGuard authorizes what AI agents do with tools: an agent asks, the policy engine decides,
-- budgets are reserved, a human may have to approve, and the request is then carried out once, by
-- the agent's own process or by a connector of the API. This library models the decisions of that
-- path and the rows that they keep.
--
-- Parts, and the code that each models:
-- - Policy: packages/policy-engine/agentguard_policy/__init__.py, all of it. Policy/Keys has `_key`
--   and the paths, Policy/Conditions `_decimal`, `_validate_when`, `_get` and `_when`,
--   Policy/Documents `validate_policy` and `parse_policy`, Policy/Evaluation `evaluate`. Json has the
--   values that documents and facts are made of. An exception is an error value; those that
--   `evaluate` does not catch are told apart from those that it does.
-- - Budgets: `_scope_matches`, `reserve_budgets` and `settle_budget_reservations` of
--   apps/api/agentguard_api/limits.py on the tables of apps/api/agentguard_api/models.py. Usage rows
--   are a partial function of the budget and the start of a period, as their unique key is.
-- - Periods: `_bucket_start` and `_period_start` of the same file; a time is a number of seconds.
-- - Approvals: `decide_approval` of apps/api/agentguard_api/admin_routes.py; a rejection and an
--   expiry settle the request in Budgets.
-- - Access: `_active_kill_reason` of apps/api/agentguard_api/authorization.py and the guard of
--   `_check_execution_allowed` of apps/api/agentguard_api/runtime_routes.py.
-- - Execution: `_expire_if_needed`, `_finalize`, `_execute_remote`, `claim_sdk_request` and
--   `report_sdk_result` of that file, and the overdue claims of `expire_stale` of
--   apps/worker/agentguard_worker/main.py; it asks Access whether to go on, and settles in Budgets.
--   Execution/Owned has `_owned_request` and the whole handlers, which run it first.
-- - RateLimits: `acquire_rate_limits` of apps/api/agentguard_api/limits.py, with the counters of the
--   database and those of Redis; it uses the scopes of Budgets and the windows of Periods.
-- - Audit: `append_audit` and `verify_audit_chain` of apps/api/agentguard_api/audit.py, on the rows
--   of one organization.
-- - Dlp: `scan_and_redact` of packages/shared-types/agentguard_shared/__init__.py; Dlp/Luhn has
--   `_luhn`, and Dlp/Custom `validate_custom_patterns`.
-- - Risk: `score` of packages/risk-engine/agentguard_risk/__init__.py.
-- - Keys: machine and admin keys of apps/api/agentguard_api/security.py, and `authenticate_agent` of
--   apps/api/agentguard_api/authorization.py.
-- - Authorize: `authorize` of that file, the whole call. It scans with Dlp, scores with Risk, evaluates
--   with Policy, asks Access for kill switches, and takes from RateLimits and Budgets; Rows has what it
--   reads and writes, Lookups `_history` and `_current_policies`, Inputs the amount and the currency,
--   Overrides what stands above the policy, Limits the quota and the order of the limits, and Pipeline
--   the call.
-- - Worker: `expire_stale`, `deliver_webhooks` and `archive_audit` of
--   apps/worker/agentguard_worker/main.py, the last on the log of Audit.
-- - Sdk: the synchronous client of packages/sdk-python/agentguard/__init__.py, on a state of the
--   network, with a log of what it does.
-- - Sessions: sign-in of apps/api/agentguard_api/auth_routes.py, and Sessions/Principals
--   apps/api/agentguard_api/dependencies.py.
--
-- Prelude has the shared names, tests and lists.
--
-- Parameters stand for code outside the repository: `Numbers`, `Amounts` and `Money` for Python's
-- numbers, their texts, `Decimal` and the letters of Unicode, `safe_load` for the YAML reader with the
-- exceptions that it raises, `show` for the text of a value, `digest` and `sha256` for SHA-256,
-- `hash_payload` and `dumps` for canonical JSON, `validate` for JSON schemas, `verify` for the hash of
-- passwords, `Expressions` for regular expressions, `post` and `World` for the network, the clock and
-- the caller's function, and `redact` for a scan of the data of an event. What a theorem assumes of
-- one stands among its hypotheses.
--
-- One loop runs on fuel, the SDK's wait for an approval, where one turn more than the units of the
-- approval's time is enough if a sleep moves the clock on. All else recurs on finite values, so
-- Python's recursion limit does not arise.
--
-- A handler is one transaction on the rows that it has locked; it reads the clock once. So the
-- branch in which a compare-and-set finds its locked row changed is not modelled, and neither is the
-- read without a lock of `authorize_and_execute`. Ids are numbers, or texts where the code compares
-- them with a scope. Texts that no condition reads are left out. YAML
-- values that JSON does not have, dates for example, are left out too.
--
-- Not modelled: the OAuth flow, the worker's notifications, the rest of the admin routes, which
-- create, read and write rows, connectors, webhook callbacks, the gateway, the command line, the asynchronous half of the SDK, which repeats the other, and the web console.
pub mod Prelude
pub mod Periods
pub mod Budgets
pub mod Json
pub mod Policy
pub mod Dlp
pub mod Risk
pub mod RateLimits
pub mod Audit
pub mod Approvals
pub mod Access
pub mod Keys
pub mod Authorize
pub mod Worker
pub mod Sdk
pub mod Sessions
pub mod Execution
