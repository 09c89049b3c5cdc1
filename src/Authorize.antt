-- ===== src/Authorize.antt =====
-- The authorization pipeline: `authorize` of apps/api/agentguard_api/authorization.py, with
-- `amount_to_minor` and `action_quota_available` of apps/api/agentguard_api/limits.py. Inputs has the
-- rows and the checks of the payload, Overrides what may change the policy's decision, Limits what an
-- action consumes, Rows the tables, Lookups what is looked up, and Pipeline the whole call.
pub mod Inputs
pub mod Rows
pub mod Overrides
pub mod Limits
pub mod Lookups
pub mod Pipeline
pub mod Earned
pub mod Replay
mod Examples
