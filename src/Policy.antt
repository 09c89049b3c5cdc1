-- ===== src/Policy.antt =====
-- The policy engine: packages/policy-engine/agentguard_policy/__init__.py.
pub mod Errors
pub mod Keys
pub mod Conditions
pub mod Documents
pub mod Evaluation
pub mod Winner
pub mod Safety
pub mod Checked
pub mod Totality
pub mod Sources
pub mod Verdict
mod Examples
