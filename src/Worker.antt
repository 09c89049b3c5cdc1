-- ===== src/Worker.antt =====
-- The worker: apps/worker/agentguard_worker/main.py. Expiry has `expire_stale` and Overdue what it
-- leaves, Deliveries `deliver_webhooks`, Progress what its runs come to, and Archive `archive_audit`.
pub mod Expiry
pub mod Deliveries
pub mod Progress
pub mod Overdue
pub mod Archive
mod Examples
