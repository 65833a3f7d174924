-- ===== src/Provision.antt =====
-- svc-aerial-provision: plans, and the subscriptions of an organisation's users to them.
pub mod Model
pub mod Service
pub mod Handler
mod Tests
