-- ===== src/Billing.antt =====
-- svc-aerial-billing: usage events and their monthly rollups.
pub mod Model
pub mod Service
pub mod Handler
mod Tests
