-- ===== src/Subscriber.antt =====
-- svc-aerial-subscriber: the registry of SIM cards and their provisioning into the 5G core.
pub mod Model
pub mod Core
pub mod Repository
pub mod Service
pub mod Handler
mod Tests
pub mod Consistency
