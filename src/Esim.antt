-- ===== src/Esim.antt =====
-- svc-aerial-esim: the catalogue of eSIM packages, the eSIMs that were ordered from a provider,
-- and the providers behind the service.
pub mod Model
pub mod Repository
pub mod Provider
pub mod Service
pub mod Handler
mod Tests
