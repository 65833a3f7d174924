-- ===== src/Iam.antt =====
-- svc-aerial-iam: accounts, logins, and the rotation of refresh tokens with reuse detection.
pub mod Model
pub mod Repository
pub mod Slug
pub mod Service
pub mod Handler
mod Tests
