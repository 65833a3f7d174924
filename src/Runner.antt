-- ===== src/Runner.antt =====
-- lib-aerial-go: what every service runs around its handlers. The middlewares of runner, recover,
-- metrics and httplog, their order, and the health probe.
pub mod Writer
pub mod Middleware
pub mod Stack
pub mod Health
mod Tests
