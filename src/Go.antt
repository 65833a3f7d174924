-- ===== src/Go.antt =====
-- What the services use of Go: errors as values, and operations on a world.
pub mod Errors
pub mod Exec
pub mod Postgres
