-- ===== src/Auth.antt =====
-- internal/auth, with internal/api/auth.go: who may use the data API and the admin API.
pub mod Gateway
pub mod Admin
pub mod Outgoing
pub mod Merge
mod Tests
