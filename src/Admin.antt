-- ===== src/Admin.antt =====
-- internal/api/admin: the HTTP handlers that read and change the metadata.
pub mod Interface
pub mod Store
pub mod Paths
pub mod Handlers
pub mod Registered
mod Tests
