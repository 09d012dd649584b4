-- ===== src/Drivers.antt =====
-- internal/driver: the drivers.
pub mod File
pub mod Sql
pub mod Postgres
pub mod Mysql
pub mod Http
mod Tests
