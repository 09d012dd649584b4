-- ===== src/Postgrest.antt =====
-- internal/postgrest: the query language of the data API, its errors and its headers.
pub mod Query
pub mod Groups
pub mod Match
pub mod Mapping
pub mod Errors
pub mod Headers
mod Tests
