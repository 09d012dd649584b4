-- ===== src/Rest.antt =====
-- internal/api/rest: the requests of the data API and their answers.
pub mod Route
pub mod Body
pub mod Handlers
mod Tests
