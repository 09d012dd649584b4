-- ===== src/FileStore.antt =====
-- internal/store/file: the metadata store of file mode (store.go, crud.go, data.go). A method is a
-- function from the snapshot to its result and the snapshot after it; the mutex makes each one
-- step. The proofs stand in the modules below.
pub mod Records
pub mod Credentials
pub mod Servers
pub mod Tables
pub mod Columns
pub mod Functions
pub mod Invariant
pub mod Requests
pub mod Inline
pub mod Resolve
pub mod Cascade
pub mod References
pub mod Declarative
pub mod Compile
pub mod Decompile
pub mod Load
pub mod Samples
mod Tests
