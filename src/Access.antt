-- ===== src/Access.antt =====
-- Who may read and write workspaces, knowledge bases and documents
-- (services/api/src/tkp_api/services/authorization.py).
pub mod Rows
pub mod Checks
pub mod Batch
pub mod Reading
pub mod Writing
pub mod Granted
pub mod Ranges
mod Tests
