-- ===== src/Governance.antt =====
-- Deletion on request and retention (services/api/src/tkp_api/governance).
pub mod Rows
pub mod Erase
pub mod Deletion
pub mod Lifecycle
pub mod History
pub mod Gone
pub mod Execution
mod Tests
