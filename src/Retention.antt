-- ===== src/Retention.antt =====
-- How long rows are kept and how they are removed (services/api/src/tkp_api/governance/retention.py).
pub mod Policies
pub mod Service
pub mod Selected
pub mod Removal
pub mod Emptied
pub mod Archived
mod Tests
