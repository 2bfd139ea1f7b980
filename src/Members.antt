-- ===== src/Members.antt =====
-- The memberships of a tenant's workspaces that follow from its members
-- (services/api/src/tkp_api/services/membership_sync.py).
pub mod Sync
pub mod Grants
pub mod Counted
pub mod Synced
mod Tests
