-- ===== src/Quota.antt =====
-- Quotas of a tenant and of its workspaces (services/api/src/tkp_api/services/quota.py).
pub mod Rows
pub mod Policies
pub mod Enforce
pub mod Scopes
pub mod Limits
mod Tests
