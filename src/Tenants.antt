-- ===== src/Tenants.antt =====
-- services/api/src/tkp_api/api/tenants.py: the members of a tenant.
pub mod Members
pub mod Survivors
pub mod Owners
pub mod Kept
pub mod Requests
pub mod Upserted
mod Tests
