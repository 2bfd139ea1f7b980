-- ===== src/Permissions.antt =====
-- What the roles of a tenant may do (services/api/src/tkp_api/services/permissions.py).
pub mod Codes
pub mod Sets
pub mod Actions
pub mod Catalog
pub mod Assigned
mod Tests
