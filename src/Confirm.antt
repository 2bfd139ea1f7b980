-- ===== src/Confirm.antt =====
-- The confirmation of sensitive operations
-- (services/api/src/tkp_api/services/sensitive_operation.py and middleware/sensitive_operation.py).
pub mod Service
pub mod OneTime
pub mod Guard
pub mod Guarded
mod Tests
