-- ===== src/Checkpoints.antt =====
-- Where agents resume their work (services/api/src/tkp_api/services/agent_checkpoint.py).
pub mod Service
pub mod Numbering
pub mod Recoveries
mod Tests
