-- ===== src/Chunker.antt =====
-- The text chunker (services/worker/src/tkp_worker/chunker.py).
pub mod Split
pub mod Chunks
pub mod Pieces
pub mod Sentences
pub mod Coverage
mod Tests
