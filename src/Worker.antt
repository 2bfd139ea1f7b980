-- ===== src/Worker.antt =====
-- The ingestion worker (services/worker/src/tkp_worker/main.py).
pub mod Rows
pub mod Claim
pub mod Outcome
pub mod Storage
pub mod Process
pub mod Loop
pub mod Operator
pub mod Enqueue
pub mod Enqueued
pub mod Manual
pub mod Claims
pub mod Ingest
pub mod Indexing
pub mod Embeddings
pub mod Lifecycle
pub mod Rounds
pub mod Abandoned
mod Tests
mod ManualTests
mod EnqueueTests
pub mod Failures
