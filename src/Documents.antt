-- ===== src/Documents.antt =====
-- services/api/src/tkp_api/api/documents.py and services/storage.py: uploading, changing, indexing again and
-- deleting documents, and reading them.
pub mod Storage
pub mod State
pub mod Upload
pub mod Change
pub mod Read
pub mod Jobs
pub mod Found
pub mod Numbered
pub mod Uploaded
pub mod Placed
pub mod Effects
pub mod Steps
pub mod Keys
pub mod Written
pub mod Uploads
pub mod Deleted
pub mod JobKeys
pub mod Reindexing
pub mod Reindexed
pub mod Guards
pub mod Pages
pub mod JobViews
pub mod Versions
mod Tests
mod Examples
