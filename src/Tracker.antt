-- ===== src/Tracker.antt =====
-- The tracker.
pub mod Database
pub mod Service
pub mod NetManager
pub mod Handler
pub mod Rows
pub mod Searches
pub mod Replies
pub mod Directory
mod Tests
