-- ===== src/Client.antt =====
-- The peer-to-peer client.
pub mod Torrent
pub mod SockManager
pub mod LocalFiles
pub mod JobInfo
pub mod Bitmaps
pub mod Owners
pub mod Run
pub mod ChunkSelector
pub mod Jobs
pub mod History
pub mod Collector
pub mod TrackerCalls
pub mod Verification
pub mod MakeTorrent
pub mod Transfer
pub mod Distribution
pub mod ConnectionHandler
pub mod Programs
