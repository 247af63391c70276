-- ===== src/Mraft.antt =====
-- mraft: the log of a raft node on disk.
pub mod LocalInt
pub mod Header
pub mod Segment
pub mod Storage
pub mod Snapshot
mod Tests
