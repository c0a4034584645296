-- ===== src/Journal.antt =====
-- kernel/fs/mcsfs1j/m16_mcsfs_journal.c: a file system of 128 blocks with a write-ahead journal.
pub mod Device
pub mod Bytes
pub mod Log
pub mod Layout
pub mod Files
pub mod Check
pub mod Codec
pub mod Writes
pub mod Commit
pub mod Replay
pub mod Stages
pub mod Crash
mod Examples
