-- ===== src/Sync.antt =====
-- include/mcs_sync.h and kernel/sync/: the lock order checker, mutexes and spin locks.
pub mod Lockdep
pub mod Mutex
pub mod Spinlock

-- The `MCS_SYNC_` codes.
pub data SyncStatus : Type 0 where
  ok einval ebusy eperm edeadlk eoverflow : SyncStatus
