-- ===== src/Block.antt =====
-- kernel/block/block.c, kernel/block/ramblk.c and kernel/block/bcache.c with include/mcsos/block.h: the
-- device registry, the range check before a driver is called, the RAM disk, and the buffer cache.
pub mod Device
pub mod Ram
pub mod Copy
pub mod Store
pub mod Cache
pub mod Cached
mod Examples
