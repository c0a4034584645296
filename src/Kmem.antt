-- ===== src/Kmem.antt =====
-- The kernel heap of kernel/mm/kmem.c and include/mcsos/kmem.h.
pub mod Heap
pub mod Tiles
pub mod Alloc
pub mod Fit
pub mod Merge
pub mod Validate
pub mod Init
pub mod Free
pub mod Release
mod Examples
