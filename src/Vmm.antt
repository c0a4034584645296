-- ===== src/Vmm.antt =====
-- The page tables of src/vmm.c and include/vmm.h.
pub mod Table
pub mod Words
pub mod Paths
pub mod Change
pub mod Extend
pub mod Link
pub mod Grow
pub mod Last
pub mod Map
pub mod Blank
pub mod Pages
mod Examples
