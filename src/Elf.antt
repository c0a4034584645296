-- ===== src/Elf.antt =====
-- kernel/user/m11_elf_loader.c with include/mcsos/user/m11_elf_loader.h: the check of a 64-bit ELF
-- image and the plan of its segments.
pub mod Image
pub mod Plan
pub mod Align
pub mod Range
pub mod Accepts
pub mod Refuses
mod Examples
