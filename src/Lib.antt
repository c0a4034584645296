-- ===== src/Lib.antt =====
-- Verification of the kernel library of mcsos: the physical frame allocator, the locks and the
-- lock order checker, the page tables, the heap, the scheduler, the ELF loader, the system calls,
-- block devices, and the file system with a journal.
--
-- The parts and how they interact. The boot code hands the memory map to the frame allocator and
-- afterwards takes frames from it, also for page tables. The scheduler keeps threads in one ready
-- queue and switches between them; locks protect shared state, and the lock order checker watches
-- the classes that a thread holds. The loader turns an ELF image into a plan of user segments, and
-- the system calls let a user program in: they check its memory and call the scheduler, the timer
-- and the serial port through pointers. A block device checks a range before it calls its driver;
-- the RAM disk is one such driver, and the buffer cache stands before the calls of the block
-- layer. The file system with a journal has a block device of its own, which can be told to fail
-- after a number of writes; it changes its blocks by transactions, and mounting it recovers what a
-- crash left.
--
-- Which file models which part.
--   Common     shared names, Boolean tests, arrays as lists, and integers of fixed width
--   Bitmap     the bitmap functions of src/pmm.c: `bitmap_set`, `bitmap_clear`, `bitmap_test`
--   Pmm        src/pmm.c and include/pmm.h: `pmm_init_from_map` is `init_from_map`,
--              `pmm_alloc_frame` is `alloc_frame`, and so on, without the prefix
--   Sync       kernel/sync/lockdep.c (Sync/Lockdep), kernel/sync/mutex.c (Sync/Mutex) and
--              kernel/sync/spinlock.c (Sync/Spinlock), with include/mcs_sync.h
--   Sched      kernel/mcsos_thread.c and include/mcsos_thread.h: `mcsos_sched_yield` is `yield`,
--              `mcsos_thread_prepare` is `thread_prepare`
--   Elf        kernel/user/m11_elf_loader.c and include/mcsos/user/m11_elf_loader.h:
--              `m11_elf64_plan_load` is `plan_load`
--   Syscall    kernel/syscall/syscall.c and include/mcsos/syscall.h: `mcsos_syscall_dispatch` is
--              `syscall_dispatch`
--   Block      kernel/block/block.c (Block/Device), kernel/block/ramblk.c (Block/Ram, Block/Copy) and
--              kernel/block/bcache.c (Block/Cache) with include/mcsos/block.h: `mcsos_blk_read` is
--              `blk_read`
--   Vmm        src/vmm.c and include/vmm.h: `vmm_map_page` is `map_page`
--   Kmem       kernel/mm/kmem.c and include/mcsos/kmem.h: `kmem_alloc` is `alloc`
--   Journal    kernel/fs/mcsfs1j/m16_mcsfs_journal.c: the device (Journal/Device), the journal
--              (Journal/Log), the file system's structures (Journal/Layout) and operations
--              (Journal/Files, Journal/Check): `m16_journal_commit` is `journal_commit`
--
-- State and operations. A struct is a record. A function that changes `*p` takes the record and
-- returns the new one, beside its result if it has one. A pointer that the code tests against null
-- is an Option. Threads are a store from addresses to records, so that the links of the ready
-- queue, and threads that are named twice, are those of the code. The locks are modelled twice: as
-- the functions that one thread runs, and as a step relation in which several threads make one
-- atomic access at a time, taken to be sequentially consistent. A block of the journal's device is
-- the list of its 512 bytes, and a structure in it is read and written as bytes; an operation on
-- the device is an action, which ends with a value or an error code. A page table is 512 words of
-- its own, at the pointer that leads to it, and two pointers name the same table or tables that do
-- not overlap. The headers of the heap's blocks are a store from addresses, apart from the bytes
-- of the payloads.
--
-- Bounds and fuel. A w-bit integer is a natural number, and sums and products are taken modulo 2^w
-- where the code's are. A loop with a counter is a recursion on the rounds left. The two loops
-- along the ready queue take fuel: the walk of `ready_count` needs more than the length of the
-- queue, and that of `validate` at most three rounds more than the counted threads. The loops
-- along the blocks of the heap take fuel too: an allocation needs more than the number of blocks,
-- and the check of the heap counts its rounds itself.
--
-- What is not modelled. The context switch in assembly, the trampoline with the pointer
-- `g_active_sched` that only it reads, and `m11_error_name`.
-- The null checks of the buffer cache's read, write and flush, and those of the file system with a
-- journal. The processor's control registers. The other file systems, interrupts, ports, the boot
-- code, and the tools around the kernel. The functions behind the pointers of the system calls are
-- parameters that act on a world of their own; those of a block device are fields of its record,
-- applied to the device. The functions of an address space act on the tables and on a state of
-- their own; `Frames` says what they are relied on for.
pub mod Common
pub mod Bitmap
pub mod Pmm
pub mod Sync
pub mod Sched
pub mod Elf
pub mod Syscall
pub mod Block
pub mod Journal
pub mod Vmm
pub mod Kmem
