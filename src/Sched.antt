-- ===== src/Sched.antt =====
-- include/mcsos_thread.h and kernel/mcsos_thread.c: threads and the round-robin scheduler.
pub mod Thread
pub mod Ready
pub mod Switch
pub mod Walk
pub mod Queue
pub mod Fifo
pub mod RoundRobin
pub mod Check
pub mod Prepare
mod Examples
