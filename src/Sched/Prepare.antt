-- ===== src/Sched/Prepare.antt =====
-- `mcsos_thread_prepare`: the stack pointer of a new thread, and the empty queue of a new scheduler.
use mcsos.Common.{ℕ, ◌+◌, ◌%◌, ◌^◌, ◌≤◌, ◌<◌, ◌≡◌, refl, some, arith, []}
use mcsos.Sched.Thread.{
  Thread, new, running, ok, World, thread_magic, thread_prepare, scheduler_init,
}
use mcsos.Sched.Queue.{IsQueue}

-- A thread that was prepared with success is new, and its stack pointer lies inside its stack, with
-- more than 100 bytes below it, room for one word at it, and the alignment that a call leaves.
pub thread_prepare-stack :
    (t : Thread) {u : Thread} (trampoline name entry arg base size id : ℕ)
    → base < 2 ^ 64
    → size < 2 ^ 64
    → thread_prepare trampoline (some t) name entry arg base size id ≡ (some u, ok)
    → (u.magic ≡ thread_magic)
      × (u.state ≡ new)
      × (base + 100 < u.context.rsp)
      × (u.context.rsp + 8 ≤ base + size)
      × (u.context.rsp % 16 ≡ 8)
      × (u.context.rip ≡ trampoline)
unfolding thread_prepare
thread_prepare-stack t trampoline name entry arg base size id hb hs e = ground arith

-- A new scheduler has an empty queue, and its boot thread runs and is the idle thread.
pub scheduler_init-IsQueue :
    (boot_name : ℕ) (w : World) (b : ℕ)
    → (v : World) × (scheduler_init boot_name (some w) (some b) ≡ (some v, ok))
      × IsQueue v []
      × (v.sched.current ≡ some b)
      × (v.sched.idle ≡ some b)
      × ((v.threads b).state ≡ running)
      × ((v.threads b).magic ≡ thread_magic)
unfolding scheduler_init
scheduler_init-IsQueue boot_name w b = (
  _,
  refl,
  record {
    head = refl;
    tail = refl;
    links = tt;
    all_ready = tt;
    distinct = tt;
    counted = refl;
    bounded = omega arith;
  },
  refl,
  refl,
  ground arith,
  ground arith,
)
