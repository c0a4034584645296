-- ===== src/Sched/Thread.antt =====
-- The records of include/mcsos_thread.h, and the functions of kernel/mcsos_thread.c that set up a
-- thread or a scheduler. A pointer to a thread is an index into the memory of all threads, and
-- `none` is the null pointer.
use mcsos.Common.{
  ℕ, ◌*◌, ◌/◌, Bool, true, false, ◌||◌, Option, none, some, ltb, leb, ◌==◌, if◌then◌else◌, add_u64,
  sub_u64,
}

abbrev pub thread_magic : ℕ
thread_magic = 0x4d43534f53544852

abbrev pub min_kernel_stack : ℕ
min_kernel_stack = 4096

abbrev pub stack_align : ℕ
stack_align = 16

pub data ThreadState : Type 0 where
  new ready running blocked zombie : ThreadState

pub data SchedResult : Type 0 where
  ok einval estate estack ecorrupt : SchedResult

pub record Context : Type 0 where
  pub rsp : ℕ
  pub rbp : ℕ
  pub rbx : ℕ
  pub r12 : ℕ
  pub r13 : ℕ
  pub r14 : ℕ
  pub r15 : ℕ
  pub rip : ℕ

-- Texts, code, arguments and stacks are addresses, 0 where the code stores a null pointer.
pub record Thread : Type 0 where
  pub magic : ℕ
  pub id : ℕ
  pub name : ℕ
  pub state : ThreadState
  pub context : Context
  pub entry : ℕ
  pub arg : ℕ
  pub stack_base : ℕ
  pub stack_size : ℕ
  pub next : Option ℕ
  pub switches : ℕ
  pub ticks : ℕ
  pub exit_code : ℕ

pub record Scheduler : Type 0 where
  pub current : Option ℕ
  pub idle : Option ℕ
  pub ready_head : Option ℕ
  pub ready_tail : Option ℕ
  pub next_id : ℕ
  pub runnable_count : ℕ
  pub context_switches : ℕ
  pub ticks : ℕ
  pub initialized : Bool

-- A scheduler and the threads that its pointers reach.
pub record World : Type 0 where
  pub threads : ℕ → Thread
  pub sched : Scheduler

-- `*p = t`
abbrev pub put : (ℕ → Thread) → ℕ → Thread → ℕ → Thread
put ts p t q = if p == q then t else ts q

unfoldable pub valid_thread_object : (ℕ → Thread) → Option ℕ → Bool
valid_thread_object ts none = false
valid_thread_object ts (some p) = (ts p).magic == thread_magic

abbrev pub zero_context : Context
zero_context = record { rsp = 0; rbp = 0; rbx = 0; r12 = 0; r13 = 0; r14 = 0; r15 = 0; rip = 0 }

unfoldable pub align_down : ℕ → ℕ → ℕ
align_down value alignment = value / alignment * alignment

-- `boot_name` is the address of the text "boot". The assignment of `g_active_sched`, which only the
-- trampoline reads, is left out with the trampoline.
unfoldable pub scheduler_init : ℕ → Option World → Option ℕ → Option World × SchedResult
scheduler_init boot_name none boot = (none, einval)
scheduler_init boot_name (some w) none = (some w, einval)
scheduler_init boot_name (some w) (some b) = (
  some (record {
    threads = put w.threads b (record {
      magic = thread_magic;
      id = 0;
      name = boot_name;
      state = running;
      context = zero_context;
      entry = 0;
      arg = 0;
      stack_base = 0;
      stack_size = 0;
      next = none;
      switches = 0;
      ticks = 0;
      exit_code = 0;
    });
    sched = record {
      current = some b;
      idle = some b;
      ready_head = none;
      ready_tail = none;
      next_id = 1;
      runnable_count = 0;
      context_switches = 0;
      ticks = 0;
      initialized = true;
    };
  }),
  ok,
)

-- `trampoline` is the address of `mcsos_thread_trampoline`. The word that the code clears on top of
-- the stack is outside the memory modelled here.
unfoldable pub thread_prepare :
    ℕ → Option Thread → ℕ → ℕ → ℕ → ℕ → ℕ → ℕ → Option Thread × SchedResult
unfolding align_down
thread_prepare trampoline none name entry arg stack_base stack_size id = (none, einval)
thread_prepare trampoline (some t) name entry arg stack_base stack_size id =
    if entry == 0 || stack_base == 0
    then (some t, einval)
    else if ltb stack_size min_kernel_stack
    then (some t, estack)
    else (let high = add_u64 stack_base stack_size in
        if leb high stack_base
        then (some t, estack)
        else if leb (align_down high stack_align) (add_u64 stack_base 128)
        then (some t, estack)
        else (
          some (record {
            magic = thread_magic;
            id = id;
            name = name;
            state = new;
            context = record zero_context {
              rsp = sub_u64 (align_down high stack_align) 8;
              rip = trampoline;
            };
            entry = entry;
            arg = arg;
            stack_base = stack_base;
            stack_size = stack_size;
            next = none;
            switches = 0;
            ticks = 0;
            exit_code = 0;
          }),
          ok,
        ))
