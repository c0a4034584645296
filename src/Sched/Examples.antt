-- ===== src/Sched/Examples.antt =====
-- Four threads: the boot thread 0 is idle, thread 1 runs, and threads 2 and 3 are ready.
use mcsos.Common.{
  ℕ, ◌+◌, ◌<◌, ◌≡◌, ◌≢◌, refl, true, [], ◌∷◌, Option, none, some, arith, ◌==◌, if◌then◌else◌, ◌%◌,
  ◌≤◌,
}
use mcsos.Sched.Thread.{
  Thread, ThreadState, new, ready, running, blocked, ok, World, zero_context, thread_magic,
  thread_prepare, put,
}
use mcsos.Sched.Ready.{enqueue, pick_next}
use mcsos.Sched.Switch.{yield, block_current}
use mcsos.Sched.Walk.{ready_count, validate}
use mcsos.Sched.Queue.{IsQueue}
use mcsos.Sched.Fifo.{enqueue-IsQueue, pick_next-IsQueue}
use mcsos.Sched.RoundRobin.{Switched, from_queue, yield-round_robin, block_current-Switched}
use mcsos.Sched.Check.{validate-ends, validate-accepts, enqueue-twice}
use mcsos.Sched.Prepare.{thread_prepare-stack}

abbrev thread : ThreadState → Option ℕ → Thread
thread s next = record {
  magic = thread_magic;
  id = 0;
  name = 0;
  state = s;
  context = zero_context;
  entry = 0x1000;
  arg = 0;
  stack_base = 0x8000;
  stack_size = 4096;
  next = next;
  switches = 0;
  ticks = 0;
  exit_code = 0;
}

abbrev memory : ℕ → Thread
memory p =
    if p == 2
    then thread ready (some 3)
    else if p == 3
    then thread ready none
    else if p == 4
    then thread new none
    else thread running none

abbrev busy : World
busy = record {
  threads = memory;
  sched = record {
    current = some 1;
    idle = some 0;
    ready_head = some 2;
    ready_tail = some 3;
    next_id = 4;
    runnable_count = 2;
    context_switches = 0;
    ticks = 0;
    initialized = true;
  };
}

busy-IsQueue : IsQueue busy (2 ∷ 3 ∷ [])
busy-IsQueue = record {
  head = refl;
  tail = refl;
  links = (refl, (refl, tt));
  all_ready = (refl, refl, (refl, refl, tt));
  distinct = (refl, (refl, tt));
  counted = refl;
  bounded = omega arith;
}

enqueue-IsQueue_example :
    (v : World) × (enqueue (some busy) (some 4) ≡ (some v, ok))
    × IsQueue v (2 ∷ 3 ∷ 4 ∷ [])
    × (v.sched.current ≡ some 1)
    × (v.sched.idle ≡ some 0)
    × ((y : ℕ)
        → y ≢ 4
        → ((v.threads y).magic ≡ (memory y).magic) × ((v.threads y).state ≡ (memory y).state))
enqueue-IsQueue_example = enqueue-IsQueue 4 busy-IsQueue refl refl refl refl (omega arith)

pick_next-IsQueue_example :
    (v : World) × (pick_next (some busy) ≡ (some v, some 2))
    × IsQueue v (3 ∷ [])
    × (v.threads ≡ put memory 2 (record (memory 2) { next = none }))
    × (v.sched.current ≡ some 1)
    × (v.sched.idle ≡ some 0)
    × (v.sched.initialized ≡ true)
pick_next-IsQueue_example = pick_next-IsQueue busy-IsQueue refl

yield-round_robin_example :
    (u : World) × (yield (some busy) ≡ (some u, ok)) × Switched 1 2 ready (3 ∷ 1 ∷ []) u
yield-round_robin_example =
    yield-round_robin 1 2 (3 ∷ []) busy-IsQueue refl refl refl refl (from_queue refl) (omega arith)
      refl (λ h. ground arith) (omega arith)

block_current-Switched_example :
    (u : World) × (block_current (some busy) ≡ (some u, ok)) × Switched 1 2 blocked (3 ∷ []) u
block_current-Switched_example =
    block_current-Switched 1 2 (3 ∷ []) busy-IsQueue refl refl refl (λ h. ground arith) refl
      (from_queue refl) (omega arith)

validate-ends_example : validate 5 (some busy) ≢ none
validate-ends_example = validate-ends busy 5 (omega arith) (omega arith)

validate-accepts_example : validate 3 (some busy) ≡ some ok
validate-accepts_example = validate-accepts 1 3 busy-IsQueue refl refl refl refl (omega arith)

-- Thread 3 alone in the queue.
abbrev alone : World
alone = record {
  threads = memory;
  sched = record busy.sched { ready_head = some 3; runnable_count = 1 };
}

alone-IsQueue : IsQueue alone (3 ∷ [])
alone-IsQueue = record {
  head = refl;
  tail = refl;
  links = (refl, tt);
  all_ready = (refl, refl, tt);
  distinct = (refl, tt);
  counted = refl;
  bounded = omega arith;
}

enqueue-twice_example :
    (v : World) × (enqueue (some alone) (some 3) ≡ (some v, ok))
    × ((fuel : ℕ) → ready_count fuel (some v) ≡ none)
enqueue-twice_example = enqueue-twice 3 alone-IsQueue refl

-- A stack of two pages at 0x8000, less three bytes.
prepared : Thread
prepared = record (thread new none) {
  id = 7;
  name = 0x500;
  context = record zero_context { rsp = 0x9fe8; rip = 0x2000 };
  arg = 9;
  stack_size = 8189;
}

thread_prepare-stack_example :
    (prepared.magic ≡ thread_magic)
    × (prepared.state ≡ new)
    × (0x8000 + 100 < prepared.context.rsp)
    × (prepared.context.rsp + 8 ≤ 0x8000 + 8189)
    × (prepared.context.rsp % 16 ≡ 8)
    × (prepared.context.rip ≡ 0x2000)
unfolding prepared thread_prepare
thread_prepare-stack_example =
    thread_prepare-stack (thread running none) 0x2000 0x500 0x1000 9 0x8000 8189 7 (omega arith)
      (omega arith) refl
