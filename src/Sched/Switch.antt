-- ===== src/Sched/Switch.antt =====
-- The scheduling decisions of kernel/mcsos_thread.c. The context switch itself, which the source has
-- in assembly, is not modelled: a switch is the change of the records up to that call.
use mcsos.Common.{
  ℕ, Bool, true, false, not, ◌&&◌, ◌||◌, Option, none, some, ◌==◌, if◌then◌else◌, add_u64,
}
use mcsos.Sched.Thread.{
  Thread, ThreadState, ready, running, blocked, SchedResult, ok, einval, estate, ecorrupt, World,
  put, valid_thread_object,
}
use mcsos.Sched.Ready.{enqueue, pick_next}

abbrev pub is_running : ThreadState → Bool
is_running running = true
is_running _ = false

-- Whether two pointers are equal.
abbrev pub same_pointer : Option ℕ → Option ℕ → Bool
same_pointer none none = true
same_pointer none (some q) = false
same_pointer (some p) none = false
same_pointer (some p) (some q) = p == q

-- `*p` with another state, and with one more switch.
abbrev pub put_state : (ℕ → Thread) → ℕ → ThreadState → ℕ → Thread
put_state ts p s = put ts p (record (ts p) { state = s })

abbrev pub count_switch : (ℕ → Thread) → ℕ → ℕ → Thread
count_switch ts p = put ts p (record (ts p) { switches = add_u64 (ts p).switches 1 })

-- The end of `mcsos_sched_yield`, up to the context switch.
unfoldable pub switch_to : World → ℕ → ℕ → World
switch_to w old p = record {
  threads = count_switch (count_switch (put_state w.threads p running) old) p;
  sched = record w.sched {
    current = some p;
    context_switches = add_u64 w.sched.context_switches 1;
  };
}

-- What `mcsos_sched_yield` does once it has picked a valid thread; before that, the result of
-- queueing the old one.
unfoldable pub after_requeue : ℕ → ℕ → Option World → SchedResult → Option World × SchedResult
after_requeue old p none rc = (none, rc)
after_requeue old p (some v) ok = (some (switch_to v old p), ok)
after_requeue old p (some v) rc = (some v, rc)

unfoldable pub yield_to : World → ℕ → ℕ → Option World × SchedResult
yield_to w old p =
    if p == old
    then (some (record { threads = put_state w.threads old running; sched = w.sched }), ok)
    else if is_running (w.threads old).state && not (same_pointer (some old) w.sched.idle)
    then (let (queued, rc) =
          enqueue (some (record { threads = put_state w.threads old ready; sched = w.sched }))
            (some old) in
        after_requeue old p queued rc)
    else (some (switch_to w old p), ok)

unfoldable pub yield_picked : ℕ → Option World → Option ℕ → Option World × SchedResult
yield_picked old none chosen = (none, ecorrupt)
yield_picked old (some v) none = (some v, ecorrupt)
yield_picked old (some v) (some p) =
    if not (valid_thread_object v.threads (some p)) then (some v, ecorrupt) else yield_to v old p

unfoldable pub yield : Option World → Option World × SchedResult
yield none = (none, einval)
yield (some w) =
    if not w.sched.initialized || not (valid_thread_object w.threads w.sched.current)
    then (some w, einval)
    else elim w.sched.current [
      | none ↦ (some w, einval)
      | some old ↦ let (picked, chosen) = pick_next (some w) in yield_picked old picked chosen
    ]

unfoldable pub tick : Option World → Option World × SchedResult
tick none = (none, einval)
tick (some w) =
    if not w.sched.initialized || not (valid_thread_object w.threads w.sched.current)
    then (some w, einval)
    else elim w.sched.current [
      | none ↦ (some w, einval)
      | some p ↦ (
        some (record {
          threads =
              put w.threads p (record (w.threads p) { ticks = add_u64 (w.threads p).ticks 1 });
          sched = record w.sched { ticks = add_u64 w.sched.ticks 1 };
        }),
        ok,
      )
    ]

unfoldable pub block_current : Option World → Option World × SchedResult
block_current none = (none, einval)
block_current (some w) =
    if not w.sched.initialized || not (valid_thread_object w.threads w.sched.current)
    then (some w, einval)
    else if same_pointer w.sched.current w.sched.idle
    then (some w, estate)
    else elim w.sched.current [
      | none ↦ (some w, einval)
      | some p ↦ yield (some (record { threads = put_state w.threads p blocked; sched = w.sched }))
    ]

abbrev pub is_blocked : ThreadState → Bool
is_blocked blocked = true
is_blocked _ = false

-- `threads` is the memory that `thread` points into, also if the scheduler is missing.
unfoldable pub mark_ready : World → Bool → Option ℕ → Option World × SchedResult
mark_ready w has_sched none = (some w, einval)
mark_ready w has_sched (some p) =
    if not (valid_thread_object w.threads (some p))
    then (some w, einval)
    else if not (is_blocked (w.threads p).state)
    then (some w, estate)
    else if has_sched
    then enqueue (some w) (some p)
    else (some w, einval)
