-- ===== src/Sched/Ready.antt =====
-- The ready queue of kernel/mcsos_thread.c: the list that the threads' `next` fields link.
use mcsos.Common.{
  ℕ, ◌-◌, Bool, true, false, not, ◌||◌, Option, none, some, ltb, if◌then◌else◌, add_u64,
}
use mcsos.Sched.Thread.{
  ThreadState, new, ready, blocked, SchedResult, ok, einval, estate, World, put,
  valid_thread_object,
}

abbrev pub may_enqueue : ThreadState → Bool
may_enqueue new = true
may_enqueue ready = true
may_enqueue blocked = true
may_enqueue _ = false

-- `mcsos_sched_enqueue` once its two tests have passed.
unfoldable pub append_ready : World → ℕ → World
append_ready w p =
    let ts = put w.threads p (record (w.threads p) { state = ready; next = none }) in
    let count = add_u64 w.sched.runnable_count 1 in
    elim w.sched.ready_tail [
      | none ↦ record {
        threads = ts;
        sched = record w.sched { ready_head = some p; ready_tail = some p; runnable_count = count };
      }
      | some q ↦ record {
        threads = put ts q (record (ts q) { next = some p });
        sched = record w.sched { ready_tail = some p; runnable_count = count };
      }
    ]

unfoldable pub enqueue : Option World → Option ℕ → Option World × SchedResult
enqueue none thread = (none, einval)
enqueue (some w) none = (some w, einval)
enqueue (some w) (some p) =
    if not w.sched.initialized || not (valid_thread_object w.threads (some p))
    then (some w, einval)
    else if not (may_enqueue (w.threads p).state)
    then (some w, estate)
    else (some (append_ready w p), ok)

unfoldable pub pick_next : Option World → Option World × Option ℕ
pick_next none = (none, none)
pick_next (some w) = if not w.sched.initialized then (some w, none) else elim w.sched.ready_head [
  | none ↦ (some w, w.sched.idle)
  | some p ↦
      let rest = (w.threads p).next in
      (
        some (record {
          threads = put w.threads p (record (w.threads p) { next = none });
          sched = record w.sched {
            ready_head = rest;
            ready_tail = elim rest [ none ↦ none | some q ↦ w.sched.ready_tail ];
            runnable_count =
                if ltb 0 w.sched.runnable_count
                then w.sched.runnable_count - 1
                else w.sched.runnable_count;
          };
        }),
        some p,
      )
]
