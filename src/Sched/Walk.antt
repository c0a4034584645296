-- ===== src/Sched/Walk.antt =====
-- The functions of kernel/mcsos_thread.c that walk the ready queue, on fuel: `none` means that the
-- fuel ran out.
use mcsos.Common.{
  ℕ, zero, suc, Bool, true, false, not, ◌||◌, Option, none, some, ltb, ◌!=◌, if◌then◌else◌, add_u64,
}
use mcsos.Sched.Thread.{
  Thread, ThreadState, ready, SchedResult, ok, einval, ecorrupt, World, valid_thread_object,
}
use mcsos.Sched.Switch.{same_pointer}

unfoldable pub count_from : (ℕ → Thread) → ℕ → Option ℕ → ℕ → Option ℕ
count_from ts zero cursor count = none
count_from ts (suc fuel) none count = some count
count_from ts (suc fuel) (some p) count = count_from ts fuel (ts p).next (add_u64 count 1)

unfoldable pub ready_count : ℕ → Option World → Option ℕ
ready_count fuel none = some 0
ready_count fuel (some w) =
    if not w.sched.initialized then some 0 else count_from w.threads fuel w.sched.ready_head 0

abbrev pub is_ready : ThreadState → Bool
is_ready ready = true
is_ready _ = false

-- The loop of `mcsos_sched_validate`, and the two tests behind it.
unfoldable pub validate_from : World → ℕ → Option ℕ → Option ℕ → ℕ → Option SchedResult
validate_from w zero cursor last count = none
validate_from w (suc fuel) none last count =
    if not (same_pointer last w.sched.ready_tail) || count != w.sched.runnable_count
    then some ecorrupt
    else some ok
validate_from w (suc fuel) (some p) last count =
    let rest = validate_from w fuel (w.threads p).next (some p) (add_u64 count 1) in
    if not (valid_thread_object w.threads (some p)) || not (is_ready (w.threads p).state)
    then some ecorrupt
    else if same_pointer (some p) w.sched.current
    then some ecorrupt
    else if ltb (add_u64 w.sched.runnable_count 1) (add_u64 count 1)
    then some ecorrupt
    else rest

unfoldable pub validate : ℕ → Option World → Option SchedResult
validate fuel none = some einval
validate fuel (some w) =
    if not w.sched.initialized || not (valid_thread_object w.threads w.sched.current)
    then some einval
    else validate_from w fuel w.sched.ready_head none 0
