-- ===== src/Syscall/Examples.antt =====
-- A user region of one page: runs of the system calls, and their theorems at concrete arguments.
use mcsos.Common.{
  ℕ, ◌+◌, ◌%◌, ◌≤◌, ◌<◌, ◌≡◌, ◌≢◌, refl, ◌↔◌, ◌⊎◌, true, false, List, [], ◌∷◌, some, none, arith,
}
use mcsos.Syscall.{
  UserRegion, SyscallOps, user_check_range, copy_from_user, syscall_init, sys_write_serial, table,
  syscall_dispatch, syscall_dispatch_frame, sys_max, max_write, ok, enosys, einval, efault,
}
use mcsos.Syscall.Checks.{Copied, user_check_range-contains, copy_from_user-Copied}
use mcsos.Syscall.Dispatch.{sys_write_serial-guarded, syscall_dispatch-total}

abbrev region : UserRegion
region = record { base = 0x1000; limit = 0x2000 }

-- The world is the number of bytes written.
abbrev count_bytes : ℕ → ℕ → ℕ → ℕ × ℕ
count_bytes ptr len world = (world + len, len)

abbrev ops : SyscallOps ℕ
ops = record {
  get_ticks = some (λ world. (world, 77));
  yield_current = none;
  exit_current = none;
  write_serial = some count_bytes;
}

abbrev memory : ℕ → ℕ
memory a = a % 256

write_runs : syscall_dispatch (syscall_init (some ops)) region 2 0x1ff0 16 0 0 0 0 5 ≡ some (21, 16)
unfolding syscall_dispatch syscall_init table sys_write_serial user_check_range
write_runs = refl

frame_runs :
    syscall_dispatch_frame
      (syscall_init (some ops))
      region
      (some
        (record { nr = 1; arg0 = 0; arg1 = 0; arg2 = 0; arg3 = 0; arg4 = 0; arg5 = 0; ret = 0 }))
      5
    ≡ some (
      5,
      some
          (record { nr = 1; arg0 = 0; arg1 = 0; arg2 = 0; arg3 = 0; arg4 = 0; arg5 = 0; ret = 77 }),
    )
unfolding syscall_dispatch_frame syscall_dispatch syscall_init table
frame_runs = refl

write_crosses : syscall_dispatch ops region 2 0x1ff0 17 0 0 0 0 5 ≡ some (5, efault)
unfolding syscall_dispatch table sys_write_serial user_check_range
write_crosses = refl

abbrev tail : ℕ
tail = 0x1ff0

abbrev bottom : ℕ
bottom = 0x1000

user_check_range-contains_example :
    (user_check_range region 0x1ff0 16 ≡ true)
    ↔ ((bottom ≢ 0) × (0x1000 ≤ 0x1ff0) × (0x1ff0 + 16 ≤ 0x2000))
user_check_range-contains_example =
    user_check_range-contains region 0x1ff0 16 (omega arith) (omega arith) (omega arith)
      (omega arith)

abbrev source : ℕ
source = 0x1001

abbrev buffer : List ℕ
buffer = 9 ∷ 9 ∷ 9 ∷ 9 ∷ []

copy_from_user-Copied_example :
    ((after : List ℕ) × (copy_from_user region memory (some buffer) source 3 ≡ (some after, ok))
      × (user_check_range region source 3 ≡ true)
      × Copied memory source 3 buffer after)
    ⊎ ((status : ℕ) × (copy_from_user region memory (some buffer) source 3 ≡ (some buffer, status))
        × (status ≢ ok)
        × ((source ≡ 0) ⊎ (user_check_range region source 3 ≡ false)))
copy_from_user-Copied_example =
    copy_from_user-Copied region memory buffer source 3 (omega arith) (omega arith)

sys_write_serial-guarded_example :
    ((sys_write_serial ops region tail 17 5 ≡ some (22, 17))
      × (tail ≢ 0)
      × (17 ≤ max_write)
      × (user_check_range region tail 17 ≡ true))
    ⊎ (((tail ≡ 0) ⊎ (max_write < 17) ⊎ (user_check_range region tail 17 ≡ false))
        × ((sys_write_serial ops region tail 17 5 ≡ some (5, einval))
            ⊎ (sys_write_serial ops region tail 17 5 ≡ some (5, efault))))
sys_write_serial-guarded_example = sys_write_serial-guarded ops region tail 17 5 count_bytes refl

syscall_dispatch-total_example :
    (done : ℕ × ℕ) × (syscall_dispatch (syscall_init (some ops)) region 9 0 0 0 0 0 0 5 ≡ some done)
    × (sys_max ≤ 9 → done ≡ (5, enosys))
syscall_dispatch-total_example = syscall_dispatch-total (some ops) region 9 0 0 0 0 0 0 5
