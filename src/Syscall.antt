-- ===== src/Syscall.antt =====
-- kernel/syscall/syscall.c with include/mcsos/syscall.h: the table of system calls and the checks
-- of user memory. An `int64_t` is its 64-bit pattern, and a function pointer that may be null is
-- an Option. The functions behind the pointers act on a world of their own, a parameter here; a
-- call through a null pointer has no result, none.
pub mod Checks
pub mod Dispatch
mod Examples
use mcsos.Common.{
  ℕ, zero, suc, ◌+◌, ◌-◌, ◌*◌, ◌%◌, ◌^◌, Bool, true, false, List, [], ◌∷◌, Option, none, some, ltb,
  leb, ◌==◌, ◌!=◌, if◌then◌else◌, get_or, set, add_u64, sub_u64, u32, u64,
}

-- `enum mcsos_syscall_status`
abbrev pub ok : ℕ
ok = 0

abbrev pub einval : ℕ
einval = 2 ^ 64 - 22

abbrev pub enosys : ℕ
enosys = 2 ^ 64 - 38

abbrev pub efault : ℕ
efault = 2 ^ 64 - 14

abbrev pub ebusy : ℕ
ebusy = 2 ^ 64 - 16

-- `MCSOS_SYS_MAX`
abbrev pub sys_max : ℕ
sys_max = 5

abbrev pub max_write : ℕ
max_write = 4096

pub record UserRegion : Type 0 where
  pub base : ℕ
  pub limit : ℕ

unfoldable pub user_check_range : UserRegion → ℕ → ℕ → Bool
user_check_range region addr len =
    let last = sub_u64 (add_u64 addr len) 1 in
    if len == 0
    then true
    else if region.base == 0
    then false
    else if leb region.limit region.base
    then false
    else if ltb addr region.base
    then false
    else if ltb region.limit addr
    then false
    else if ltb last addr
    then false
    else if leb region.limit last
    then false
    else true

-- `for (i = 0; i < len; ++i) d[i] = s[i]`, by the rounds left; memory is a function of the address.
unfoldable pub copy_bytes : (ℕ → ℕ) → ℕ → ℕ → ℕ → List ℕ → List ℕ
copy_bytes memory src zero i dst = dst
copy_bytes memory src (suc n) i dst = copy_bytes memory src n (i + 1) (set dst i (memory (src + i)))

unfoldable pub copy_from_user : UserRegion → (ℕ → ℕ) → Option (List ℕ) → ℕ → ℕ → Option (List ℕ) × ℕ
copy_from_user region memory dst src len = if len == 0 then (dst, ok) else elim dst [
  | none ↦ (none, einval)
  | some d ↦
      if src == 0
      then (some d, einval)
      else if user_check_range region src len
      then (some (copy_bytes memory src len 0 d), ok)
      else (some d, efault)
]

-- `mcsos_syscall_ops_t` over the world w.
pub record SyscallOps (w : Type 0) : Type 0 where
  pub get_ticks : Option (w → w × ℕ)
  pub yield_current : Option (w → w)
  pub exit_current : Option (ℕ → w → w)
  pub write_serial : Option (ℕ → ℕ → w → w × ℕ)

pub record SyscallFrame : Type 0 where
  pub nr : ℕ
  pub arg0 : ℕ
  pub arg1 : ℕ
  pub arg2 : ℕ
  pub arg3 : ℕ
  pub arg4 : ℕ
  pub arg5 : ℕ
  pub ret : ℕ

-- A pointer of the caller replaces a default when it is not null.
abbrev pub chosen {ℓ} : {A : Type ℓ} → Option A → Option A → Option A
chosen none default = default
chosen (some f) default = some f

module _ {w : Type 0} where
  abbrev pub default_write_serial : ℕ → ℕ → w → w × ℕ
  default_write_serial buf len world = (world, len)

  abbrev pub default_ops : SyscallOps w
  default_ops = record {
    get_ticks = none;
    yield_current = none;
    exit_current = none;
    write_serial = some default_write_serial;
  }

  unfoldable pub syscall_init : Option (SyscallOps w) → SyscallOps w
  syscall_init none = default_ops
  syscall_init (some ops) = record {
    get_ticks = chosen ops.get_ticks default_ops.get_ticks;
    yield_current = chosen ops.yield_current default_ops.yield_current;
    exit_current = chosen ops.exit_current default_ops.exit_current;
    write_serial = chosen ops.write_serial default_ops.write_serial;
  }

  module _ (ops : SyscallOps w) (region : UserRegion) where
    abbrev pub sys_ping : w → Option (w × ℕ)
    sys_ping world = some (world, 0x2605020A)

    abbrev pub sys_get_ticks : w → Option (w × ℕ)
    sys_get_ticks world = elim ops.get_ticks [
      | none ↦ some (world, ebusy)
      | some f ↦ some (f world)
    ]

    unfoldable pub sys_write_serial : ℕ → ℕ → w → Option (w × ℕ)
    sys_write_serial ptr len world =
        if ptr == 0
        then some (world, einval)
        else if ltb max_write len
        then some (world, einval)
        else if user_check_range region ptr len
        then elim ops.write_serial [ none ↦ none | some f ↦ some (f ptr len world) ]
        else some (world, efault)

    abbrev pub sys_yield : w → Option (w × ℕ)
    sys_yield world = elim ops.yield_current [
      | none ↦ some (world, ebusy)
      | some f ↦ some (f world, ok)
    ]

    -- The code is cast to an `int`.
    abbrev pub sys_exit_thread : ℕ → w → Option (w × ℕ)
    sys_exit_thread code world = elim ops.exit_current [
      | none ↦ some (world, ebusy)
      | some f ↦ some (f (u32 code) world, ok)
    ]

    -- `g_table[nr]`, applied to the arguments that its functions read.
    unfoldable pub table : ℕ → ℕ → ℕ → Option (w → Option (w × ℕ))
    table nr arg0 arg1 =
        get_or
          (some sys_ping
            ∷ some sys_get_ticks
            ∷ some (sys_write_serial arg0 arg1)
            ∷ some sys_yield
            ∷ some (sys_exit_thread arg0)
            ∷ [])
          nr none

    abbrev called : Option (w → Option (w × ℕ)) → w → Option (w × ℕ)
    called none world = some (world, enosys)
    called (some fn) world = fn world

    unfoldable pub syscall_dispatch : ℕ → ℕ → ℕ → ℕ → ℕ → ℕ → ℕ → w → Option (w × ℕ)
    syscall_dispatch nr arg0 arg1 arg2 arg3 arg4 arg5 world =
        if leb sys_max nr then some (world, enosys) else called (table nr arg0 arg1) world

    abbrev returned : SyscallFrame → Option (w × ℕ) → Option (w × Option SyscallFrame)
    returned frame none = none
    returned frame (some done) = some (done.0, some (record frame { ret = done.1 }))

    unfoldable pub syscall_dispatch_frame :
        Option SyscallFrame → w → Option (w × Option SyscallFrame)
    syscall_dispatch_frame none world = some (world, none)
    syscall_dispatch_frame (some frame) world = returned frame (
        syscall_dispatch frame.nr frame.arg0 frame.arg1 frame.arg2 frame.arg3 frame.arg4 frame.arg5
          world)
