-- ===== src/Syscall/Dispatch.antt =====
-- What `mcsos_syscall_dispatch` does for each number, and which buffers reach the driver.
use mcsos.Common.{
  ℕ, zero, suc, ◌≤◌, ◌<◌, ◌≡◌, ◌≢◌, refl, true, false, Option, none, some, arith, ◌⊎◌, inl, inr,
  Bool-cases, Option-cases, ℕ_discrete, dec_lt, u32,
}
use mcsos.Syscall.{
  UserRegion, SyscallOps, user_check_range, syscall_init, sys_write_serial, table, syscall_dispatch,
  sys_max, max_write, enosys, einval, efault, ebusy, ok,
}

module _ {w : Type 0} where
  init-serial : (ops : Option (SyscallOps w)) → (syscall_init ops).write_serial ≢ none
  unfolding syscall_init
  init-serial none e = ground (arith, e)
  init-serial (some ops) e = ground (arith, e)

  -- The serial driver is called with a buffer only if it has at most 4096 bytes, is not null and
  -- was accepted as a user range; any other call of the system call changes nothing and returns
  -- the status EINVAL or EFAULT.
  pub sys_write_serial-guarded :
      (ops : SyscallOps w) (region : UserRegion) (ptr len : ℕ) (world : w) (f : ℕ → ℕ → w → w × ℕ)
      → ops.write_serial ≡ some f
      → ((sys_write_serial ops region ptr len world ≡ some (f ptr len world))
          × (ptr ≢ 0)
          × (len ≤ max_write)
          × (user_check_range region ptr len ≡ true))
        ⊎ (((ptr ≡ 0) ⊎ (max_write < len) ⊎ (user_check_range region ptr len ≡ false))
            × ((sys_write_serial ops region ptr len world ≡ some (world, einval))
                ⊎ (sys_write_serial ops region ptr len world ≡ some (world, efault))))
  unfolding sys_write_serial
  sys_write_serial-guarded ops region ptr len world f e = elim (ℕ_discrete ptr 0) [
    | yes z ↦ inr (inl z, inl (ground (arith, z)))
    | no nz ↦ elim (dec_lt max_write len) [
      | yes big ↦ inr (inr (inl big), inl (ground (arith, nz, big)))
      | no fits ↦ elim (Bool-cases (user_check_range region ptr len)) [
        | inl c ↦ inl (ground (arith, nz, fits, c, e), nz, omega (arith, fits), c)
        | inr c ↦ inr (inr (inr c), inr (ground (arith, nz, fits, c)))
      ]
    ]
  ]

  serial-total :
      (ops : SyscallOps w) (region : UserRegion) (ptr len : ℕ) (world : w)
      → ops.write_serial ≢ none
      → (done : w × ℕ) × (sys_write_serial ops region ptr len world ≡ some done)
  serial-total ops region ptr len world h = elim (Option-cases ops.write_serial) [
    | inl e ↦ absurd (h e)
    | inr f ↦ elim (sys_write_serial-guarded ops region ptr len world f.0 f.1) [
      | inl g ↦ (f.0 ptr len world, g.0)
      | inr g ↦ elim g.1 [ inl e ↦ ((world, einval), e) | inr e ↦ ((world, efault), e) ]
    ]
  ]

  ticks-total :
      (o : Option (w → w × ℕ)) (world : w)
      → (done : w × ℕ) × ((elim o [ none ↦ some (world, ebusy) | some f ↦ some (f world) ])
          ≡ some done)
  ticks-total none world = ((world, ebusy), refl)
  ticks-total (some f) world = (f world, refl)

  run-total :
      (o : Option (w → w)) (world : w)
      → (done : w × ℕ) × ((elim o [ none ↦ some (world, ebusy) | some f ↦ some (f world, ok) ])
          ≡ some done)
  run-total none world = ((world, ebusy), refl)
  run-total (some f) world = ((f world, ok), refl)

  exit-total :
      (o : Option (ℕ → w → w)) (code : ℕ) (world : w)
      → (done : w × ℕ) × ((elim o [
        | none ↦ some (world, ebusy)
        | some f ↦ some (f (u32 code) world, ok)
      ])
          ≡ some done)
  exit-total none code world = ((world, ebusy), refl)
  exit-total (some f) code world = ((f (u32 code) world, ok), refl)

  known-total :
      (ops : SyscallOps w) (region : UserRegion) (nr a0 a1 a2 a3 a4 a5 : ℕ) (world : w)
      → ops.write_serial ≢ none
      → nr < sys_max
      → (done : w × ℕ) × (syscall_dispatch ops region nr a0 a1 a2 a3 a4 a5 world ≡ some done)
  unfolding syscall_dispatch table
  known-total ops region zero a0 a1 a2 a3 a4 a5 world h lt = ((world, 0x2605020A), refl)
  known-total ops region (suc zero) a0 a1 a2 a3 a4 a5 world h lt = ticks-total ops.get_ticks world
  known-total ops region (suc (suc zero)) a0 a1 a2 a3 a4 a5 world h lt =
      serial-total ops region a0 a1 world h
  known-total ops region (suc (suc (suc zero))) a0 a1 a2 a3 a4 a5 world h lt =
      run-total ops.yield_current world
  known-total ops region (suc (suc (suc (suc zero)))) a0 a1 a2 a3 a4 a5 world h lt =
      exit-total ops.exit_current a0 world
  known-total ops region (suc (suc (suc (suc (suc n))))) a0 a1 a2 a3 a4 a5 world h lt =
      absurd (omega (arith, lt))

  unknown-enosys :
      (ops : SyscallOps w) (region : UserRegion) (nr a0 a1 a2 a3 a4 a5 : ℕ) (world : w)
      → sys_max ≤ nr
      → syscall_dispatch ops region nr a0 a1 a2 a3 a4 a5 world ≡ some (world, enosys)
  unfolding syscall_dispatch
  unknown-enosys ops region nr a0 a1 a2 a3 a4 a5 world h = ground arith

  -- Once the system calls are set up, with any pointers of the caller null or not, each dispatch
  -- has a result: none of the functions called is null. A number beyond the table changes nothing
  -- and returns the status ENOSYS.
  pub syscall_dispatch-total :
      (ops : Option (SyscallOps w)) (region : UserRegion) (nr a0 a1 a2 a3 a4 a5 : ℕ) (world : w)
      → (done : w × ℕ) × (syscall_dispatch (syscall_init ops) region nr a0 a1 a2 a3 a4 a5 world
          ≡ some done)
        × (sys_max ≤ nr → done ≡ (world, enosys))
  syscall_dispatch-total ops region nr a0 a1 a2 a3 a4 a5 world = elim (dec_lt nr sys_max) [
    | yes lt ↦
        let k =
          known-total (syscall_init ops) region nr a0 a1 a2 a3 a4 a5 world (init-serial ops) lt in
        (k.0, k.1, λ h. absurd (omega (arith, lt, h)))
    | no ge ↦
        let h : sys_max ≤ nr = omega (arith, ge) in
        (
          (world, enosys),
          unknown-enosys (syscall_init ops) region nr a0 a1 a2 a3 a4 a5 world h,
          λ _. refl,
        )
  ]
