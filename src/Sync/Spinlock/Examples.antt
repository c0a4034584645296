-- ===== src/Sync/Spinlock/Examples.antt =====
-- Two threads and one spin lock.
use mcsos.Common.{ℕ, ◌≡◌, ◌≢◌, refl, true, false, some, inl}
use mcsos.Sync.Spinlock.{
  Spinlock, spin_init, spin_try_lock, spin_unlock, spin_is_locked, outside, trying, waiting, inside,
  System, move, call_lock, exchange, release, Reach, begin, then_step, Alone,
}
use mcsos.Sync.Spinlock.Exclusion.{spin_mutual_exclusion, spin_lock-progress}

abbrev free_lock : Spinlock
free_lock = record { locked = 0; class_id = 5; name = 70 }

abbrev taken_lock : Spinlock
taken_lock = record free_lock { locked = 1 }

-- Thread 1 holds the lock and thread 2 waits for it.
abbrev contended : System
contended = record {
  lock = taken_lock;
  pc = move (move (move (λ _. outside) 1 inside) 2 trying) 2 waiting;
}

Reach-contended : Reach 5 70 contended
unfolding spin_init spin_try_lock
Reach-contended =
    then_step
      (then_step
        (then_step (begin taken_lock free_lock refl) (exchange 1 taken_lock true refl refl))
        (call_lock 2 refl))
      (exchange 2 taken_lock false refl refl)

-- The same, once thread 1 has released the lock.
abbrev freed : System
freed = record { lock = free_lock; pc = move contended.pc 1 outside }

Reach-freed : Reach 5 70 freed
unfolding spin_unlock
Reach-freed = then_step Reach-contended (release 1 free_lock refl refl)

spin_mutual_exclusion_example :
    ((i j : ℕ) → contended.pc i ≡ inside → contended.pc j ≡ inside → i ≡ j)
    × ((i : ℕ) → contended.pc i ≡ inside → spin_is_locked (some taken_lock) ≡ true)
    × (spin_is_locked (some taken_lock) ≡ true → (i : ℕ) × (contended.pc i ≡ inside))
spin_mutual_exclusion_example = spin_mutual_exclusion Reach-contended

spin_lock-progress_example :
    (t : System) × Alone 2 freed t
    × Reach 5 70 t
    × (t.pc 2 ≡ inside)
    × ((j : ℕ) → j ≢ 2 → t.pc j ≡ freed.pc j)
    × (spin_is_locked (some t.lock) ≡ true)
unfolding spin_is_locked
spin_lock-progress_example = spin_lock-progress Reach-freed 2 (inl refl) refl
