-- ===== src/Sync/Mutex/Examples.antt =====
-- Two threads and one mutex.
use mcsos.Common.{ℕ, ◌≡◌, ◌≢◌, refl, true, some, arith}
use mcsos.Sync.{ok, edeadlk, ebusy}
use mcsos.Sync.Mutex.{try_lock}
use mcsos.Sync.Mutex.Threads.{
  outside, claimed, inside, System, Step, move, exchange_wins, exchange_fails, store_owner, start,
  Reach, begin, then_step,
}
use mcsos.Sync.Mutex.Exclusion.{holding, mutual_exclusion, never_lost, uninterrupted_lock}

-- Thread 4 has the mutex, and thread 9 has tried to take it.
abbrev taken : System
taken = record {
  mutex = record { locked = 1; owner = 4; class_id = 2; name = 70 };
  pc = move (move (λ _. outside) 4 claimed) 4 inside;
}

Reach-taken : Reach 2 70 taken
Reach-taken =
    then_step
      (then_step (then_step begin (exchange_wins 4 (omega arith) refl refl)) (store_owner 4 refl))
      (exchange_fails 9 (omega arith) refl (omega arith))

try_again :
    ((try_lock (some taken.mutex) 4).1 ≡ edeadlk) × ((try_lock (some taken.mutex) 9).1 ≡ ebusy)
unfolding try_lock
try_again = (refl, refl)

mutual_exclusion_example : (◌≡◌ {A = ℕ} 4 4) × (taken.mutex.locked ≡ 1)
mutual_exclusion_example = mutual_exclusion Reach-taken 4 4 refl refl

never_lost_example : (i : ℕ) × (holding (taken.pc i) ≡ true)
never_lost_example = never_lost Reach-taken (omega arith)

uninterrupted_lock_example :
    (m t : System) × Step (start 2 70) 9 m
    × Step m 9 t
    × Reach 2 70 t
    × (t.pc 9 ≡ inside)
    × ((j : ℕ) → j ≢ 9 → t.pc j ≡ outside)
    × (try_lock (some (start 2 70).mutex) 9 ≡ (some t.mutex, ok))
uninterrupted_lock_example = uninterrupted_lock begin 9 (omega arith) refl refl
