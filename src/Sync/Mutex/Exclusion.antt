-- ===== src/Sync/Mutex/Exclusion.antt =====
-- The invariant of the interleaved mutex: one holder at most, and the owner word names it.
use mcsos.Common.{
  ℕ, ◌<◌, ◌≡◌, ◌≢◌, refl, Bool, true, false, false≢true, arith, if◌then◌else◌, ◌==◌, some,
}
use mcsos.Sync.{ok, eperm}
use mcsos.Sync.Mutex.{try_lock, unlock}
use mcsos.Sync.Mutex.Threads.{
  Pc, outside, claimed, inside, clearing, System, move, Step, exchange_wins, exchange_fails,
  store_owner, load_own, load_other, clear_owner, clear_locked, start, Reach, begin, then_step,
}

-- From a successful exchange until the lock word is cleared.
abbrev pub holding : Pc → Bool
holding outside = false
holding _ = true

-- Between the two stores of the owner word.
abbrev pub named : Pc → Bool
named inside = true
named clearing = true
named _ = false

pub record Inv (s : System) : Type 0 where
  pub locked : (i : ℕ) → holding (s.pc i) ≡ true → s.mutex.locked ≡ 1
  pub unique : (i j : ℕ) → holding (s.pc i) ≡ true → holding (s.pc j) ≡ true → i ≡ j
  pub owned : (i : ℕ) → named (s.pc i) ≡ true → s.mutex.owner ≡ i
  pub naming : (i : ℕ) → 0 < i → s.mutex.owner ≡ i → named (s.pc i) ≡ true
  pub held : s.mutex.locked ≢ 0 → (i : ℕ) × (holding (s.pc i) ≡ true)

Inv-start : (class_id name : ℕ) → Inv (start class_id name)
Inv-start class_id name = record {
  locked = λ i h. absurd (false≢true h);
  unique = λ i j h k. absurd (false≢true h);
  owned = λ i h. absurd (false≢true h);
  naming = λ i p e. absurd (omega arith);
  held = λ ne. absurd (ne refl);
}

Step-Inv : {s : System} {i : ℕ} {t : System} → Step s i t → Inv s → Inv t
Step-Inv {s} (exchange_wins i p q free) v = record {
  locked = λ j h. refl;
  unique = λ j k h g. ground (arith, v.locked j, v.locked k);
  owned = λ j h. ground (arith, v.owned j, v.locked j);
  naming = λ j pos e. ground (arith, v.naming j, v.locked i, v.locked j);
  held = λ ne. (i, ground arith);
}
Step-Inv (exchange_fails i p q busy) v = v
Step-Inv (store_owner i e) v = record {
  locked = λ j h. ground (arith, v.locked i, v.locked j);
  unique = λ j k h g. ground (arith, v.unique i j, v.unique i k, v.unique j k);
  owned = λ j h. ground (arith, v.unique i j);
  naming = λ j pos q. ground arith;
  held = λ ne. (i, ground arith);
}
Step-Inv (load_own i p q e) v = record {
  locked = λ j h. ground (arith, v.naming i, v.locked i, v.locked j);
  unique = λ j k h g. ground (arith, v.naming i, v.unique i j, v.unique i k, v.unique j k);
  owned = λ j h. ground (arith, v.owned j);
  naming = λ j pos r. ground (arith, v.naming j);
  held = λ ne. (i, ground arith);
}
Step-Inv (load_other i p q e) v = v
Step-Inv (clear_owner i e) v = record {
  locked = λ j h. ground (arith, v.locked i, v.locked j);
  unique = λ j k h g. ground (arith, v.unique i j, v.unique i k, v.unique j k);
  owned = λ j h. ground (arith, v.unique i j);
  naming = λ j pos r. absurd (omega arith);
  held = λ ne. (i, ground arith);
}
Step-Inv (clear_locked i e) v = record {
  locked = λ j h. ground (arith, v.unique i j);
  unique = λ j k h g. ground (arith, v.unique j k);
  owned = λ j h. ground (arith, v.owned j);
  naming = λ j pos r. ground (arith, v.naming j);
  held = λ ne. absurd (ne refl);
}

pub Reach-Inv : {c n : ℕ} {s : System} → Reach c n s → Inv s
Reach-Inv {c} {n} begin = Inv-start c n
Reach-Inv (then_step r st) = Step-Inv st (Reach-Inv r)

-- In every reachable state at most one thread stands between its successful exchange and the store
-- that clears the lock word, and while one does the lock word is 1.
pub mutual_exclusion :
    {c n : ℕ} {s : System}
    → Reach c n s
    → (i j : ℕ) → holding (s.pc i) ≡ true
    → holding (s.pc j) ≡ true
    → (i ≡ j) × (s.mutex.locked ≡ 1)
mutual_exclusion r i j hi hj = ((Reach-Inv r).unique i j hi hj, (Reach-Inv r).locked i hi)

-- In every reachable state the lock is never lost: while the lock word is not 0 some thread holds
-- the mutex, and has yet to clear the word.
pub never_lost :
    {c n : ℕ} {s : System} → Reach c n s → s.mutex.locked ≢ 0 → (i : ℕ) × (holding (s.pc i) ≡ true)
never_lost r ne = (Reach-Inv r).held ne

-- In every reachable state `unlock`, run without interruption, succeeds for a thread whose
-- `try_lock` succeeded, and refuses every other thread.
unlock_by_holder :
    {c n : ℕ} {s : System}
    → Reach c n s
    → (i j : ℕ) → 0 < i
    → 0 < j
    → s.pc i ≡ inside
    → (unlock (some s.mutex) j).1 ≡ (if i == j then ok else eperm)
unfolding unlock
unlock_by_holder r i j pi pj e = ground (arith, (Reach-Inv r).owned i)

-- From a reachable state s with a free mutex, a thread outside any call, whose owner number is not
-- 0, takes two steps in turn, from s to m and from m to t, of which t is reachable too: in t the
-- thread holds the mutex, every other thread stands where it stood in s, and the mutex is the one
-- that `try_lock`, run on that of s, returns with MCS_SYNC_OK.
pub uninterrupted_lock :
    {c n : ℕ} {s : System}
    → Reach c n s
    → (i : ℕ) → 0 < i
    → s.pc i ≡ outside
    → s.mutex.locked ≡ 0
    → (m t : System) × Step s i m
      × Step m i t
      × Reach c n t
      × (t.pc i ≡ inside)
      × ((j : ℕ) → j ≢ i → t.pc j ≡ s.pc j)
      × (try_lock (some s.mutex) i ≡ (some t.mutex, ok))
unfolding try_lock
uninterrupted_lock {s = s} r i p e free =
    let m : System = record { mutex = record s.mutex { locked = 1 }; pc = move s.pc i claimed } in
    let t : System = record { mutex = record m.mutex { owner = i }; pc = move m.pc i inside } in
    let first : Step s i m = exchange_wins i p (ground arith) free in
    let second : Step m i t = store_owner i (ground arith) in
    (
      m,
      t,
      first,
      second,
      then_step (then_step r first) second,
      ground arith,
      λ j ne. ground arith,
      ground arith,
    )
