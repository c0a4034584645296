-- ===== src/Sync/Spinlock.antt =====
-- kernel/sync/spinlock.c: the spin lock as one thread runs its functions, and as several interleave.
pub mod Exclusion
mod Examples
use mcsos.Common.{
  ℕ, suc, ◌<◌, ◌≡◌, ◌≢◌, refl, Bool, true, false, Option, none, some, ◌==◌, ◌!=◌, if◌then◌else◌,
}

-- A name is only stored: it is the address of its text.
pub record Spinlock : Type 0 where
  pub locked : ℕ
  pub class_id : ℕ
  pub name : ℕ

unfoldable pub spin_init : Option Spinlock → ℕ → ℕ → Option Spinlock
spin_init none class_id name = none
spin_init (some l) class_id name = some (record { locked = 0; class_id = class_id; name = name })

-- `__atomic_exchange_n(&lock->locked, 1u, …)`
unfoldable pub spin_try_lock : Option Spinlock → Option Spinlock × Bool
spin_try_lock none = (none, false)
spin_try_lock (some l) = (some (record l { locked = 1 }), l.locked == 0)

unfoldable pub spin_unlock : Option Spinlock → Option Spinlock
spin_unlock none = none
spin_unlock (some l) = some (record l { locked = 0 })

unfoldable pub spin_is_locked : Option Spinlock → Bool
spin_is_locked none = false
spin_is_locked (some l) = l.locked != 0

-- Where a thread stands: `trying` is before the exchange of `mcs_spin_lock`, `waiting` is in its
-- inner loop, before a load.
pub data Pc : Type 0 where
  outside trying waiting inside : Pc

pub record System : Type 0 where
  pub lock : Spinlock
  pub pc : ℕ → Pc

abbrev pub move : (ℕ → Pc) → ℕ → Pc → ℕ → Pc
move pc i p j = if i == j then p else pc j

-- Where the exchange may run: in a call of `mcs_spin_try_lock`, or in `mcs_spin_lock`.
abbrev pub at_exchange : Pc → Bool
at_exchange outside = true
at_exchange trying = true
at_exchange _ = false

-- A failed `mcs_spin_try_lock` returns; a failed exchange of `mcs_spin_lock` goes on to wait.
abbrev pub after_failure : Pc → Pc
after_failure trying = waiting
after_failure p = p

-- One atomic access of thread i. The callers keep one rule that the code does not check: only the
-- thread that holds the lock calls `mcs_spin_unlock`, and it does not take the lock again.
pub data Step (s : System) : ℕ → System → Type 0 where
  call_lock :
      (i : ℕ) → s.pc i ≡ outside → Step s i (record { lock = s.lock; pc = move s.pc i trying })
  exchange :
      (i : ℕ) (l : Spinlock) (won : Bool)
      → at_exchange (s.pc i) ≡ true
      → spin_try_lock (some s.lock) ≡ (some l, won)
      → Step s i
          (record { lock = l; pc = move s.pc i (if won then inside else after_failure (s.pc i)) })
  load :
      (i : ℕ)
      → s.pc i ≡ waiting
      → Step s i (record {
        lock = s.lock;
        pc = move s.pc i (if s.lock.locked != 0 then waiting else trying);
      })
  release :
      (i : ℕ) (l : Spinlock)
      → s.pc i ≡ inside
      → spin_unlock (some s.lock) ≡ some l
      → Step s i (record { lock = l; pc = move s.pc i outside })

abbrev pub start : Spinlock → System
start l = record { lock = l; pc = λ _. outside }

-- What the threads can reach from a lock that `mcs_spin_init` set up.
pub data Reach (class_id name : ℕ) : System → Type 0 where
  begin :
      (old l : Spinlock)
      → spin_init (some old) class_id name ≡ some l
      → Reach class_id name (start l)
  then_step : {s t : System} {i : ℕ} → Reach class_id name s → Step s i t → Reach class_id name t

-- What thread i makes of s in a row of steps of its own, while no other thread runs.
pub data Alone (i : ℕ) (s : System) : System → Type 0 where
  stay : Alone i s s
  go_on : {t u : System} → Alone i s t → Step t i u → Alone i s u
