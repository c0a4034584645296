-- ===== src/Sync/Mutex/Threads.antt =====
-- `mcs_mutex_try_lock` and `mcs_mutex_unlock` run by several threads, one atomic access at a time,
-- in any order. A thread is named by the owner id that it passes; atomic accesses are taken to be
-- sequentially consistent.
use mcsos.Common.{ℕ, ◌<◌, ◌≡◌, ◌≢◌, Bool, true, false, if◌then◌else◌, ◌==◌}
use mcsos.Sync.Mutex.{Mutex}

-- Where a thread stands.
pub data Pc : Type 0 where
  outside : Pc  -- in no call, and holding nothing
  claimed : Pc  -- the exchange in `try_lock` succeeded, the owner is not stored yet
  inside : Pc  -- `try_lock` returned MCS_SYNC_OK
  clearing : Pc  -- `unlock` found itself the owner
  opening : Pc  -- `unlock` stored 0 as the owner

pub record System : Type 0 where
  pub mutex : Mutex
  pub pc : ℕ → Pc

abbrev pub move : (ℕ → Pc) → ℕ → Pc → ℕ → Pc
move pc i p j = if i == j then p else pc j

-- A thread may call either function whenever it is in no call.
abbrev pub quiet : Pc → Bool
quiet outside = true
quiet inside = true
quiet _ = false

-- An access of thread i.
pub data Step (s : System) : ℕ → System → Type 0 where
  -- `mcs_mutex_try_lock`
  exchange_wins :
      (i : ℕ)
      → 0 < i
      → quiet (s.pc i) ≡ true
      → s.mutex.locked ≡ 0
      → Step s i (record { mutex = record s.mutex { locked = 1 }; pc = move s.pc i claimed })
  exchange_fails : (i : ℕ) → 0 < i → quiet (s.pc i) ≡ true → s.mutex.locked ≢ 0 → Step s i s
  store_owner :
      (i : ℕ)
      → s.pc i ≡ claimed
      → Step s i (record { mutex = record s.mutex { owner = i }; pc = move s.pc i inside })
  -- `mcs_mutex_unlock`
  load_own :
      (i : ℕ)
      → 0 < i
      → quiet (s.pc i) ≡ true
      → s.mutex.owner ≡ i
      → Step s i (record { mutex = s.mutex; pc = move s.pc i clearing })
  load_other : (i : ℕ) → 0 < i → quiet (s.pc i) ≡ true → s.mutex.owner ≢ i → Step s i s
  clear_owner :
      (i : ℕ)
      → s.pc i ≡ clearing
      → Step s i (record { mutex = record s.mutex { owner = 0 }; pc = move s.pc i opening })
  clear_locked :
      (i : ℕ)
      → s.pc i ≡ opening
      → Step s i (record { mutex = record s.mutex { locked = 0 }; pc = move s.pc i outside })

abbrev pub start : ℕ → ℕ → System
start class_id name = record {
  mutex = record { locked = 0; owner = 0; class_id = class_id; name = name };
  pc = λ _. outside;
}

pub data Reach (class_id name : ℕ) : System → Type 0 where
  begin : Reach class_id name (start class_id name)
  then_step : {s t : System} {i : ℕ} → Reach class_id name s → Step s i t → Reach class_id name t
