-- ===== src/Sync/Mutex.antt =====
-- kernel/sync/mutex.c: the mutex as one thread runs its functions, and as several interleave.
pub mod Threads
pub mod Exclusion
mod Examples
use mcsos.Common.{ℕ, Bool, true, false, Option, none, some, ◌==◌, ◌!=◌, if◌then◌else◌}
use mcsos.Sync.{SyncStatus, ok, einval, ebusy, eperm, edeadlk}

-- A name is only stored: it is the address of its text.
pub record Mutex : Type 0 where
  pub locked : ℕ
  pub owner : ℕ
  pub class_id : ℕ
  pub name : ℕ

unfoldable pub mutex_init : Option Mutex → ℕ → ℕ → Option Mutex
mutex_init none class_id name = none
mutex_init (some m) class_id name =
    some (record { locked = 0; owner = 0; class_id = class_id; name = name })

-- The compare-and-exchange and what follows it, with no other thread in between.
unfoldable pub try_lock : Option Mutex → ℕ → Option Mutex × SyncStatus
try_lock none owner_id = (none, einval)
try_lock (some m) owner_id =
    if owner_id == 0
    then (some m, einval)
    else if m.locked == 0
    then (some (record m { locked = 1; owner = owner_id }), ok)
    else if m.owner == owner_id
    then (some m, edeadlk)
    else (some m, ebusy)

unfoldable pub unlock : Option Mutex → ℕ → Option Mutex × SyncStatus
unlock none owner_id = (none, einval)
unlock (some m) owner_id =
    if owner_id == 0
    then (some m, einval)
    else if m.owner != owner_id
    then (some m, eperm)
    else (some (record m { locked = 0; owner = 0 }), ok)

unfoldable pub is_locked : Option Mutex → Bool
is_locked none = false
is_locked (some m) = m.locked != 0

unfoldable pub owner_of : Option Mutex → ℕ
owner_of none = 0
owner_of (some m) = m.owner
