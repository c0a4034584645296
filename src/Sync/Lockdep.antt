-- ===== src/Sync/Lockdep.antt =====
-- kernel/sync/lockdep.c: the classes that one thread holds, checked to be taken in growing order.
pub mod Held
pub mod Order
pub mod Runs
mod Examples
use mcsos.Common.{
  ℕ, zero, suc, ◌+◌, ◌-◌, Bool, true, false, List, Option, none, some, ltb, leb, ◌==◌, ◌!=◌,
  if◌then◌else◌, get_or, set, replicate, add_u32, ◌&&◌,
}
use Prim.Native.Nat.{min}
use mcsos.Sync.{SyncStatus, ok, einval, eperm, edeadlk, eoverflow}

abbrev pub max_held : ℕ
max_held = 16

-- A name is only stored: it is the address of its text, and 0 is the null pointer.
pub record LockdepState : Type 0 where
  pub held_class : List ℕ
  pub held_name : List ℕ
  pub depth : ℕ
  pub violation_count : ℕ

abbrev pub fresh : LockdepState
fresh = record {
  held_class = replicate max_held 0;
  held_name = replicate max_held 0;
  depth = 0;
  violation_count = 0;
}

unfoldable pub init : Option LockdepState → Option LockdepState
init none = none
init (some state) = some fresh

-- The loops over `held_class`, by the rounds left.
unfoldable pub holds : List ℕ → ℕ → ℕ → ℕ → Bool
holds classes zero i class_id = false
holds classes (suc n) i class_id = elim (get_or classes i 0 == class_id) [
  | true ↦ true
  | false ↦ holds classes n (i + 1) class_id
]

unfoldable pub is_held : Option LockdepState → ℕ → Bool
unfolding holds
is_held none class_id = false
is_held (some state) class_id =
    if class_id == 0 then false else holds state.held_class (min state.depth max_held) 0 class_id

abbrev pub violation : LockdepState → SyncStatus → Option LockdepState × SyncStatus
violation state status =
    (some (record state { violation_count = add_u32 state.violation_count 1 }), status)

unfoldable pub before_acquire : Option LockdepState → ℕ → ℕ → Option LockdepState × SyncStatus
before_acquire none class_id name = (none, einval)
before_acquire (some state) class_id name =
    if class_id == 0
    then (some state, einval)
    else if leb max_held state.depth
    then violation state eoverflow
    else if holds state.held_class state.depth 0 class_id
    then violation state edeadlk
    else if ltb 0 state.depth && ltb class_id (get_or state.held_class (state.depth - 1) 0)
    then violation state edeadlk
    else (
      some (record state {
        held_class = set state.held_class state.depth class_id;
        held_name = set state.held_name state.depth name;
        depth = add_u32 state.depth 1;
      }),
      ok,
    )

unfoldable pub after_release : Option LockdepState → ℕ → ℕ → Option LockdepState × SyncStatus
after_release none class_id name = (none, einval)
after_release (some state) class_id name =
    if class_id == 0
    then (some state, einval)
    else if state.depth == 0
    then violation state eperm
    else if get_or state.held_class (state.depth - 1) 0 != class_id
    then violation state edeadlk
    else (
      some (record state {
        held_class = set state.held_class (state.depth - 1) 0;
        held_name = set state.held_name (state.depth - 1) 0;
        depth = state.depth - 1;
      }),
      ok,
    )
