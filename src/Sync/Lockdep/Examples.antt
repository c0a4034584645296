-- ===== src/Sync/Lockdep/Examples.antt =====
-- A thread that takes classes 3 and 7: the checker's theorems at concrete states.
use mcsos.Common.{inl, [], ◌≡◌, refl, ◌∷◌, some, replicate}
use mcsos.Sync.{ok}
use mcsos.Sync.Lockdep.{LockdepState, fresh, init, before_acquire, holds}
use mcsos.Sync.Lockdep.Runs.{begin, acquire, Chain, wait, before_acquire-acyclic}

abbrev one_held : LockdepState
one_held = record {
  held_class = 3 ∷ replicate 15 0;
  held_name = 100 ∷ replicate 15 0;
  depth = 1;
  violation_count = 0;
}

takes_first : before_acquire (some fresh) 3 100 ≡ (some one_held, ok)
unfolding before_acquire holds
takes_first = refl

-- Waiting in order is possible, so the theorem on cycles is not about nothing.
in_order : Chain 3 7
unfolding init before_acquire holds
in_order = wait (record {
  taken = 3 ∷ [];
  before = one_held;
  after = record one_held {
    held_class = 3 ∷ 7 ∷ replicate 14 0;
    held_name = 100 ∷ 200 ∷ replicate 14 0;
    depth = 2;
  };
  name = 200;
  calls = acquire (begin one_held refl) 3 100 refl;
  holding = inl refl;
  allowed = refl;
})

before_acquire-acyclic_example : ¬ Chain 3 3
before_acquire-acyclic_example = before_acquire-acyclic 3
