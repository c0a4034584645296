-- ===== src/Sync/Spinlock/Exclusion.antt =====
-- Mutual exclusion of the spin lock, and that a waiting thread takes it once it is free.
use mcsos.Common.{
  ℕ, ◌≡◌, ◌≢◌, refl, Bool, true, false, false≢true, inl, inr, arith, if◌then◌else◌, ◌==◌, ◌⊎◌, some,
  ap,
}
use mcsos.Sync.Spinlock.{
  Spinlock, spin_init, spin_try_lock, spin_unlock, spin_is_locked, Pc, outside, trying, waiting,
  inside, System, move, at_exchange, after_failure, Step, call_lock, exchange, load, release, start,
  Reach, begin, then_step, Alone, stay, go_on,
}

abbrev pub holding : Pc → Bool
holding inside = true
holding _ = false

pub record Inv (s : System) : Type 0 where
  pub unique : (i j : ℕ) → holding (s.pc i) ≡ true → holding (s.pc j) ≡ true → i ≡ j
  pub locked : (i : ℕ) → holding (s.pc i) ≡ true → s.lock.locked ≢ 0
  pub held : s.lock.locked ≢ 0 → (i : ℕ) × (holding (s.pc i) ≡ true)

-- What the exchange answers.
try_lock-cases :
    (l l' : Spinlock) (won : Bool)
    → spin_try_lock (some l) ≡ (some l', won)
    → (l'.locked ≡ 1) × (won ≡ (l.locked == 0))
unfolding spin_try_lock
try_lock-cases l l' won e = ground arith

unlock-cases : (l l' : Spinlock) → spin_unlock (some l) ≡ some l' → l'.locked ≡ 0
unfolding spin_unlock
unlock-cases l l' e = ground arith

Inv-start : (c n : ℕ) (old l : Spinlock) → spin_init (some old) c n ≡ some l → Inv (start l)
unfolding spin_init
Inv-start c n old l e = record {
  unique = λ i j h k. absurd (false≢true h);
  locked = λ i h. absurd (false≢true h);
  held = λ ne. absurd (ne (ground arith));
}

-- A move between two places that do not hold the lock changes nothing of the invariant.
Inv-elsewhere :
    {s : System} (i : ℕ) (p : Pc)
    → Inv s
    → holding (s.pc i) ≡ false
    → holding p ≡ false
    → Inv (record { lock = s.lock; pc = move s.pc i p })
Inv-elsewhere {s} i p v e f = record {
  unique = λ j k h g. ground (arith, v.unique j k);
  locked = λ j h. ground (arith, v.locked j);
  held = λ ne. let (j, h) = v.held ne in (j, ground arith);
}

Inv-won :
    {s : System} (i : ℕ) (l : Spinlock)
    → Inv s
    → s.lock.locked ≡ 0
    → l.locked ≡ 1
    → Inv (record { lock = l; pc = move s.pc i inside })
Inv-won {s} i l v free one = record {
  unique = λ j k h g. ground (arith, v.locked j, v.locked k);
  locked = λ j h. omega arith;
  held = λ ne. (i, ground arith);
}

Inv-lost :
    {s : System} (i : ℕ) (p : Pc) (l : Spinlock)
    → Inv s
    → s.lock.locked ≢ 0
    → l.locked ≡ 1
    → holding (s.pc i) ≡ false
    → holding p ≡ false
    → Inv (record { lock = l; pc = move s.pc i p })
Inv-lost {s} i p l v busy one e f = record {
  unique = λ j k h g. ground (arith, v.unique j k);
  locked = λ j h. omega arith;
  held = λ ne. let (j, h) = v.held busy in (j, ground arith);
}

Inv-released :
    {s : System} (i : ℕ) (l : Spinlock)
    → Inv s
    → s.pc i ≡ inside
    → l.locked ≡ 0
    → Inv (record { lock = l; pc = move s.pc i outside })
Inv-released {s} i l v e free = record {
  unique = λ j k h g. ground (arith, v.unique j k);
  locked = λ j h. ground (arith, v.unique i j);
  held = λ ne. absurd (ne free);
}

quiet_before :
    (p : Pc) → at_exchange p ≡ true → (holding p ≡ false) × (holding (after_failure p) ≡ false)
quiet_before p h = ground arith

after_exchange :
    {s : System} (i : ℕ) (l : Spinlock) (won : Bool)
    → Inv s
    → at_exchange (s.pc i) ≡ true
    → l.locked ≡ 1
    → won ≡ (s.lock.locked == 0)
    → Inv (record { lock = l; pc = move s.pc i (if won then inside else after_failure (s.pc i)) })
after_exchange i l true v h one e = Inv-won i l v (ground arith) one
after_exchange {s} i l false v h one e =
    let (quiet, later) = quiet_before (s.pc i) h in
    Inv-lost i (after_failure (s.pc i)) l v (ground arith) one quiet later

Step-Inv : {s : System} {i : ℕ} {t : System} → Step s i t → Inv s → Inv t
Step-Inv (call_lock i e) v = Inv-elsewhere i trying v (ground arith) refl
Step-Inv {s} (exchange i l won h e) v =
    let (one, said) = try_lock-cases s.lock l won e in after_exchange i l won v h one said
Step-Inv {s} (load i e) v = Inv-elsewhere i _ v (ground arith) (ground arith)
Step-Inv {s} (release i l e o) v = Inv-released i l v e (unlock-cases s.lock l o)

Reach-Inv : {c n : ℕ} {s : System} → Reach c n s → Inv s
Reach-Inv {c} {n} (begin old l e) = Inv-start c n old l e
Reach-Inv (then_step r st) = Step-Inv st (Reach-Inv r)

-- In every state that threads reach which release the lock only while they hold it, at most one
-- thread holds it, and `mcs_spin_is_locked` is true exactly when one does.
pub spin_mutual_exclusion :
    {c n : ℕ} {s : System}
    → Reach c n s
    → ((i j : ℕ) → s.pc i ≡ inside → s.pc j ≡ inside → i ≡ j)
      × ((i : ℕ) → s.pc i ≡ inside → spin_is_locked (some s.lock) ≡ true)
      × (spin_is_locked (some s.lock) ≡ true → (i : ℕ) × (s.pc i ≡ inside))
unfolding spin_is_locked
spin_mutual_exclusion {s = s} r =
    let v = Reach-Inv r in
    (
      λ i j p q. v.unique i j (ap holding p) (ap holding q),
      λ i p. ground (arith, v.locked i),
      λ l. let (i, h) = v.held (ground arith) in (i, ground arith),
    )

Alone-Reach : {c n i : ℕ} {s t : System} → Reach c n s → Alone i s t → Reach c n t
Alone-Reach r stay = r
Alone-Reach r (go_on a st) = then_step (Alone-Reach r a) st

-- The exchange of a thread that finds the lock free, behind a row of its own steps.
takes :
    {s m : System} (i : ℕ)
    → Alone i s m
    → m.pc i ≡ trying
    → ((j : ℕ) → j ≢ i → m.pc j ≡ s.pc j)
    → spin_is_locked (some m.lock) ≡ false
    → (t : System) × Alone i s t
      × (t.pc i ≡ inside)
      × ((j : ℕ) → j ≢ i → t.pc j ≡ s.pc j)
      × (spin_is_locked (some t.lock) ≡ true)
unfolding spin_is_locked spin_try_lock
takes {s = s} {m = m} i a e others free = (
  record { lock = record m.lock { locked = 1 }; pc = move m.pc i inside },
  go_on a (exchange i (record m.lock { locked = 1 }) true (ground arith) (ground arith)),
  ground arith,
  λ j ne. ground (arith, others j ne),
  refl,
)

-- From a reachable state s in which the lock is free, a thread in `mcs_spin_lock`, at the wait or
-- at the exchange, comes by steps of its own, while no other thread runs, to a reachable state t in
-- which it holds the lock, every other thread stands where it stood in s, and
-- `mcs_spin_is_locked` is true.
pub spin_lock-progress :
    {c n : ℕ} {s : System}
    → Reach c n s
    → (i : ℕ) → (s.pc i ≡ waiting) ⊎ (s.pc i ≡ trying)
    → spin_is_locked (some s.lock) ≡ false
    → (t : System) × Alone i s t
      × Reach c n t
      × (t.pc i ≡ inside)
      × ((j : ℕ) → j ≢ i → t.pc j ≡ s.pc j)
      × (spin_is_locked (some t.lock) ≡ true)
unfolding spin_is_locked
spin_lock-progress {s = s} r i at free =
    let (t, a, won, others, locked) = ready i at free in
    (t, a, Alone-Reach r a, won, others, locked)
  where
    ready :
        (k : ℕ)
        → (s.pc k ≡ waiting) ⊎ (s.pc k ≡ trying)
        → spin_is_locked (some s.lock) ≡ false
        → (t : System) × Alone k s t
          × (t.pc k ≡ inside)
          × ((j : ℕ) → j ≢ k → t.pc j ≡ s.pc j)
          × (spin_is_locked (some t.lock) ≡ true)
    ready k (inl e) f = takes k (go_on stay (load k e)) (ground (arith, f)) (λ j ne. ground arith) f
    ready k (inr e) f = takes k stay e (λ j ne. refl) f
