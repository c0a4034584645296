-- ===== src/Sync/Lockdep/Runs.antt =====
-- The calls of one thread on its checker, and why threads whose classes the checker admits never
-- wait in a cycle.
use mcsos.Common.{
  ℕ, zero, suc, ◌-◌, ◌≤◌, ◌<◌, ◌≡◌, ◌≢◌, refl, true, List, [], ◌∷◌, some, if◌then◌else◌, ◌==◌, inl,
  inr, ◌⊎◌, arith, get_or, set, get_or-set_self, get_or-set_ne, add_u32, subst, sym, ◌∙◌,
}
use mcsos.Sync.{SyncStatus, ok}
use mcsos.Sync.Lockdep.{LockdepState, fresh, init, max_held, before_acquire, after_release}
use mcsos.Sync.Lockdep.Held.{IsValid}
use mcsos.Sync.Lockdep.Order.{
  Below, acquired, acquired-IsValid, before_acquire-positive, before_acquire-room, admitted-Below,
  released, released-IsValid,
}

unfoldable pub erase : ℕ → List ℕ → List ℕ
erase c [] = []
erase c (x ∷ xs) = if x == c then xs else x ∷ erase c xs

-- The calls of a thread so far, from the initialisation of its checker: the classes that it holds
-- by then, newest first, and the state that the calls left. A class is taken when the checker
-- admits it and given back when the release is admitted; a refused call changes neither.
pub data Run : List ℕ → LockdepState → Type 0 where
  begin : {s : LockdepState} → (old : LockdepState) → init (some old) ≡ some s → Run [] s
  acquire :
      {cs : List ℕ} {s t : LockdepState}
      → Run cs s
      → (c name : ℕ) → before_acquire (some s) c name ≡ (some t, ok)
      → Run (c ∷ cs) t
  acquire_refused :
      {cs : List ℕ} {s t : LockdepState}
      → Run cs s
      → (c name : ℕ) (status : SyncStatus) → before_acquire (some s) c name ≡ (some t, status)
      → status ≢ ok
      → Run cs t
  release :
      {cs : List ℕ} {s t : LockdepState}
      → Run cs s
      → (c name : ℕ) → after_release (some s) c name ≡ (some t, ok)
      → Run (erase c cs) t
  release_refused :
      {cs : List ℕ} {s t : LockdepState}
      → Run cs s
      → (c name : ℕ) (status : SyncStatus) → after_release (some s) c name ≡ (some t, status)
      → status ≢ ok
      → Run cs t

abbrev pub Among : ℕ → List ℕ → Type 0
Among a [] = ⊥
Among a (x ∷ xs) = (x ≡ a) ⊎ Among a xs

-- The first slots hold the listed classes, the newest in the last of them.
abbrev pub Slots : List ℕ → ℕ → List ℕ → Type 0
Slots classes zero [] = Unit
Slots classes zero (c ∷ cs) = ⊥
Slots classes (suc n) [] = ⊥
Slots classes (suc n) (c ∷ cs) = (get_or classes n 0 ≡ c) × Slots classes n cs

Slots-set :
    (classes : List ℕ) (n m x : ℕ) (cs : List ℕ)
    → n ≤ m
    → Slots classes n cs
    → Slots (set classes m x) n cs
Slots-set classes zero m x [] le h = h
Slots-set classes zero m x (c ∷ cs) le h = h
Slots-set classes (suc n) m x [] le h = h
Slots-set classes (suc n) m x (c ∷ cs) le h = (
  get_or-set_ne classes m n x 0 (omega arith) ∙ h.0,
  Slots-set classes n m x cs (omega arith) h.1,
)

Slots-Among :
    (classes : List ℕ) (n a : ℕ) (cs : List ℕ)
    → Slots classes n cs
    → Among a cs
    → (i : ℕ) × (i < n) × (get_or classes i 0 ≡ a)
Slots-Among classes zero a [] h m = absurd m
Slots-Among classes zero a (c ∷ cs) h m = absurd h
Slots-Among classes (suc n) a [] h m = absurd h
Slots-Among classes (suc n) a (c ∷ cs) h (inl e) = (n, omega arith, h.0 ∙ e)
Slots-Among classes (suc n) a (c ∷ cs) h (inr m) =
    let (i, lt, e) = Slots-Among classes n a cs h.1 m in (i, omega arith, e)

-- The checker's record of the classes is right, and they grow.
record Tracks (cs : List ℕ) (s : LockdepState) : Type 0 where
  pub valid : IsValid s
  pub slots : Slots s.held_class s.depth cs

Tracks-counted :
    {cs : List ℕ} {s : LockdepState} (n : ℕ)
    → Tracks cs s
    → Tracks cs (record s { violation_count = n })
Tracks-counted n k = record {
  valid = record {
    room = k.valid.room;
    shallow = k.valid.shallow;
    growing = k.valid.growing;
    positive = k.valid.positive;
  };
  slots = k.slots;
}

Tracks-fresh : Tracks [] fresh
Tracks-fresh = record {
  valid = record {
    room = refl;
    shallow = omega arith;
    growing = λ i j lt h. absurd (omega arith);
    positive = λ i h. absurd (omega arith);
  };
  slots = tt;
}

Tracks-begin : {s : LockdepState} (old : LockdepState) → init (some old) ≡ some s → Tracks [] s
unfolding init
Tracks-begin {s} old e =
    let q : fresh ≡ s = ground arith in subst (λ (x : LockdepState). Tracks [] x) q Tracks-fresh

admitted-acquired :
    (s t : LockdepState) (c name : ℕ)
    → before_acquire (some s) c name ≡ (some t, ok)
    → t ≡ acquired s c name
unfolding before_acquire
admitted-acquired s t c name e = ground arith

admitted-released :
    (s t : LockdepState) (c name : ℕ)
    → after_release (some s) c name ≡ (some t, ok)
    → (t ≡ released s) × (0 < s.depth) × (get_or s.held_class (s.depth - 1) 0 ≡ c)
unfolding after_release
admitted-released s t c name e = (ground arith, ground arith, ground arith)

before_acquire-refused :
    (s t : LockdepState) (c name : ℕ) (status : SyncStatus)
    → before_acquire (some s) c name ≡ (some t, status)
    → status ≢ ok
    → t ≡ record s { violation_count = t.violation_count }
unfolding before_acquire
before_acquire-refused s t c name status e ne = ground arith

after_release-refused :
    (s t : LockdepState) (c name : ℕ) (status : SyncStatus)
    → after_release (some s) c name ≡ (some t, status)
    → status ≢ ok
    → t ≡ record s { violation_count = t.violation_count }
unfolding after_release
after_release-refused s t c name status e ne = ground arith

Tracks-refused :
    {cs : List ℕ} {s t : LockdepState}
    → t ≡ record s { violation_count = t.violation_count }
    → Tracks cs s
    → Tracks cs t
Tracks-refused {cs} {s} {t} e k =
    subst (λ (x : LockdepState). Tracks cs x) (sym e) (Tracks-counted t.violation_count k)

Tracks-acquired :
    {cs : List ℕ} {s : LockdepState} (c name : ℕ)
    → Tracks cs s
    → 0 < c
    → s.depth < max_held
    → Below s c
    → Tracks (c ∷ cs) (acquired s c name)
Tracks-acquired {cs} {s} c name k hc room below =
    let e : add_u32 s.depth 1 ≡ suc s.depth = omega arith in
    record {
      valid = acquired-IsValid c name k.valid hc room below;
      slots =
          subst (λ (d : ℕ). Slots (set s.held_class s.depth c) d (c ∷ cs)) (sym e)
            (
              get_or-set_self s.held_class s.depth c 0 (omega (arith, k.valid.room, room)),
              Slots-set s.held_class s.depth s.depth c cs (omega arith) k.slots,
            );
    }

-- Giving back the newest class leaves the rest.
Slots-erase :
    (classes : List ℕ) (d c : ℕ) (cs : List ℕ)
    → get_or classes d 0 ≡ c
    → Slots classes (suc d) cs
    → Slots (set classes d 0) d (erase c cs)
unfolding erase
Slots-erase classes d c [] top h = absurd h
Slots-erase classes d c (x ∷ cs) top h =
    let same : (x == c) ≡ true = ground (arith, h.0) in
    let rest : erase c (x ∷ cs) ≡ cs = rw same refl in
    subst (λ (ys : List ℕ). Slots (set classes d 0) d ys) (sym rest)
      (Slots-set classes d d 0 cs (omega arith) h.1)

Run-Tracks : {cs : List ℕ} {s : LockdepState} → Run cs s → Tracks cs s
Run-Tracks (begin old e) = Tracks-begin old e
Run-Tracks (acquire {cs} {s} {t} r c name e) =
    let k = Run-Tracks r in
    subst (λ (x : LockdepState). Tracks (c ∷ cs) x) (sym (admitted-acquired s t c name e))
      (Tracks-acquired c name k (before_acquire-positive s t c name e)
        (before_acquire-room s t c name e) (admitted-Below c name k.valid e))
Run-Tracks (acquire_refused {cs} {s} {t} r c name status e ne) =
    Tracks-refused (before_acquire-refused s t c name status e ne) (Run-Tracks r)
Run-Tracks (release {cs} {s} {t} r c name e) =
    let k = Run-Tracks r in
    let a = admitted-released s t c name e in
    let deep : s.depth ≡ suc (s.depth - 1) = omega (arith, a.1) in
    let slots = subst (λ (n : ℕ). Slots s.held_class n cs) deep k.slots in
    subst (λ (x : LockdepState). Tracks (erase c cs) x) (sym a.0)
      (record {
        valid = released-IsValid k.valid a.1;
        slots = Slots-erase s.held_class (s.depth - 1) c cs a.2 slots;
      })
Run-Tracks (release_refused {cs} {s} {t} r c name status e ne) =
    Tracks-refused (after_release-refused s t c name status e ne) (Run-Tracks r)

-- A thread that took class `a` and still has it was allowed to wait for a lock of class `b`.
pub record Waits (a b : ℕ) : Type 0 where
  pub taken : List ℕ
  pub before : LockdepState
  pub after : LockdepState
  pub name : ℕ
  pub calls : Run taken before
  pub holding : Among a taken
  pub allowed : before_acquire (some before) b name ≡ (some after, ok)

-- Each of a row of threads waits for a lock whose class the next one holds.
pub data Chain (a : ℕ) : ℕ → Type 0 where
  wait : {b : ℕ} → Waits a b → Chain a b
  follow : {b c : ℕ} → Chain a b → Waits b c → Chain a c

Waits-lt : {a b : ℕ} → Waits a b → a < b
Waits-lt {a} {b} w =
    let k = Run-Tracks w.calls in
    let (i, lt, e) = Slots-Among w.before.held_class w.before.depth a w.taken k.slots w.holding in
    omega (arith, e, admitted-Below b w.name k.valid w.allowed i lt)

Chain-lt : {a b : ℕ} → Chain a b → a < b
Chain-lt (wait w) = Waits-lt w
Chain-lt (follow c w) = omega (arith, Chain-lt c, Waits-lt w)

-- No cycle of waiting threads arises: let each thread call its checker around every lock, from its
-- initialisation on, and take a class only when the checker admits it. Then a row of threads, each
-- admitted to wait for a class that the next one has taken and not given back, never comes back to
-- its first class.
pub before_acquire-acyclic : (a : ℕ) → ¬ Chain a a
before_acquire-acyclic a c = omega (arith, Chain-lt c)
