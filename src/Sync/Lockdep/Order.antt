-- ===== src/Sync/Lockdep/Order.antt =====
-- What the checker admits and what it refuses.

use mcsos.Common.{
  ℕ, suc, ◌-◌, ◌≤◌, ◌<◌, ◌≡◌, ◌≢◌, refl, [], ◌∷◌, ◌++◌, inl, inr, arith, if◌then◌else◌, Bool-cases,
  some, ◌==◌, ◌⊎◌, get_or, set, length-set, get_or-set_self, get_or-set_ne, ◌∙◌, dec_lt, add_u32,
}
use mcsos.Sync.{ok, eperm, edeadlk, eoverflow}
use mcsos.Sync.Lockdep.{LockdepState, max_held, holds, before_acquire, after_release, violation}
use mcsos.Sync.Lockdep.Held.{IsValid, held, prefix-set_above, holds-false, holds_none}

-- Every class held is below `c`.
abbrev pub Below : LockdepState → ℕ → Type 0
Below s c = (i : ℕ) → i < s.depth → get_or s.held_class i 0 < c

abbrev pub acquired : LockdepState → ℕ → ℕ → LockdepState
acquired s c name = record s {
  held_class = set s.held_class s.depth c;
  held_name = set s.held_name s.depth name;
  depth = add_u32 s.depth 1;
}

pub acquired-IsValid :
    {s : LockdepState} (c name : ℕ)
    → IsValid s
    → 0 < c
    → s.depth < max_held
    → Below s c
    → IsValid (acquired s c name)
acquired-IsValid {s} c name v hc room below = record {
  room = length-set s.held_class s.depth c ∙ v.room;
  shallow = omega (arith, v);
  growing = λ i j lt h. ground (arith, slot i, slot j, below i, v.growing i j);
  positive = λ i h. ground (arith, slot i, v.positive i);
}
  where
    slot :
        (i : ℕ)
        → i < add_u32 s.depth 1
        → get_or (set s.held_class s.depth c) i 0
          ≡ (if s.depth == i then c else get_or s.held_class i 0)
    slot i h = ground (
      arith,
      v,
      get_or-set_self s.held_class s.depth c 0,
      get_or-set_ne s.held_class s.depth i c 0,
    )

held-acquired :
    {s : LockdepState} (c name : ℕ)
    → IsValid s
    → s.depth < max_held
    → held (acquired s c name) ≡ held s ++ (c ∷ [])
held-acquired {s} c name v room =
    let e : add_u32 s.depth 1 ≡ suc s.depth = omega arith in
    rw (
      e,
      prefix-set_above s.held_class s.depth s.depth c (omega arith),
      get_or-set_self s.held_class s.depth c 0 (omega (arith, v)),
    )

-- On a valid state, a class above every class held is admitted while there is room: it goes on top of the stack, and
-- no violation is counted.
before_acquire-admits :
    {s : LockdepState} (c name : ℕ)
    → IsValid s
    → 0 < c
    → s.depth < max_held
    → Below s c
    → (t : LockdepState) × (before_acquire (some s) c name ≡ (some t, ok))
      × IsValid t
      × (held t ≡ held s ++ (c ∷ []))
      × (t.violation_count ≡ s.violation_count)
unfolding before_acquire
before_acquire-admits {s} c name v hc room below = (
  acquired s c name,
  ground (
    arith,
    holds_none s.held_class s.depth 0 c (λ j le lt. ground (arith, below j)),
    below (s.depth - 1),
  ),
  acquired-IsValid c name v hc room below,
  held-acquired c name v room,
  refl,
)

pub before_acquire-positive :
    (s t : LockdepState) (c name : ℕ) → before_acquire (some s) c name ≡ (some t, ok) → 0 < c
unfolding before_acquire
before_acquire-positive s t c name e = ground arith

pub before_acquire-room :
    (s t : LockdepState) (c name : ℕ)
    → before_acquire (some s) c name ≡ (some t, ok)
    → s.depth < max_held
unfolding before_acquire
before_acquire-room s t c name e = ground arith

-- On a valid state with room, a class other than 0 that is not above every class held is refused as a possible deadlock: the stack stays as
-- it is, and one more violation is counted.
before_acquire-refuses :
    {s : LockdepState} (c name i : ℕ)
    → IsValid s
    → 0 < c
    → s.depth < max_held
    → i < s.depth
    → c ≤ get_or s.held_class i 0
    → before_acquire (some s) c name ≡ violation s edeadlk
unfolding before_acquire
before_acquire-refuses {s} c name i v hc room hi le =
    elim (Bool-cases (holds s.held_class s.depth 0 c)) [
      | inl e ↦ ground arith
      | inr e ↦
          let apart : get_or s.held_class i 0 ≢ c =
            holds-false s.held_class s.depth 0 c e i (omega arith) (omega arith) in
          let below_top : get_or s.held_class i 0 ≤ get_or s.held_class (s.depth - 1) 0 =
            ground (arith, v.growing i (s.depth - 1)) in
          ground arith
    ]

-- With every slot taken any class is refused, and the violation is counted.
pub before_acquire-full :
    (s : LockdepState) (c name : ℕ)
    → 0 < c
    → max_held ≤ s.depth
    → before_acquire (some s) c name ≡ violation s eoverflow
unfolding before_acquire
before_acquire-full s c name hc h = ground arith

-- What an admitted class was above of.
pub admitted-Below :
    {s t : LockdepState} (c name : ℕ)
    → IsValid s
    → before_acquire (some s) c name ≡ (some t, ok)
    → Below s c
admitted-Below {s} {t} c name v e i hi = elim (dec_lt (get_or s.held_class i 0) c) [
  | yes p ↦ p
  | no p ↦ absurd (clash (before_acquire-refuses c name i v positive room hi (omega arith)))
]
  where
    positive : 0 < c
    positive = before_acquire-positive s t c name e

    room : s.depth < max_held
    room = before_acquire-room s t c name e

    clash : before_acquire (some s) c name ≡ violation s edeadlk → ⊥
    clash q = cc

abbrev pub released : LockdepState → LockdepState
released s = record s {
  held_class = set s.held_class (s.depth - 1) 0;
  held_name = set s.held_name (s.depth - 1) 0;
  depth = s.depth - 1;
}

pub released-IsValid : {s : LockdepState} → IsValid s → 0 < s.depth → IsValid (released s)
released-IsValid {s} v hd = record {
  room = length-set s.held_class (s.depth - 1) 0 ∙ v.room;
  shallow = omega (arith, v);
  growing = λ i j lt h. ground (arith, slot i, slot j, v.growing i j);
  positive = λ i h. ground (arith, slot i, v.positive i);
}
  where
    slot :
        (i : ℕ)
        → i < s.depth - 1
        → get_or (set s.held_class (s.depth - 1) 0) i 0 ≡ get_or s.held_class i 0
    slot i h = get_or-set_ne s.held_class (s.depth - 1) i 0 0 (omega arith)

held-released :
    (s : LockdepState) (d : ℕ)
    → s.depth ≡ suc d
    → held s ≡ held (released s) ++ (get_or s.held_class (s.depth - 1) 0 ∷ [])
held-released s d e =
    let e1 : s.depth - 1 ≡ d = omega arith in
    rw (e1, e, prefix-set_above s.held_class d d 0 (omega arith))

-- On a valid state that holds a class, releasing the class on top of the stack succeeds and takes it off; no violation is counted.
after_release-admits :
    {s : LockdepState} (c name : ℕ)
    → IsValid s
    → 0 < s.depth
    → get_or s.held_class (s.depth - 1) 0 ≡ c
    → (t : LockdepState) × (after_release (some s) c name ≡ (some t, ok))
      × IsValid t
      × (held s ≡ held t ++ (c ∷ []))
      × (t.violation_count ≡ s.violation_count)
unfolding after_release
after_release-admits {s} c name v hd top = (
  released s,
  ground (arith, v.positive (s.depth - 1)),
  released-IsValid v hd,
  rw (← top) (held-released s (s.depth - 1) (omega arith)),
  refl,
)

-- Releasing any other class is refused, the stack stays as it is, and the violation is counted:
-- as a missing permission if nothing is held, as a possible deadlock otherwise.
pub after_release-refuses :
    (s : LockdepState) (c name : ℕ)
    → 0 < c
    → (s.depth ≡ 0) ⊎ (get_or s.held_class (s.depth - 1) 0 ≢ c)
    → after_release (some s) c name ≡ violation s (if s.depth == 0 then eperm else edeadlk)
unfolding after_release
after_release-refuses s c name hc h = ground arith
