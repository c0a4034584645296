-- ===== src/Sched/RoundRobin.antt =====
-- `mcsos_sched_yield`: the thread at the head of the queue runs next, and the one that ran goes to its
-- end, unless it is the idle thread or no longer runs.
use mcsos.Common.{
  ℕ, ◌+◌, ◌^◌, ◌<◌, ◌≡◌, ◌≢◌, refl, true, false, false≢true, List, [], ◌∷◌, ◌++◌, Option, none,
  some, arith, length, add_u64, ◌∙◌, sym, ap, inl, ◌⊎◌, ne→==, subst,
}
use mcsos.Sched.Thread.{
  ThreadState, ready, running, blocked, ok, World, thread_magic, valid_thread_object,
}
use mcsos.Sched.Ready.{append_ready, enqueue, pick_next}
use mcsos.Sched.Switch.{
  is_running, same_pointer, put_state, switch_to, after_requeue, yield_to, yield_picked, yield,
  block_current,
}
use mcsos.Sched.Queue.{contains, IsQueue, IsQueue-agree, contains-append, contains-cons}
use mcsos.Sched.Fifo.{enqueue-IsQueue, pick_next-IsQueue, pick_next-idle}

member-ne : (xs : List ℕ) (p x : ℕ) → contains xs p ≡ true → contains xs x ≡ false → x ≢ p
member-ne xs p x m n e = false≢true (sym n ∙ ap (contains xs) e ∙ m)

switch_to-IsQueue :
    {v : World} {ys : List ℕ} (c x : ℕ)
    → IsQueue v ys
    → contains ys x ≡ false
    → IsQueue (switch_to v c x) ys
unfolding switch_to
switch_to-IsQueue {v} {ys} c x q m =
    IsQueue-agree q refl refl refl (λ p h. ground (arith, member-ne ys p x h m))

switch_to-current :
    (v : World) (c x : ℕ)
    → x ≢ c
    → ((switch_to v c x).sched.current ≡ some x)
      × (((switch_to v c x).threads x).state ≡ running)
      × (((switch_to v c x).threads c).state ≡ (v.threads c).state)
      × ((switch_to v c x).sched.context_switches ≡ add_u64 v.sched.context_switches 1)
unfolding switch_to
switch_to-current v c x ne = ground arith

-- The result of a switch from `c` to `x`, with `ys` in the queue and `c` left in state `s`.
pub record Switched (c x : ℕ) (s : ThreadState) (ys : List ℕ) (v : World) : Type 0 where
  pub queue : IsQueue v ys
  pub current : v.sched.current ≡ some x
  pub runs : (v.threads x).state ≡ running
  pub left : (v.threads c).state ≡ s

yield_to-stays :
    (v : World) (c x : ℕ)
    → x ≢ c
    → (is_running (v.threads c).state ≡ false) ⊎ (v.sched.idle ≡ some c)
    → yield_to v c x ≡ (some (switch_to v c x), ok)
unfolding yield_to
yield_to-stays v c x ne h = ground arith

same_pointer-ne : (c : ℕ) (o : Option ℕ) → o ≢ some c → same_pointer (some c) o ≡ false
same_pointer-ne c none h = refl
same_pointer-ne c (some q) h = ground (arith, h)

abbrev made_ready : World → ℕ → World
made_ready v c = record { threads = put_state v.threads c ready; sched = v.sched }

yield_to-requeues :
    (v u : World) (c x : ℕ)
    → x ≢ c
    → (v.threads c).state ≡ running
    → v.sched.idle ≢ some c
    → enqueue (some (made_ready v c)) (some c) ≡ (some u, ok)
    → yield_to v c x ≡ (some (switch_to u c x), ok)
unfolding yield_to after_requeue
yield_to-requeues v u c x ne run idle e =
    rw (ne→== x c ne, ap is_running run, same_pointer-ne c v.sched.idle idle, e)

-- A thread that was queued is ready.
enqueued-ready :
    (w u : World) (p : ℕ) → enqueue (some w) (some p) ≡ (some u, ok) → (u.threads p).state ≡ ready
unfolding enqueue append_ready
enqueued-ready w u p e = ground arith

module _ {v : World} {xs : List ℕ} (c x : ℕ) (q : IsQueue v xs) (hi : v.sched.initialized ≡ true)
    (ec : (v.threads c).magic ≡ thread_magic) (mc : contains xs c ≡ false)
    (mx : contains xs x ≡ false) (ne : x ≢ c) where
  -- A thread that runs on, and is not the idle thread, goes to the end of the queue.
  requeued :
      (v.threads c).state ≡ running
      → v.sched.idle ≢ some c
      → length xs + 1 < 2 ^ 63
      → (u : World) × (yield_to v c x ≡ (some u, ok)) × Switched c x ready (xs ++ (c ∷ [])) u
  requeued run idle room =
      let ready_queue : IsQueue (made_ready v c) xs =
        IsQueue-agree q refl refl refl (λ p h. ground (arith, member-ne xs p c h mc)) in
      let (u, e, uq, cur, idl, others) =
        enqueue-IsQueue c ready_queue hi (ground arith) (ground arith) mc room in
      let sw = switch_to-current u c x ne in
      (
        switch_to u c x,
        yield_to-requeues v u c x ne run idle e,
        record {
          queue = switch_to-IsQueue c x uq (ground (arith, contains-append xs c x));
          current = sw.0;
          runs = sw.1;
          left = sw.2 ∙ enqueued-ready (made_ready v c) u c e;
        },
      )

  -- Any other thread is left where it is.
  not_requeued :
      (is_running (v.threads c).state ≡ false) ⊎ (v.sched.idle ≡ some c)
      → (u : World) × (yield_to v c x ≡ (some u, ok)) × Switched c x (v.threads c).state xs u
  not_requeued h =
      let sw = switch_to-current v c x ne in
      (
        switch_to v c x,
        yield_to-stays v c x ne h,
        record { queue = switch_to-IsQueue c x q mx; current = sw.0; runs = sw.1; left = sw.2 },
      )

-- The thread that runs next and the queue that it leaves: the head of the queue, or the idle thread
-- if the queue is empty.
pub data Next (w : World) (xs : List ℕ) (x : ℕ) (rest : List ℕ) : Type 0 where
  from_queue : xs ≡ x ∷ rest → Next w xs x rest
  from_idle :
      xs ≡ []
      → rest ≡ []
      → w.sched.idle ≡ some x
      → (w.threads x).magic ≡ thread_magic
      → Next w xs x rest

-- The world between the pick and the switch.
record Picked (w : World) (x : ℕ) (rest : List ℕ) (v : World) : Type 0 where
  picks : pick_next (some w) ≡ (some v, some x)
  queue : IsQueue v rest
  idle : v.sched.idle ≡ w.sched.idle
  initialized : v.sched.initialized ≡ true
  others :
      (y : ℕ)
      → ((v.threads y).magic ≡ (w.threads y).magic) × ((v.threads y).state ≡ (w.threads y).state)
  valid : (v.threads x).magic ≡ thread_magic
  gone : contains rest x ≡ false

Picked-queue :
    (w : World) (x : ℕ) (rest : List ℕ)
    → IsQueue w (x ∷ rest)
    → w.sched.initialized ≡ true
    → (v : World) × Picked w x rest v
Picked-queue w x rest q hi =
    let (v, e, vq, threads, cur, idl, init) = pick_next-IsQueue q hi in
    let same : (y : ℕ)
        → ((v.threads y).magic ≡ (w.threads y).magic)
          × ((v.threads y).state ≡ (w.threads y).state) =
      λ y. rw threads (ground arith) in
    (
      v,
      record {
        picks = e;
        queue = vq;
        idle = idl;
        initialized = init;
        others = same;
        valid = (same x).0 ∙ q.all_ready.0;
        gone = q.distinct.0;
      },
    )

Picked-Next :
    (w : World) (xs : List ℕ) (x : ℕ) (rest : List ℕ)
    → IsQueue w xs
    → w.sched.initialized ≡ true
    → Next w xs x rest
    → (v : World) × Picked w x rest v
Picked-Next w xs x rest q hi (from_queue e) = Picked-queue w x rest (subst (IsQueue w) e q) hi
Picked-Next w xs x rest q hi (from_idle e f idle m) =
    let empty : IsQueue w [] = subst (IsQueue w) e q in
    (
      w,
      record {
        picks = pick_next-idle empty hi ∙ ap (λ o. (some w, o)) idle;
        queue = subst (IsQueue w) (sym f) empty;
        idle = refl;
        initialized = hi;
        others = λ y. (refl, refl);
        valid = m;
        gone = ap (λ r. contains r x) f;
      },
    )

rest-excludes :
    {w : World} (xs : List ℕ) (x : ℕ) (rest : List ℕ) (c : ℕ)
    → Next w xs x rest
    → contains xs c ≡ false
    → contains rest c ≡ false
rest-excludes xs x rest c (from_queue e) m =
    (contains-cons x rest c (sym (ap (λ l. contains l c) e) ∙ m)).1
rest-excludes xs x rest c (from_idle e f i h) m = ap (λ l. contains l c) f

yield-picks :
    (w : World) (c : ℕ)
    → w.sched.initialized ≡ true
    → w.sched.current ≡ some c
    → (w.threads c).magic ≡ thread_magic
    → yield (some w) ≡ yield_picked c (pick_next (some w)).0 (pick_next (some w)).1
unfolding yield valid_thread_object
yield-picks w c hi hc mc = ground arith

yield_picked-valid :
    (v : World) (c x : ℕ)
    → (v.threads x).magic ≡ thread_magic
    → yield_picked c (some v) (some x) ≡ yield_to v c x
unfolding yield_picked valid_thread_object
yield_picked-valid v c x m = ground arith

yield-picked :
    (w v : World) (c x : ℕ)
    → w.sched.initialized ≡ true
    → w.sched.current ≡ some c
    → (w.threads c).magic ≡ thread_magic
    → pick_next (some w) ≡ (some v, some x)
    → (v.threads x).magic ≡ thread_magic
    → yield (some w) ≡ yield_to v c x
yield-picked w v c x hi hc mc e mx = yield-picks w c hi hc mc ∙ rw e (yield_picked-valid v c x mx)

module _ {w : World} {xs : List ℕ} (c x : ℕ) (rest : List ℕ) (q : IsQueue w xs)
    (hi : w.sched.initialized ≡ true) (hc : w.sched.current ≡ some c)
    (mc : (w.threads c).magic ≡ thread_magic) (out : contains xs c ≡ false) (nx : Next w xs x rest)
    (ne : x ≢ c) where
  -- On an initialised scheduler with a valid queue that has room, if the current thread is valid,
  -- runs, is not queued and is not the idle thread, and the next thread is another one, a yield
  -- succeeds: the next thread becomes the current one and runs, the old one is ready and goes
  -- behind all the others, which keep their order. The next thread is the head of the queue, or
  -- the idle thread if the queue is empty.
  pub yield-round_robin :
      (w.threads c).state ≡ running
      → w.sched.idle ≢ some c
      → length rest + 1 < 2 ^ 63
      → (u : World) × (yield (some w) ≡ (some u, ok)) × Switched c x ready (rest ++ (c ∷ [])) u
  yield-round_robin run idle room =
      let (v, p) = Picked-Next w xs x rest q hi nx in
      let (u, e, s) =
        requeued c x p.queue p.initialized ((p.others c).0 ∙ mc) (rest-excludes xs x rest c nx out)
          p.gone ne ((p.others c).1 ∙ run) (λ h. idle (sym p.idle ∙ h)) room in
      (
        u,
        yield-picked w v c x hi hc mc p.picks p.valid ∙ e,
        record { queue = s.queue; current = s.current; runs = s.runs; left = s.left },
      )

  -- On a valid queue, if the current thread is the idle thread or does not run any more, a yield to
  -- another thread succeeds and leaves the old thread out of the queue, in the state that it had.
  pub yield-not_requeued :
      (is_running (w.threads c).state ≡ false) ⊎ (w.sched.idle ≡ some c)
      → (u : World) × (yield (some w) ≡ (some u, ok)) × Switched c x (w.threads c).state rest u
  yield-not_requeued h =
      let (v, p) = Picked-Next w xs x rest q hi nx in
      let (u, e, s) =
        not_requeued c x p.queue p.initialized ((p.others c).0 ∙ mc)
          (rest-excludes xs x rest c nx out) p.gone ne (ground (arith, p.others c, p.idle)) in
      (
        u,
        yield-picked w v c x hi hc mc p.picks p.valid ∙ e,
        record {
          queue = s.queue;
          current = s.current;
          runs = s.runs;
          left = s.left ∙ (p.others c).1;
        },
      )

Next-agree :
    {w v : World} {xs : List ℕ} (x : ℕ) (rest : List ℕ)
    → v.sched.idle ≡ w.sched.idle
    → (v.threads x).magic ≡ (w.threads x).magic
    → Next w xs x rest
    → Next v xs x rest
Next-agree x rest ei em (from_queue e) = from_queue e
Next-agree x rest ei em (from_idle e f i m) = from_idle e f (ei ∙ i) (em ∙ m)

abbrev made_blocked : World → ℕ → World
made_blocked w c = record { threads = put_state w.threads c blocked; sched = w.sched }

blocked-made_blocked : (w : World) (c : ℕ) → ((made_blocked w c).threads c).state ≡ blocked
blocked-made_blocked w c = ground arith

block_current-yields :
    (w : World) (c : ℕ)
    → w.sched.initialized ≡ true
    → w.sched.current ≡ some c
    → (w.threads c).magic ≡ thread_magic
    → w.sched.idle ≢ some c
    → block_current (some w) ≡ yield (some (made_blocked w c))
unfolding block_current valid_thread_object
block_current-yields w c hi hc mc ni = ground (arith, same_pointer-ne c w.sched.idle ni)

-- On an initialised scheduler with a valid queue, blocking a current thread that is valid, not
-- queued and not the idle thread succeeds if the next thread is another one: that thread becomes
-- the current one and runs, and the old one is blocked and not in the queue.
pub block_current-Switched :
    {w : World} {xs : List ℕ} (c x : ℕ) (rest : List ℕ)
    → IsQueue w xs
    → w.sched.initialized ≡ true
    → w.sched.current ≡ some c
    → (w.threads c).magic ≡ thread_magic
    → w.sched.idle ≢ some c
    → contains xs c ≡ false
    → Next w xs x rest
    → x ≢ c
    → (u : World) × (block_current (some w) ≡ (some u, ok)) × Switched c x blocked rest u
block_current-Switched {w} {xs} c x rest q hi hc mc ni out nx ne =
    let later : IsQueue (made_blocked w c) xs =
      IsQueue-agree q refl refl refl (λ p h. ground (arith, member-ne xs p c h out)) in
    let (u, e, s) =
      yield-not_requeued c x rest later hi hc (ground arith) out
        (Next-agree x rest refl (ground arith) nx) ne (inl (ground arith)) in
    (
      u,
      block_current-yields w c hi hc mc ni ∙ e,
      record {
        queue = s.queue;
        current = s.current;
        runs = s.runs;
        left = s.left ∙ blocked-made_blocked w c;
      },
    )
