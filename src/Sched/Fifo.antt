-- ===== src/Sched/Fifo.antt =====
-- `mcsos_sched_enqueue` and `mcsos_sched_pick_next` as the two ends of a first-in-first-out queue.
use mcsos.Common.{
  ℕ, ◌+◌, ◌-◌, ◌^◌, ◌<◌, ◌≡◌, ◌≢◌, refl, true, false, false≢true, List, [], ◌∷◌, ◌++◌, Option, none,
  some, arith, ltb, if◌then◌else◌, length, length-append, add_u64, ◌∙◌, sym, ap,
}
use mcsos.Sched.Thread.{ready, ok, World, put, thread_magic, valid_thread_object}
use mcsos.Sched.Ready.{may_enqueue, append_ready, enqueue, pick_next}
use mcsos.Sched.Queue.{
  contains, first, last, IsQueue, contains-last, Links-agree, AllReady-agree, Links-append,
  AllReady-append, Distinct-append, last-append, last-cons,
}

-- What `append_ready` does to a thread other than `p`: at most its link changes.
module _ (w : World) (p : ℕ) where
  append_ready-other :
      (y : ℕ)
      → y ≢ p
      → (((append_ready w p).threads y).magic ≡ (w.threads y).magic)
        × (((append_ready w p).threads y).state ≡ (w.threads y).state)
  unfolding append_ready
  append_ready-other y ne = ground arith

  append_ready-own :
      w.sched.ready_tail ≢ some p
      → (((append_ready w p).threads p).magic ≡ (w.threads p).magic)
        × (((append_ready w p).threads p).state ≡ ready)
        × (((append_ready w p).threads p).next ≡ none)
  unfolding append_ready
  append_ready-own ne = ground arith

  append_ready-link :
      (q : ℕ)
      → w.sched.ready_tail ≡ some q
      → q ≢ p
      → (((append_ready w p).threads q).next ≡ some p)
        × ((y : ℕ) → y ≢ q → y ≢ p → ((append_ready w p).threads y).next ≡ (w.threads y).next)
  unfolding append_ready
  append_ready-link q e ne = (ground arith, λ y nq np. ground arith)

  append_ready-sched :
      ((append_ready w p).sched.ready_tail ≡ some p)
      × ((append_ready w p).sched.runnable_count ≡ add_u64 w.sched.runnable_count 1)
      × ((append_ready w p).sched.current ≡ w.sched.current)
      × ((append_ready w p).sched.idle ≡ w.sched.idle)
      × ((append_ready w p).sched.initialized ≡ w.sched.initialized)
  unfolding append_ready
  append_ready-sched = ground arith

  append_ready-head :
      (append_ready w p).sched.ready_head
      ≡ (elim w.sched.ready_tail [ none ↦ some p | some q ↦ w.sched.ready_head ])
  unfolding append_ready
  append_ready-head = ground arith

-- Appending a thread that is not queued, on an empty queue and on one with a last thread.
append_ready-IsQueue :
    (w : World) (xs : List ℕ) (p : ℕ)
    → IsQueue w xs
    → contains xs p ≡ false
    → (w.threads p).magic ≡ thread_magic
    → length xs + 1 < 2 ^ 63
    → IsQueue (append_ready w p) (xs ++ (p ∷ []))
append_ready-IsQueue w [] p v m em room = record {
  head = ground (arith, append_ready-head w p, v.tail);
  tail = (append_ready-sched w p).0;
  links = (own.2, tt);
  all_ready = (own.0 ∙ em, own.1, tt);
  distinct = (refl, tt);
  counted = ground (arith, append_ready-sched w p, v.counted);
  bounded = room;
}
  where
    own :
        (((append_ready w p).threads p).magic ≡ (w.threads p).magic)
        × (((append_ready w p).threads p).state ≡ ready)
        × (((append_ready w p).threads p).next ≡ none)
    own = append_ready-own w p (ground (arith, v.tail))
append_ready-IsQueue w (x ∷ xs) p v m em room = behind (last-cons x xs)
  where
    behind : (q : ℕ) × (last (x ∷ xs) ≡ some q) → IsQueue (append_ready w p) ((x ∷ xs) ++ (p ∷ []))
    behind (q, e) =
        let ne : q ≢ p = ground (arith, contains-last (x ∷ xs) q e) in
        let own = append_ready-own w p (ground (arith, v.tail)) in
        let link = append_ready-link w p q (v.tail ∙ e) ne in
        record {
          head = ground (arith, append_ready-head w p, v.tail, v.head);
          tail = (append_ready-sched w p).0 ∙ sym (last-append (x ∷ xs) p);
          links =
              Links-append (x ∷ xs) p q w.threads (append_ready w p).threads v.links v.distinct e m
                link.1 link.0 own.2;
          all_ready =
              AllReady-append (x ∷ xs) p w.threads (append_ready w p).threads v.all_ready m
                (append_ready-other w p) (own.0 ∙ em) own.1;
          distinct = Distinct-append (x ∷ xs) p v.distinct m;
          counted =
              omega (arith, append_ready-sched w p, v.counted, length-append {0} (x ∷ xs) (p ∷ []));
          bounded = omega (arith, room, length-append {0} (x ∷ xs) (p ∷ []));
        }

-- On an initialised scheduler with a valid queue that has room, a thread that is valid, in a state
-- that may be queued, and not in the queue, goes to the end of the queue; the current and the idle
-- thread stay, and every other thread keeps its magic and its state.
pub enqueue-IsQueue :
    {w : World} {xs : List ℕ} (p : ℕ)
    → IsQueue w xs
    → w.sched.initialized ≡ true
    → (w.threads p).magic ≡ thread_magic
    → may_enqueue (w.threads p).state ≡ true
    → contains xs p ≡ false
    → length xs + 1 < 2 ^ 63
    → (v : World) × (enqueue (some w) (some p) ≡ (some v, ok))
      × IsQueue v (xs ++ (p ∷ []))
      × (v.sched.current ≡ w.sched.current)
      × (v.sched.idle ≡ w.sched.idle)
      × ((y : ℕ)
          → y ≢ p
          → ((v.threads y).magic ≡ (w.threads y).magic)
            × ((v.threads y).state ≡ (w.threads y).state))
unfolding enqueue valid_thread_object
enqueue-IsQueue {w} {xs} p v hi em may m room = (
  append_ready w p,
  ground arith,
  append_ready-IsQueue w xs p v m em room,
  (append_ready-sched w p).2,
  (append_ready-sched w p).3,
  append_ready-other w p,
)

-- The world after the first thread was taken.
abbrev popped : World → ℕ → World
popped w p = record {
  threads = put w.threads p (record (w.threads p) { next = none });
  sched = record w.sched {
    ready_head = (w.threads p).next;
    ready_tail = elim (w.threads p).next [ none ↦ none | some q ↦ w.sched.ready_tail ];
    runnable_count =
        if ltb 0 w.sched.runnable_count then w.sched.runnable_count - 1 else w.sched.runnable_count;
  };
}

pick_next-popped :
    (w : World) (x : ℕ)
    → w.sched.initialized ≡ true
    → w.sched.ready_head ≡ some x
    → pick_next (some w) ≡ (some (popped w x), some x)
unfolding pick_next
pick_next-popped w x hi e = ground arith

popped-tail :
    (x : ℕ) (xs : List ℕ) (o t : Option ℕ)
    → o ≡ first xs
    → t ≡ last (x ∷ xs)
    → (elim o [ none ↦ none | some q ↦ t ]) ≡ last xs
popped-tail x [] o t e f = rw e refl
popped-tail x (y ∷ xs) o t e f = rw e f

popped-IsQueue : (w : World) (x : ℕ) (xs : List ℕ) → IsQueue w (x ∷ xs) → IsQueue (popped w x) xs
popped-IsQueue w x xs v = record {
  head = v.links.0;
  tail = popped-tail x xs (w.threads x).next w.sched.ready_tail v.links.0 v.tail;
  links =
      Links-agree xs w.threads (popped w x).threads (λ p m. ground (arith, apart p m)) v.links.1;
  all_ready =
      AllReady-agree xs w.threads (popped w x).threads (λ p m. ground (arith, apart p m))
        v.all_ready.2;
  distinct = v.distinct.1;
  counted = ground (arith, v.counted);
  bounded = omega (arith, v.bounded);
}
  where
    apart : (p : ℕ) → contains xs p ≡ true → x ≢ p
    apart p m e = false≢true (sym v.distinct.0 ∙ ap (contains xs) e ∙ m)

-- On an initialised scheduler with a valid queue, the thread at its head is picked and the queue
-- keeps the rest in order; its link is cleared, and no other thread changes.
pub pick_next-IsQueue :
    {w : World} {x : ℕ} {xs : List ℕ}
    → IsQueue w (x ∷ xs)
    → w.sched.initialized ≡ true
    → (v : World) × (pick_next (some w) ≡ (some v, some x))
      × IsQueue v xs
      × (v.threads ≡ put w.threads x (record (w.threads x) { next = none }))
      × (v.sched.current ≡ w.sched.current)
      × (v.sched.idle ≡ w.sched.idle)
      × (v.sched.initialized ≡ true)
pick_next-IsQueue {w} {x} {xs} v hi =
    (popped w x, pick_next-popped w x hi v.head, popped-IsQueue w x xs v, refl, refl, refl, hi)

-- With an empty queue the idle thread is picked, and nothing changes.
pub pick_next-idle :
    {w : World}
    → IsQueue w []
    → w.sched.initialized ≡ true
    → pick_next (some w) ≡ (some w, w.sched.idle)
unfolding pick_next
pick_next-idle {w} v hi = ground (arith, v.head)
