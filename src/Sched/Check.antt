-- ===== src/Sched/Check.antt =====
-- `mcsos_sched_validate` and `mcsos_sched_ready_count`: that they end, and what they answer.
use mcsos.Common.{
  ℕ, zero, suc, ◌+◌, ◌-◌, ◌^◌, ◌≤◌, ◌<◌, ◌≡◌, ◌≢◌, refl, true, false, List, [], ◌∷◌, Option, none,
  some, arith, length, add_u64, ◌∙◌, sym, ap,
}
use mcsos.Sched.Thread.{Thread, ready, ok, World, thread_magic, valid_thread_object}
use mcsos.Sched.Ready.{append_ready, enqueue}
use mcsos.Sched.Switch.{same_pointer}
use mcsos.Sched.Walk.{count_from, ready_count, validate_from, validate}
use mcsos.Sched.Queue.{contains, first, last, Links, AllReady, IsQueue, contains-cons}

count_from-length :
    (ts : ℕ → Thread) (xs : List ℕ) (fuel : ℕ) (cursor : Option ℕ) (n : ℕ)
    → cursor ≡ first xs
    → Links ts xs
    → length xs < fuel
    → n + length xs < 2 ^ 64
    → count_from ts fuel cursor n ≡ some (n + length xs)
unfolding count_from
count_from-length ts xs zero cursor n e l h b = absurd (omega arith)
count_from-length ts [] (suc fuel) cursor n e l h b = rw e (ap some (omega arith))
count_from-length ts (x ∷ xs) (suc fuel) cursor n e l h b = rw e (
    count_from-length ts xs fuel (ts x).next (add_u64 n 1) l.0 l.1 (omega arith) (omega arith)
    ∙ ap some (omega arith))

-- On an initialised scheduler with a valid queue, `mcsos_sched_ready_count` returns the number of
-- queued threads, with more fuel than there are threads.
ready_count-length :
    {w : World} {xs : List ℕ} (fuel : ℕ)
    → IsQueue w xs
    → w.sched.initialized ≡ true
    → length xs < fuel
    → ready_count fuel (some w) ≡ some (length xs)
unfolding ready_count
ready_count-length {w} {xs} fuel q hi h = ground (
  arith,
  count_from-length w.threads xs fuel w.sched.ready_head 0 q.head q.links h
      (omega (arith, q.bounded)),
)

-- A check goes on for no more rounds than the count allows.
validate_from-ends :
    (w : World) (fuel : ℕ) (cursor l : Option ℕ) (n : ℕ)
    → w.sched.runnable_count < 2 ^ 64 - 2
    → n ≤ w.sched.runnable_count + 1
    → w.sched.runnable_count + 3 ≤ fuel + n
    → validate_from w fuel cursor l n ≢ none
unfolding validate_from
validate_from-ends w zero cursor l n hr hn hf = absurd (omega arith)
validate_from-ends w (suc fuel) none l n hr hn hf = ground arith
validate_from-ends w (suc fuel) (some p) l n hr hn hf =
    ground (arith, validate_from-ends w fuel (w.threads p).next (some p) (add_u64 n 1) hr)

-- However the threads' links run, a check of a scheduler that counts fewer than 2^64 - 2 runnable
-- threads ends within three more rounds than it counts.
pub validate-ends :
    (w : World) (fuel : ℕ)
    → w.sched.runnable_count < 2 ^ 64 - 2
    → w.sched.runnable_count + 3 ≤ fuel
    → validate fuel (some w) ≢ none
unfolding validate
validate-ends w fuel hr hf =
    ground
      (arith, validate_from-ends w fuel w.sched.ready_head none 0 hr (omega arith) (omega arith))

-- The last thread of a walk that has come to `l` and has `ys` before it.
abbrev last_from : Option ℕ → List ℕ → Option ℕ
last_from l [] = l
last_from l (x ∷ xs) = last_from (some x) xs

last_from-last : (x : ℕ) (xs : List ℕ) → last_from (some x) xs ≡ last (x ∷ xs)
last_from-last x [] = refl
last_from-last x (y ∷ xs) = last_from-last y xs

last_from-none : (xs : List ℕ) → last_from none xs ≡ last xs
last_from-none [] = refl
last_from-none (x ∷ xs) = last_from-last x xs

same_pointer_refl : (o : Option ℕ) → same_pointer o o ≡ true
same_pointer_refl none = refl
same_pointer_refl (some p) = ground arith

module _ (w : World) (c : ℕ) (hc : w.sched.current ≡ some c)
    (small : w.sched.runnable_count < 2 ^ 63) where
  validate_from-done :
      (fuel : ℕ) (l : Option ℕ) (n : ℕ)
      → l ≡ w.sched.ready_tail
      → n ≡ w.sched.runnable_count
      → validate_from w (suc fuel) none l n ≡ some ok
  unfolding validate_from
  validate_from-done fuel l n el en =
      rw (el, en, same_pointer_refl w.sched.ready_tail) (ground arith)

  validate_from-goes :
      (fuel p : ℕ) (l : Option ℕ) (n : ℕ)
      → (w.threads p).magic ≡ thread_magic
      → (w.threads p).state ≡ ready
      → p ≢ c
      → n < w.sched.runnable_count
      → validate_from w (suc fuel) (some p) l n
        ≡ validate_from w fuel (w.threads p).next (some p) (add_u64 n 1)
  unfolding validate_from valid_thread_object
  validate_from-goes fuel p l n em es ne h = ground arith

  validate_from-accepts :
      (ys : List ℕ) (fuel : ℕ) (cursor l : Option ℕ) (n : ℕ)
      → cursor ≡ first ys
      → Links w.threads ys
      → AllReady w.threads ys
      → contains ys c ≡ false
      → last_from l ys ≡ w.sched.ready_tail
      → n + length ys ≡ w.sched.runnable_count
      → length ys < fuel
      → validate_from w fuel cursor l n ≡ some ok
  validate_from-accepts ys zero cursor l n e ls rs m el en h = absurd (omega arith)
  validate_from-accepts [] (suc fuel) cursor l n e ls rs m el en h =
      rw e (validate_from-done fuel l n el (omega arith))
  validate_from-accepts (y ∷ ys) (suc fuel) cursor l n e ls rs m el en h =
      let apart = contains-cons y ys c m in
      rw e (
        validate_from-goes fuel y l n rs.0 rs.1 apart.0 (omega arith)
        ∙ validate_from-accepts ys fuel (w.threads y).next (some y) (add_u64 n 1) ls.0 ls.1 rs.2
            apart.1 el (omega arith) (omega arith))

-- The check accepts every initialised scheduler whose queue is valid and whose current thread is a
-- valid thread that is not queued, with more fuel than there are queued threads.
pub validate-accepts :
    {w : World} {xs : List ℕ} (c fuel : ℕ)
    → IsQueue w xs
    → w.sched.initialized ≡ true
    → w.sched.current ≡ some c
    → (w.threads c).magic ≡ thread_magic
    → contains xs c ≡ false
    → length xs < fuel
    → validate fuel (some w) ≡ some ok
unfolding validate valid_thread_object
validate-accepts {w} {xs} c fuel q hi hc mc out h = ground (
  arith,
  validate_from-accepts w c hc (omega (arith, q.counted, q.bounded)) xs fuel w.sched.ready_head none
      0 q.head q.links q.all_ready out (last_from-none xs ∙ sym q.tail) (omega (arith, q.counted))
      h,
)

endless :
    (ts : ℕ → Thread) (fuel p n : ℕ) → (ts p).next ≡ some p → count_from ts fuel (some p) n ≡ none
unfolding count_from
endless ts zero p n e = refl
endless ts (suc fuel) p n e = rw e (endless ts fuel p (add_u64 n 1) e)

twice-eq :
    {w : World} (p : ℕ)
    → IsQueue w (p ∷ [])
    → w.sched.initialized ≡ true
    → (enqueue (some w) (some p) ≡ (some (append_ready w p), ok))
      × ((append_ready w p).sched.ready_head ≡ some p)
      × (((append_ready w p).threads p).next ≡ some p)
      × ((append_ready w p).sched.initialized ≡ true)
unfolding enqueue append_ready valid_thread_object
twice-eq p q hi = (
  ground (arith, q.all_ready),
  ground (arith, q.head, q.tail),
  ground (arith, q.tail),
  ground (arith, q.tail),
)

-- On an initialised scheduler, a thread that is alone in a valid queue can be queued a second time
-- with success, and no amount of fuel counts the queue afterwards.
pub enqueue-twice :
    {w : World} (p : ℕ)
    → IsQueue w (p ∷ [])
    → w.sched.initialized ≡ true
    → (v : World) × (enqueue (some w) (some p) ≡ (some v, ok))
      × ((fuel : ℕ) → ready_count fuel (some v) ≡ none)
unfolding ready_count
enqueue-twice {w} p q hi =
    let (accepted, head, link, init) = twice-eq p q hi in
    (
      append_ready w p,
      accepted,
      λ fuel. ground (arith, endless (append_ready w p).threads fuel p 0 link),
    )
