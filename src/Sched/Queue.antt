-- ===== src/Sched/Queue.antt =====
-- What it means that the linked ready queue of a world holds a list of threads.
use mcsos.Common.{
  ℕ, ◌^◌, ◌<◌, ◌≡◌, ◌≢◌, refl, Bool, true, false, false≢true, ◌||◌, List, [], ◌∷◌, ◌++◌, Option,
  none, some, arith, ◌==◌, length, sym, ap, ◌∙◌,
}
use mcsos.Sched.Thread.{Thread, ready, World, thread_magic}

abbrev pub contains : List ℕ → ℕ → Bool
contains [] p = false
contains (x ∷ xs) p = x == p || contains xs p

abbrev pub Distinct : List ℕ → Type 0
Distinct [] = Unit
Distinct (x ∷ xs) = (contains xs x ≡ false) × Distinct xs

abbrev pub first : List ℕ → Option ℕ
first [] = none
first (x ∷ xs) = some x

abbrev pub last : List ℕ → Option ℕ
last [] = none
last (x ∷ []) = some x
last (x ∷ y ∷ xs) = last (y ∷ xs)

-- Each thread of the list links the one behind it, and the last links none.
abbrev pub Links : (ℕ → Thread) → List ℕ → Type 0
Links ts [] = Unit
Links ts (x ∷ xs) = ((ts x).next ≡ first xs) × Links ts xs

abbrev pub AllReady : (ℕ → Thread) → List ℕ → Type 0
AllReady ts [] = Unit
AllReady ts (x ∷ xs) = ((ts x).magic ≡ thread_magic) × ((ts x).state ≡ ready) × AllReady ts xs

pub record IsQueue (w : World) (xs : List ℕ) : Type 0 where
  pub head : w.sched.ready_head ≡ first xs
  pub tail : w.sched.ready_tail ≡ last xs
  pub links : Links w.threads xs
  pub all_ready : AllReady w.threads xs
  pub distinct : Distinct xs
  pub counted : w.sched.runnable_count ≡ length xs
  pub bounded : length xs < 2 ^ 63

pub contains-last : (xs : List ℕ) (q : ℕ) → last xs ≡ some q → contains xs q ≡ true
contains-last [] q e = ground arith
contains-last (x ∷ []) q e = ground arith
contains-last (x ∷ y ∷ xs) q e = ground (arith, contains-last (y ∷ xs) q e)

-- Two memories that agree on the queue's threads.
pub Links-agree :
    (xs : List ℕ) (ts us : ℕ → Thread)
    → ((p : ℕ) → contains xs p ≡ true → (us p).next ≡ (ts p).next)
    → Links ts xs
    → Links us xs
Links-agree [] ts us h l = tt
Links-agree (x ∷ xs) ts us h l =
    (ground (arith, h x, l.0), Links-agree xs ts us (λ p m. h p (ground arith)) l.1)

pub AllReady-agree :
    (xs : List ℕ) (ts us : ℕ → Thread)
    → ((p : ℕ)
        → contains xs p ≡ true
        → ((us p).magic ≡ (ts p).magic) × ((us p).state ≡ (ts p).state))
    → AllReady ts xs
    → AllReady us xs
AllReady-agree [] ts us h l = tt
AllReady-agree (x ∷ xs) ts us h l = (
  ground (arith, h x, l.0),
  ground (arith, h x, l.1),
  AllReady-agree xs ts us (λ p m. h p (ground arith)) l.2,
)

pub contains-cons :
    (x : ℕ) (xs : List ℕ) (p : ℕ) → contains (x ∷ xs) p ≡ false → (x ≢ p) × (contains xs p ≡ false)
contains-cons x xs p h = ground arith

head-ne-last : (x q : ℕ) (xs : List ℕ) → contains xs x ≡ false → last xs ≡ some q → x ≢ q
head-ne-last x q xs d e h = false≢true (sym d ∙ ap (contains xs) h ∙ contains-last xs q e)

-- The list with one more thread behind its last one, `q`.
pub Links-append :
    (xs : List ℕ) (p q : ℕ) (ts us : ℕ → Thread)
    → Links ts xs
    → Distinct xs
    → last xs ≡ some q
    → contains xs p ≡ false
    → ((y : ℕ) → y ≢ q → y ≢ p → (us y).next ≡ (ts y).next)
    → (us q).next ≡ some p
    → (us p).next ≡ none
    → Links us (xs ++ (p ∷ []))
Links-append [] p q ts us l d e m same eq ep = ground arith
Links-append (x ∷ []) p q ts us l d e m same eq ep = (ground arith, (ep, tt))
Links-append (x ∷ y ∷ xs) p q ts us l d e m same eq ep = (
  same x (head-ne-last x q (y ∷ xs) d.0 e) (contains-cons x (y ∷ xs) p m).0 ∙ l.0,
  Links-append (y ∷ xs) p q ts us l.1 d.1 e (contains-cons x (y ∷ xs) p m).1 same eq ep,
)

pub AllReady-append :
    (xs : List ℕ) (p : ℕ) (ts us : ℕ → Thread)
    → AllReady ts xs
    → contains xs p ≡ false
    → ((y : ℕ) → y ≢ p → ((us y).magic ≡ (ts y).magic) × ((us y).state ≡ (ts y).state))
    → (us p).magic ≡ thread_magic
    → (us p).state ≡ ready
    → AllReady us (xs ++ (p ∷ []))
AllReady-append [] p ts us l m same em er = (em, er, tt)
AllReady-append (x ∷ xs) p ts us l m same em er = (
  ground (arith, l.0, same x),
  ground (arith, l.1, same x),
  AllReady-append xs p ts us l.2 (ground arith) same em er,
)

pub contains-append :
    (xs : List ℕ) (p y : ℕ) → contains (xs ++ (p ∷ [])) y ≡ (contains xs y || p == y)
contains-append [] p y = ground arith
contains-append (x ∷ xs) p y = ground (arith, contains-append xs p y)

pub Distinct-append :
    (xs : List ℕ) (p : ℕ) → Distinct xs → contains xs p ≡ false → Distinct (xs ++ (p ∷ []))
Distinct-append [] p d m = (refl, tt)
Distinct-append (x ∷ xs) p d m =
    (ground (arith, contains-append xs p x, d.0), Distinct-append xs p d.1 (ground arith))

pub first-append : (xs : List ℕ) (p q : ℕ) → last xs ≡ some q → first (xs ++ (p ∷ [])) ≡ first xs
first-append [] p q e = ground arith
first-append (x ∷ xs) p q e = refl

pub last-append : (xs : List ℕ) (p : ℕ) → last (xs ++ (p ∷ [])) ≡ some p
last-append [] p = refl
last-append (x ∷ []) p = refl
last-append (x ∷ y ∷ xs) p = last-append (y ∷ xs) p

pub last-cons : (x : ℕ) (xs : List ℕ) → (q : ℕ) × (last (x ∷ xs) ≡ some q)
last-cons x [] = (x, refl)
last-cons x (y ∷ xs) = last-cons y xs

-- Two worlds with the same queue pointers and count, whose memories agree on the queue's threads.
pub IsQueue-agree :
    {w v : World} {xs : List ℕ}
    → IsQueue w xs
    → v.sched.ready_head ≡ w.sched.ready_head
    → v.sched.ready_tail ≡ w.sched.ready_tail
    → v.sched.runnable_count ≡ w.sched.runnable_count
    → ((p : ℕ)
        → contains xs p ≡ true
        → ((v.threads p).next ≡ (w.threads p).next)
          × ((v.threads p).magic ≡ (w.threads p).magic)
          × ((v.threads p).state ≡ (w.threads p).state))
    → IsQueue v xs
IsQueue-agree {w} {v} {xs} q eh et ec h = record {
  head = eh ∙ q.head;
  tail = et ∙ q.tail;
  links = Links-agree xs w.threads v.threads (λ p m. (h p m).0) q.links;
  all_ready = AllReady-agree xs w.threads v.threads (λ p m. ((h p m).1, (h p m).2)) q.all_ready;
  distinct = q.distinct;
  counted = ec ∙ q.counted;
  bounded = q.bounded;
}
