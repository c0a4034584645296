-- ===== src/Journal/Writes.antt =====
-- A run of block writes, and where it stops when the device fails after a number of writes.
use mcsos.Common.{
  ℕ, zero, suc, ◌+◌, ◌≤◌, ◌<◌, ◌≡◌, ◌≢◌, refl, sym, ap, ◌∙◌, true, List, [], ◌∷◌, ◌++◌, Option,
  none, some, arith, ◌==◌, if◌then◌else◌, set, length, length-set, get_or-set_self, get_or-set_ne,
  ◌⊎◌, inl, inr, ℕ_discrete, Option-cases,
}
use mcsos.Journal.Device.{
  eio, Result, ok, err, BlockDev, Action, pure, ◌>>◌, zero_block, block_at, max_blocks, valid_lba,
  stored, write_block,
}

abbrev pub Writes : Type 0
Writes = List (ℕ × List ℕ)

unfoldable pub run : Writes → Action (Unit {0})
run [] = pure tt
run (w ∷ ws) = write_block w.0 w.1 >> run ws

-- The blocks after a list of writes.
unfoldable pub apply : Writes → List (List ℕ) → List (List ℕ)
apply [] blocks = blocks
apply (w ∷ ws) blocks = apply ws (set blocks w.0 w.1)

abbrev pub take : ℕ → Writes → Writes
take zero ws = []
take (suc n) [] = []
take (suc n) (w ∷ ws) = w ∷ take n ws

-- Every write goes to a block in a range.
abbrev pub Within : ℕ → ℕ → Writes → Type 0
Within lo hi [] = Unit
Within lo hi (w ∷ ws) = (lo ≤ w.0) × (w.0 < hi) × Within lo hi ws

pub Within-append :
    (lo hi : ℕ) (ws vs : Writes) → Within lo hi ws → Within lo hi vs → Within lo hi (ws ++ vs)
Within-append lo hi [] vs h1 h2 = h2
Within-append lo hi (w ∷ ws) vs h1 h2 = (h1.0, h1.1, Within-append lo hi ws vs h1.2 h2)

pub Within-weaken :
    (lo hi lo' hi' : ℕ) (ws : Writes) → lo' ≤ lo → hi ≤ hi' → Within lo hi ws → Within lo' hi' ws
Within-weaken lo hi lo' hi' [] h1 h2 h = tt
Within-weaken lo hi lo' hi' (w ∷ ws) h1 h2 h =
    (omega (arith, h.0), omega (arith, h.1), Within-weaken lo hi lo' hi' ws h1 h2 h.2)

pub Within-take : (lo hi n : ℕ) (ws : Writes) → Within lo hi ws → Within lo hi (take n ws)
Within-take lo hi zero ws h = tt
Within-take lo hi (suc n) [] h = tt
Within-take lo hi (suc n) (w ∷ ws) h = (h.0, h.1, Within-take lo hi n ws h.2)

pub apply-append : (ws vs : Writes) (b : List (List ℕ)) → apply (ws ++ vs) b ≡ apply vs (apply ws b)
unfolding apply
apply-append [] vs b = refl
apply-append (w ∷ ws) vs b = apply-append ws vs (set b w.0 w.1)

pub length-apply : (ws : Writes) (b : List (List ℕ)) → length (apply ws b) ≡ length b
unfolding apply
length-apply [] b = refl
length-apply (w ∷ ws) b = length-apply ws (set b w.0 w.1) ∙ length-set b w.0 w.1

-- A block outside the range of the writes keeps its contents.
pub apply-outside :
    (lo hi : ℕ) (ws : Writes) (b : List (List ℕ)) (j : ℕ)
    → Within lo hi ws
    → (j < lo) ⊎ (hi ≤ j)
    → block_at (apply ws b) j ≡ block_at b j
unfolding apply
apply-outside lo hi [] b j h out = refl
apply-outside lo hi (w ∷ ws) b j h out =
    apply-outside lo hi ws (set b w.0 w.1) j h.2 out
    ∙ get_or-set_ne b w.0 j w.1 zero_block (apart out)
  where
    apart : (j < lo) ⊎ (hi ≤ j) → w.0 ≢ j
    apart (inl below) e = absurd (omega (arith, h.0, e, below))
    apart (inr above) e = absurd (omega (arith, h.1, e, above))

-- The last contents that the writes give to block j.
latest : Writes → ℕ → Option (List ℕ)
latest [] j = none
latest (w ∷ ws) j = elim (latest ws j) [
  | some x ↦ some x
  | none ↦ if w.0 == j then some w.1 else none
]

or_old : Option (List ℕ) → List ℕ → List ℕ
or_old none x = x
or_old (some y) x = y

block_at-set :
    (b : List (List ℕ)) (l j : ℕ) (x : List ℕ)
    → l < length b
    → block_at (set b l x) j ≡ (if l == j then x else block_at b j)
block_at-set b l j x h = elim (ℕ_discrete l j) [
  | yes e ↦ rw (← e) (get_or-set_self b l x zero_block h ∙ ground (arith, e))
  | no ne ↦ get_or-set_ne b l j x zero_block ne ∙ ground (arith, ne)
]

latest-apply :
    (ws : Writes) (b : List (List ℕ)) (j : ℕ)
    → Within 0 (length b) ws
    → block_at (apply ws b) j ≡ or_old (latest ws j) (block_at b j)
unfolding apply latest or_old
latest-apply [] b j h = refl
latest-apply (w ∷ ws) b j h =
    latest-apply ws (set b w.0 w.1) j (rw (length-set b w.0 w.1) h.2)
    ∙ elim (Option-cases (latest ws j)) [
      | inl e ↦ rw e (block_at-set b w.0 j w.1 h.1 ∙ ground arith)
      | inr e ↦ rw e.1 refl
    ]

latest-take : (k : ℕ) (ws : Writes) (j : ℕ) → latest ws j ≡ none → latest (take k ws) j ≡ none
unfolding latest
latest-take zero ws j h = refl
latest-take (suc k) [] j h = refl
latest-take (suc k) (w ∷ ws) j h = ground (arith, latest-take k ws j)

-- Writing all the blocks again, after a run that stopped among them, gives what one run gives.
pub apply-again :
    (k : ℕ) (ws : Writes) (b : List (List ℕ)) (j : ℕ)
    → Within 0 (length b) ws
    → block_at (apply ws (apply (take k ws) b)) j ≡ block_at (apply ws b) j
unfolding or_old
apply-again k ws b j h =
    let part = Within-take 0 (length b) k ws h in
    latest-apply ws (apply (take k ws) b) j (rw (length-apply (take k ws) b) h)
    ∙ elim (Option-cases (latest ws j)) [
      | inl e ↦ rw e (latest-apply (take k ws) b j part ∙ rw (latest-take k ws j e) refl)
      | inr e ↦ rw e.1 refl
    ]
    ∙ sym (latest-apply ws b j h)

-- Two lists of blocks that agree at j agree there after the same writes.
pub apply-agree :
    (ws : Writes) (b c : List (List ℕ)) (j : ℕ)
    → Within 0 (length b) ws
    → Within 0 (length c) ws
    → block_at b j ≡ block_at c j
    → block_at (apply ws b) j ≡ block_at (apply ws c) j
apply-agree ws b c j h1 h2 e =
    latest-apply ws b j h1 ∙ ap (or_old (latest ws j)) e ∙ sym (latest-apply ws c j h2)

-- A prefix of two runs, one after the other.
pub take-left : (n : ℕ) (ws vs : Writes) → n ≤ length ws → take n (ws ++ vs) ≡ take n ws
take-left zero ws vs h = refl
take-left (suc n) [] vs h = absurd (omega arith)
take-left (suc n) (w ∷ ws) vs h = ap (λ t. w ∷ t) (take-left n ws vs (omega arith))

pub take-right :
    (k n : ℕ) (ws vs : Writes) → n ≡ length ws + k → take n (ws ++ vs) ≡ ws ++ take k vs
take-right k n [] vs h = ap (λ m. take m vs) (omega (arith, h))
take-right k zero (w ∷ ws) vs h = absurd (omega (arith, h))
take-right k (suc n) (w ∷ ws) vs h = ap (λ t. w ∷ t) (take-right k n ws vs (omega (arith, h)))

pub take-nil : (n : ℕ) → take n [] ≡ []
take-nil zero = refl
take-nil (suc n) = refl

module _ (d : BlockDev) (l : ℕ) (x : List ℕ) (hl : l < d.total_blocks)
    (ht : d.total_blocks ≤ max_blocks) where
  pub valid : valid_lba d l ≡ true
  unfolding valid_lba
  valid = ground arith

  pub write-free : d.fail_after ≡ none → write_block l x d ≡ (stored d l x none, ok tt)
  unfolding write_block
  write-free e = rw (valid, e) refl

  write-counts :
      (n : ℕ) → d.fail_after ≡ some (suc n) → write_block l x d ≡ (stored d l x (some n), ok tt)
  unfolding write_block
  write-counts n e = rw (valid, e) refl

  write-fails : d.fail_after ≡ some 0 → write_block l x d ≡ (d, err eio)
  unfolding write_block
  write-fails e = ground (arith, valid, e)

-- What a run leaves on a device that fails after n more writes: the first n writes are done, and
-- the run succeeds only if these are all.
pub record Ran (ws : Writes) (n : ℕ) (d : BlockDev) (r : BlockDev × Result (Unit {0}))
    : Type 0 where
  pub blocks : r.0.blocks ≡ apply (take n ws) d.blocks
  pub total : r.0.total_blocks ≡ d.total_blocks
  pub complete : r.1 ≡ ok tt → length ws ≤ n

pub run-Ran :
    (ws : Writes) (n : ℕ) (d : BlockDev)
    → d.fail_after ≡ some n
    → d.total_blocks ≤ max_blocks
    → Within 0 d.total_blocks ws
    → Ran ws n d (run ws d)
unfolding run apply
run-Ran [] zero d e ht h = record { blocks = refl; total = refl; complete = λ _. omega arith }
run-Ran [] (suc n) d e ht h = record { blocks = refl; total = refl; complete = λ _. omega arith }
run-Ran (w ∷ ws) zero d e ht h =
    rw (write-fails d w.0 w.1 h.1 ht e)
      (record { blocks = refl; total = refl; complete = λ z. absurd (ground (arith, z)) })
run-Ran (w ∷ ws) (suc n) d e ht h =
    let r = run-Ran ws n (stored d w.0 w.1 (some n)) refl ht h.2 in
    rw (write-counts d w.0 w.1 h.1 ht n e)
      (record { blocks = r.blocks; total = r.total; complete = λ z. omega (arith, r.complete z) })
