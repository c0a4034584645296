-- ===== src/Sync/Lockdep/Held.antt =====
-- The invariant of the checker, and its operations against a stack of classes.

use mcsos.Common.{
  ℕ, zero, suc, ◌+◌, ◌≤◌, ◌<◌, ◌≡◌, ◌≢◌, refl, false, List, [], ◌∷◌, ◌++◌, arith, get_or, set,
  length, get_or-set_ne, dec_lt,
}
use mcsos.Sync.Lockdep.{LockdepState, max_held, holds}

-- The classes held, lowest first, grow strictly; slots above them are inside the arrays.
pub record IsValid (s : LockdepState) : Type 0 where
  pub room : length s.held_class ≡ max_held
  pub shallow : s.depth ≤ max_held
  pub growing : (i j : ℕ) → i < j → j < s.depth → get_or s.held_class i 0 < get_or s.held_class j 0
  pub positive : (i : ℕ) → i < s.depth → 0 < get_or s.held_class i 0

-- The first `n` entries of an array.
abbrev pub prefix : List ℕ → ℕ → List ℕ
prefix xs zero = []
prefix xs (suc n) = prefix xs n ++ (get_or xs n 0 ∷ [])

-- The stack of classes held.
abbrev pub held : LockdepState → List ℕ
held s = prefix s.held_class s.depth

pub prefix-set_above : (xs : List ℕ) (n i v : ℕ) → n ≤ i → prefix (set xs i v) n ≡ prefix xs n
prefix-set_above xs zero i v h = refl
prefix-set_above xs (suc n) i v h =
    ground (arith, prefix-set_above xs n i v, get_or-set_ne xs i n v 0)

-- What a scan that finds nothing has seen.
pub holds-false :
    (xs : List ℕ) (n i c : ℕ)
    → holds xs n i c ≡ false
    → (j : ℕ) → i ≤ j
    → j < i + n
    → get_or xs j 0 ≢ c
unfolding holds
holds-false xs zero i c h j le lt = absurd (omega arith)
holds-false xs (suc n) i c h j le lt = elim (dec_lt i j) [
  | yes p ↦ holds-false xs n (i + 1) c (ground arith) j (omega arith) (omega arith)
  | no p ↦ let same : j ≡ i = omega arith in rw same (ground arith)
]

-- Below the top class nothing is the class asked for.
pub holds_none :
    (xs : List ℕ) (n i c : ℕ)
    → ((j : ℕ) → i ≤ j → j < i + n → get_or xs j 0 ≢ c)
    → holds xs n i c ≡ false
unfolding holds
holds_none xs zero i c h = refl
holds_none xs (suc n) i c h =
    ground (arith, h i, holds_none xs n (i + 1) c (λ j le lt. h j (omega arith) (omega arith)))
