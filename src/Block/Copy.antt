-- ===== src/Block/Copy.antt =====
-- The byte copy of kernel/block/ramblk.c.
use mcsos.Common.{
  ℕ, zero, suc, ◌+◌, ◌≤◌, ◌<◌, ◌≡◌, refl, ◌∙◌, List, arith, get_or, set, length, length-set,
  get_or-set_self, get_or-set_ne, ℕ_discrete,
}

-- `for (i = 0; i < n; i++) d[i] = s[i]`, by the rounds left, with `d` and `s` at offsets.
unfoldable pub memcpy : ℕ → ℕ → List ℕ → ℕ → List ℕ → ℕ → List ℕ
memcpy zero i dst d src s = dst
memcpy (suc n) i dst d src s = memcpy n (i + 1) (set dst (d + i) (get_or src (s + i) 0)) d src s

pub length-memcpy :
    (n i : ℕ) (dst : List ℕ) (d : ℕ) (src : List ℕ) (s : ℕ)
    → length (memcpy n i dst d src s) ≡ length dst
unfolding memcpy
length-memcpy zero i dst d src s = refl
length-memcpy (suc n) i dst d src s =
    length-memcpy n (i + 1) (set dst (d + i) (get_or src (s + i) 0)) d src s
    ∙ length-set dst (d + i) (get_or src (s + i) 0)

pub memcpy-below :
    (n i : ℕ) (dst : List ℕ) (d : ℕ) (src : List ℕ) (s j : ℕ)
    → j < d + i
    → get_or (memcpy n i dst d src s) j 0 ≡ get_or dst j 0
unfolding memcpy
memcpy-below zero i dst d src s j h = refl
memcpy-below (suc n) i dst d src s j h =
    memcpy-below n (i + 1) (set dst (d + i) (get_or src (s + i) 0)) d src s j (omega arith)
    ∙ get_or-set_ne dst (d + i) j (get_or src (s + i) 0) 0 (λ e. absurd (omega (arith, e)))

pub memcpy-above :
    (n i : ℕ) (dst : List ℕ) (d : ℕ) (src : List ℕ) (s j : ℕ)
    → d + i + n ≤ j
    → get_or (memcpy n i dst d src s) j 0 ≡ get_or dst j 0
unfolding memcpy
memcpy-above zero i dst d src s j h = refl
memcpy-above (suc n) i dst d src s j h =
    memcpy-above n (i + 1) (set dst (d + i) (get_or src (s + i) 0)) d src s j (omega arith)
    ∙ get_or-set_ne dst (d + i) j (get_or src (s + i) 0) 0 (λ e. absurd (omega (arith, e)))

pub memcpy-inside :
    (n i : ℕ) (dst : List ℕ) (d : ℕ) (src : List ℕ) (s j : ℕ)
    → i ≤ j
    → j < i + n
    → d + i + n ≤ length dst
    → get_or (memcpy n i dst d src s) (d + j) 0 ≡ get_or src (s + j) 0
unfolding memcpy
memcpy-inside zero i dst d src s j h1 h2 h3 = absurd (omega arith)
memcpy-inside (suc n) i dst d src s j h1 h2 h3 =
    let next = set dst (d + i) (get_or src (s + i) 0) in
    elim (ℕ_discrete j i) [
      | yes e ↦ rw e (
          memcpy-below n (i + 1) next d src s (d + i) (omega arith)
          ∙ get_or-set_self dst (d + i) (get_or src (s + i) 0) 0 (omega arith))
      | no ne ↦
          memcpy-inside n (i + 1) next d src s j (omega (arith, ne)) (omega arith)
            (omega (arith, length-set dst (d + i) (get_or src (s + i) 0)))
    ]

-- A whole copy, with the two indices written as the caller has them.
pub memcpy-copied :
    (n : ℕ) (dst : List ℕ) (d : ℕ) (src : List ℕ) (s j : ℕ) {a b : ℕ}
    → a ≡ d + j
    → b ≡ s + j
    → j < n
    → d + n ≤ length dst
    → get_or (memcpy n 0 dst d src s) a 0 ≡ get_or src b 0
memcpy-copied n dst d src s j ea eb lt fits =
    rw (ea, eb)
      (memcpy-inside n 0 dst d src s j (omega arith) (omega (arith, lt)) (omega (arith, fits)))
