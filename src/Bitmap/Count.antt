-- ===== src/Bitmap/Count.antt =====
-- How many of the first `n` bits of a bitmap are clear.
use mcsos.Common.{
  ℕ, zero, suc, ◌+◌, ◌/◌, ◌≤◌, ◌<◌, ◌≡◌, refl, true, false, List, arith, if◌then◌else◌, length,
  dec_lt,
}
use mcsos.Bitmap.{bitmap_set, bitmap_clear, bitmap_test}
use mcsos.Bitmap.Laws.{bitmap_test-bitmap_set, bitmap_test-bitmap_clear}

unfoldable pub clear_count : List ℕ → ℕ → ℕ
clear_count bm zero = 0
clear_count bm (suc n) = (if bitmap_test bm n then 0 else 1) + clear_count bm n

pub clear_count-le : (bm : List ℕ) (n : ℕ) → clear_count bm n ≤ n
unfolding clear_count
clear_count-le bm zero = omega arith
clear_count-le bm (suc n) = ground (arith, clear_count-le bm n)

pub clear_count-eq-zero :
    (bm : List ℕ) (n : ℕ) → ((i : ℕ) → i < n → bitmap_test bm i ≡ true) → clear_count bm n ≡ 0
unfolding clear_count
clear_count-eq-zero bm zero h = refl
clear_count-eq-zero bm (suc n) h =
    ground (arith, h n, clear_count-eq-zero bm n (λ i lt. h i (omega arith)))

-- A clear bit below `n` is counted.
pub clear_count-pos :
    (bm : List ℕ) (n i : ℕ) → i < n → bitmap_test bm i ≡ false → 0 < clear_count bm n
unfolding clear_count
clear_count-pos bm zero i h e = absurd (omega arith)
clear_count-pos bm (suc n) i h e = elim (dec_lt i n) [
  | yes p ↦ ground (arith, clear_count-pos bm n i p e)
  | no p ↦ ground arith
]

module _ (bm : List ℕ) (i : ℕ) (inside : i / 8 < length bm) where
  clear_count-bitmap_set_above :
      (n : ℕ) → n ≤ i → clear_count (bitmap_set bm i) n ≡ clear_count bm n
  unfolding clear_count
  clear_count-bitmap_set_above zero h = refl
  clear_count-bitmap_set_above (suc n) h =
      ground (arith, bitmap_test-bitmap_set bm i n inside, clear_count-bitmap_set_above n)

  pub clear_count-bitmap_set :
      (n : ℕ)
      → i < n
      → bitmap_test bm i ≡ false
      → clear_count (bitmap_set bm i) n + 1 ≡ clear_count bm n
  unfolding clear_count
  clear_count-bitmap_set zero h e = absurd (omega arith)
  clear_count-bitmap_set (suc n) h e = elim (dec_lt i n) [
    | yes p ↦ ground (arith, bitmap_test-bitmap_set bm i n inside, clear_count-bitmap_set n p e)
    | no p ↦ ground (arith, bitmap_test-bitmap_set bm i n inside, clear_count-bitmap_set_above n)
  ]

  clear_count-bitmap_clear_above :
      (n : ℕ) → n ≤ i → clear_count (bitmap_clear bm i) n ≡ clear_count bm n
  unfolding clear_count
  clear_count-bitmap_clear_above zero h = refl
  clear_count-bitmap_clear_above (suc n) h =
      ground (arith, bitmap_test-bitmap_clear bm i n inside, clear_count-bitmap_clear_above n)

  pub clear_count-bitmap_clear :
      (n : ℕ)
      → i < n
      → bitmap_test bm i ≡ true
      → clear_count (bitmap_clear bm i) n ≡ clear_count bm n + 1
  unfolding clear_count
  clear_count-bitmap_clear zero h e = absurd (omega arith)
  clear_count-bitmap_clear (suc n) h e = elim (dec_lt i n) [
    | yes p ↦ ground (arith, bitmap_test-bitmap_clear bm i n inside, clear_count-bitmap_clear n p e)
    | no p ↦
        ground (arith, bitmap_test-bitmap_clear bm i n inside, clear_count-bitmap_clear_above n)
  ]
