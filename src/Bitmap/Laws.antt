-- ===== src/Bitmap/Laws.antt =====
-- What a bit of a bitmap is after a bit was set or cleared.
use Prim.Native.Nat.{bit_and, bit_or}
use mcsos.Common.{
  ℕ, zero, suc, ◌-◌, ◌/◌, ◌%◌, ◌<◌, ◌≡◌, refl, ap, ◌∙◌, Bool, true, false, ◌&&◌, not, List, arith,
  ◌==◌, ◌!=◌, if◌then◌else◌, length, length-set, get_or-set_self, get_or-set_ne, u8, ℕ_discrete,
}
use mcsos.Bitmap.{byte_at, bit_mask, bitmap_set, bitmap_clear, bitmap_test}

-- A test that holds at each number below a bound, and its use at one of them.
every : (ℕ → Bool) → ℕ → Bool
every test zero = true
every test (suc bound) = every test bound && test bound

every-at :
    (test : ℕ → Bool) (bound : ℕ) → every test bound ≡ true → (i : ℕ) → i < bound → test i ≡ true
unfolding every
every-at test zero checked i below = absurd (omega arith)
every-at test (suc bound) checked i below = elim (ℕ_discrete i bound) [
  | yes here ↦ rw here (ground arith)
  | no apart ↦ every-at test bound (ground arith) i (omega (arith, apart))
]

abbrev bit_of : ℕ → ℕ → Bool
bit_of b k = bit_and b (bit_mask k) != 0

-- bit `l` of a byte after bit `k` was set or cleared
abbrev after_set : ℕ → ℕ → ℕ → Bool
after_set b k l = bit_of (u8 (u8 (bit_or b (bit_mask k)))) l

abbrev after_clear : ℕ → ℕ → ℕ → Bool
after_clear b k l = bit_of (u8 (u8 (bit_and b (255 - bit_mask k)))) l

abbrev same : Bool → Bool → Bool
same true b = b
same false b = not b

same→eq : (a b : Bool) → same a b ≡ true → a ≡ b
same→eq a b h = ground arith

abbrev set_case : ℕ → ℕ → ℕ → Bool
set_case k l b = same (after_set b k l) (if k == l then true else bit_of b l)

abbrev clear_case : ℕ → ℕ → ℕ → Bool
clear_case k l b = same (after_clear b k l) (if k == l then false else bit_of b l)

-- All the bytes, at all pairs of a written bit and a bit that is read.
abbrev table : (ℕ → ℕ → ℕ → Bool) → Bool
table claim = every (λ k. every (λ l. every (claim k l) 256) 8) 8

set_table : table set_case ≡ true
unfolding every
set_table = refl

clear_table : table clear_case ≡ true
unfolding every
clear_table = refl

table-at :
    (claim : ℕ → ℕ → ℕ → Bool) (k l b : ℕ)
    → table claim ≡ true
    → k < 8
    → l < 8
    → b < 256
    → claim k l b ≡ true
table-at claim k l b h hk hl hb =
    let row = every-at (λ k. every (λ l. every (claim k l) 256) 8) 8 h k hk in
    let column = every-at (λ l. every (claim k l) 256) 8 row l hl in
    every-at (claim k l) 256 column b hb

set_byte :
    (b k l : ℕ) → b < 256 → k < 8 → l < 8 → after_set b k l ≡ (if k == l then true else bit_of b l)
set_byte b k l hb hk hl = same→eq _ _ (table-at set_case k l b set_table hk hl hb)

clear_byte :
    (b k l : ℕ)
    → b < 256
    → k < 8
    → l < 8
    → after_clear b k l ≡ (if k == l then false else bit_of b l)
clear_byte b k l hb hk hl = same→eq _ _ (table-at clear_case k l b clear_table hk hl hb)

same_index : (i j : ℕ) → i / 8 ≡ j / 8 → (i % 8 == j % 8) ≡ (i == j)
same_index i j e = ground arith

pub bitmap_test-bitmap_set :
    (bm : List ℕ) (i j : ℕ)
    → i / 8 < length bm
    → bitmap_test (bitmap_set bm i) j ≡ (if i == j then true else bitmap_test bm j)
unfolding bitmap_set bitmap_test
bitmap_test-bitmap_set bm i j h = elim (ℕ_discrete (i / 8) (j / 8)) [
  | yes e ↦
      rw (← e, get_or-set_self bm (i / 8) _ 0 h)
        (set_byte (byte_at bm (i / 8)) (i % 8) (j % 8) (omega arith) (omega arith) (omega arith)
          ∙ ap (λ t. if t then true else bit_of (byte_at bm (i / 8)) (j % 8)) (same_index i j e))
  | no ne ↦ rw (get_or-set_ne bm (i / 8) (j / 8) _ 0 ne) (ground arith)
]

pub bitmap_test-bitmap_clear :
    (bm : List ℕ) (i j : ℕ)
    → i / 8 < length bm
    → bitmap_test (bitmap_clear bm i) j ≡ (if i == j then false else bitmap_test bm j)
unfolding bitmap_clear bitmap_test
bitmap_test-bitmap_clear bm i j h = elim (ℕ_discrete (i / 8) (j / 8)) [
  | yes e ↦
      rw (← e, get_or-set_self bm (i / 8) _ 0 h)
        (clear_byte (byte_at bm (i / 8)) (i % 8) (j % 8) (omega arith) (omega arith) (omega arith)
          ∙ ap (λ t. if t then false else bit_of (byte_at bm (i / 8)) (j % 8)) (same_index i j e))
  | no ne ↦ rw (get_or-set_ne bm (i / 8) (j / 8) _ 0 ne) (ground arith)
]

pub length-bitmap_set : (bm : List ℕ) (i : ℕ) → length (bitmap_set bm i) ≡ length bm
unfolding bitmap_set
length-bitmap_set bm i = length-set bm (i / 8) _

pub length-bitmap_clear : (bm : List ℕ) (i : ℕ) → length (bitmap_clear bm i) ≡ length bm
unfolding bitmap_clear
length-bitmap_clear bm i = length-set bm (i / 8) _
