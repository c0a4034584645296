-- ===== src/Kmem/Validate.antt =====
-- `kmem_validate` and `kmem_init`: a heap whose blocks lie one behind the other is accepted.
use mcsos.Common.{
  ℕ, zero, suc, ◌+◌, ◌-◌, ◌%◌, ◌^◌, ◌≤◌, ◌<◌, ◌≡◌, refl, ap, ◌∙◌, Bool, true, false, List, [], ◌∷◌,
  Option, none, some, arith, if◌then◌else◌, ltb, leb, ◌==◌, ◌!=◌, eq→==, not, ◌||◌, inr, length,
}
use mcsos.Kmem.Heap.{
  Kmem, header_size, validate, validate_from, validate_block, same_ptr, guard_max, payload,
}
use mcsos.Kmem.Tiles.{Extent, head_at, behind, Tiles, Tiles-end, align_up_ptr-aligned}
use mcsos.Kmem.Fit.{IsHeap}

same_ptr-same : (p : Option ℕ) → same_ptr p p ≡ true
same_ptr-same none = refl
same_ptr-same (some a) = eq→== a a refl

block_inside :
    (base c size end : ℕ)
    → base ≤ c
    → c + header_size + size ≤ end
    → ((c != c) ≡ false)
      × ((ltb c base || ltb end (c + header_size)) ≡ false)
      × (ltb (end - payload c) size ≡ false)
      × ((payload c + size == 0 || ltb end (payload c + size)) ≡ false)
block_inside base c size end above last = (ground arith, ground arith, ground arith, ground arith)

not_null : (a : ℕ) → 0 < a → (a == 0) ≡ false
not_null a h = ground (arith, h)

not_below : (a b : ℕ) → a < b → leb b a ≡ false
not_below a b h = ground (arith, h)

-- The tests before the loop.
sound_start :
    (ready null none_left : Bool) (head : Option ℕ) (base walk : ℕ)
    → ready ≡ true
    → null ≡ false
    → none_left ≡ false
    → head ≡ some base
    → (if not ready || null || none_left
        then 1
        else elim head [ none ↦ 1 | some h ↦ if h != base then 2 else walk ])
      ≡ walk
sound_start ready null none_left head base walk e1 e2 e3 e4 =
    let self : (base != base) ≡ false = ground arith in rw (e1, e2, e3, e4, self) refl

validate_block-Tiles :
    (k : Kmem) (prev : Option ℕ) (c : ℕ) (x : Extent) (xs : List Extent)
    → Tiles k.blocks prev c (x ∷ xs) k.heap_end
    → c % 16 ≡ 0
    → k.heap_base ≤ c
    → k.heap_end < 2 ^ 64 - 15
    → validate_block k prev c c ≡ inr (behind c x)
unfolding validate_block
validate_block-Tiles k prev c x xs tiles aligned above room =
    let last = Tiles-end k.blocks (some c) (behind c x) xs k.heap_end tiles.2 in
    let size = ap (λ h. h.size) tiles.0 in
    let magic = ap (λ h. h.magic) tiles.0 in
    let back : same_ptr (k.blocks c).prev prev ≡ true =
      ap (λ h. same_ptr h.prev prev) tiles.0 ∙ same_ptr-same prev in
    let after =
      align_up_ptr-aligned (payload c + x.size) (omega (arith, aligned, tiles.1))
        (omega (arith, last, room)) in
    let inside = block_inside k.heap_base c x.size k.heap_end above last in
    rw (magic, back, size, after, inside.0, inside.1, inside.2, inside.3) refl

validate_from-Tiles :
    (fuel guard : ℕ) (k : Kmem) (prev : Option ℕ) (c : ℕ) (xs : List Extent)
    → Tiles k.blocks prev c xs k.heap_end
    → c % 16 ≡ 0
    → k.heap_base ≤ c
    → k.heap_end < 2 ^ 64 - 15
    → guard + length xs ≤ guard_max
    → length xs < fuel
    → validate_from fuel guard k prev c (head_at xs c) ≡ 0
unfolding validate_from
validate_from-Tiles zero guard k prev c xs tiles aligned above room few more =
    absurd (omega (arith, more))
validate_from-Tiles (suc fuel) guard k prev c [] tiles aligned above room few more = refl
validate_from-Tiles (suc fuel) guard k prev c (x ∷ xs) tiles aligned above room few more =
    let next = ap (λ h. h.next) tiles.0 in
    let rest =
      validate_from-Tiles fuel (guard + 1) k (some c) (behind c x) xs tiles.2
        (omega (arith, aligned, tiles.1)) (omega (arith, above)) room (omega (arith, few))
        (omega (arith, more)) in
    let counted : ltb guard_max (guard + 1) ≡ false = ground (arith, few) in
    rw (counted, validate_block-Tiles k prev c x xs tiles aligned above room, next) rest

-- `kmem_validate` accepts a heap of at least one block and at most 1048576 blocks that lie one behind
-- the other, with their links, from a base that is not null to the end of the heap.
pub validate-IsHeap :
    (k : Kmem) (x : Extent) (xs : List Extent)
    → IsHeap k (x ∷ xs)
    → 0 < k.heap_base
    → length xs < guard_max
    → validate k ≡ 0
unfolding validate
validate-IsHeap k x xs heap based few =
    let walk =
      validate_from-Tiles (suc guard_max) 0 k none k.heap_base (x ∷ xs) heap.tiles heap.aligned
        (omega arith) heap.room (omega (arith, few)) (omega (arith, few)) in
    let longer =
      Tiles-end k.blocks (some k.heap_base) (behind k.heap_base x) xs k.heap_end heap.tiles.2 in
    sound_start k.initialized (k.heap_base == 0) (leb k.heap_end k.heap_base) k.head k.heap_base
      (validate_from (suc guard_max) 0 k none k.heap_base k.head) heap.ready
      (not_null k.heap_base based) (not_below k.heap_base k.heap_end (omega (arith, longer)))
      heap.head
    ∙ ap (validate_from (suc guard_max) 0 k none k.heap_base) heap.head
    ∙ walk
