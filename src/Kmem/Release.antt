-- ===== src/Kmem/Release.antt =====
-- `kmem_free_checked` of a block that is in use and has a block before it.
use mcsos.Common.{
  ℕ, suc, ◌-◌, ◌*◌, ◌/◌, ◌%◌, ◌^◌, ◌≤◌, ◌<◌, ◌≡◌, ◌≢◌, refl, sym, ap, ◌∙◌, subst, Bool, true, false,
  List, [], ◌∷◌, ◌++◌, none, some, arith, ◌!=◌, if◌then◌else◌, not, ◌||◌, inl, inr, sub_u64,
  Bool-cases, length,
}
use mcsos.Kmem.Heap.{
  Kmem, header_size, payload, kmem_align, kmem_magic, ptr_in_heap, released, free_checked, validate,
  guard_max,
}
use mcsos.Kmem.Tiles.{Extent, head_at, behind}
use mcsos.Kmem.Fit.{IsHeap, Carved-IsHeap}
use mcsos.Kmem.Merge.{merge, whenever, otherwise}
use mcsos.Kmem.Free.{release, unused, address, released-Freed, head_at-release, length-merge}
use mcsos.Kmem.Validate.{validate-IsHeap}

length-release :
    (v u : Extent) (post : List Extent) → length (release v u post) ≤ suc (suc (length post))
length-release v u post = elim (Bool-cases v.free) [
  | inl e ↦
      subst (λ zs. length zs ≤ suc (suc (length post)))
        (sym (whenever v.free (merge v (merge (unused u) post)) (v ∷ merge (unused u) post) e))
        (omega (arith, length-merge v (merge (unused u) post), length-merge (unused u) post))
  | inr e ↦
      subst (λ zs. length zs ≤ suc (suc (length post)))
        (sym (otherwise v.free (merge v (merge (unused u) post)) (v ∷ merge (unused u) post) e))
        (omega (arith, length-merge (unused u) post))
]

length-behind :
    (pre : List Extent) (v u : Extent) (post : List Extent)
    → length (pre ++ release v u post) ≤ length (pre ++ v ∷ u ∷ post)
length-behind [] v u post = length-release v u post
length-behind (x ∷ pre) v u post = omega (arith, length-behind pre v u post)

validate-blocks :
    (k : Kmem) (xs : List Extent)
    → IsHeap k xs
    → head_at xs k.heap_base ≢ none
    → 0 < k.heap_base
    → length xs ≤ guard_max
    → validate k ≡ 0
validate-blocks k [] heap some_block based few = absurd (some_block refl)
validate-blocks k (x ∷ xs) heap some_block based few = validate-IsHeap k x xs heap based few

some_first :
    (c : ℕ) (pre : List Extent) (v u : Extent) (post : List Extent)
    → head_at (pre ++ release v u post) c ≢ none
some_first c pre v u post h = none_first pre (sym (head_at-release c pre v u post) ∙ h)
  where
    none_first : (ws : List Extent) → head_at (ws ++ v ∷ u ∷ post) c ≡ none → ⊥
    none_first [] e = cc
    none_first (w ∷ ws) e = cc

-- The tests before the block is freed.
accepted :
    {A : Type 0} (a b c d e : Bool) (x1 x2 x3 x4 y : A)
    → a ≡ true
    → b ≡ false
    → c ≡ true
    → d ≡ false
    → e ≡ false
    → (if not a then x1 else if b then x2 else if not c || d then x3 else if e then x4 else y) ≡ y
accepted a b c d e x1 x2 x3 x4 y ea eb ec ed ee = rw (ea, eb, ec, ed, ee) refl

ptr_in_heap-inside :
    (k : Kmem) (p : ℕ)
    → k.initialized ≡ true
    → k.heap_base ≤ p
    → p < k.heap_end
    → ptr_in_heap k p ≡ true
unfolding ptr_in_heap
ptr_in_heap-inside k p ready low high = ground (arith, ready, low, high)

multiple : (n : ℕ) → n % 16 ≡ 0 → (n / kmem_align * kmem_align != n) ≡ false
multiple n h = ground (arith, h)

is_magic : (n : ℕ) → n ≡ kmem_magic → (n != kmem_magic) ≡ false
is_magic n h = ground (arith, h)

free_checked-released :
    (fuel block : ℕ) (k : Kmem)
    → k.initialized ≡ true
    → k.heap_base ≤ block
    → payload block < k.heap_end
    → k.heap_end < 2 ^ 64 - 15
    → block % 16 ≡ 0
    → (k.blocks block).magic ≡ kmem_magic
    → (k.blocks block).free ≡ false
    → free_checked fuel (some (payload block)) k ≡ released fuel block k
unfolding free_checked
free_checked-released fuel block k ready low high room aligned magic used =
    let back : sub_u64 (payload block) header_size ≡ block = omega (arith, high, room) in
    accepted (ptr_in_heap k (payload block))
      (payload block / kmem_align * kmem_align != payload block)
      (ptr_in_heap k (sub_u64 (payload block) header_size))
      ((k.blocks (sub_u64 (payload block) header_size)).magic != kmem_magic)
      (k.blocks (sub_u64 (payload block) header_size)).free (some (k, 1)) (some (k, 2))
      (some (k, 3)) (some (k, 4)) (released fuel (sub_u64 (payload block) header_size) k)
      (ptr_in_heap-inside k (payload block) ready (omega (arith, low)) high)
      (multiple (payload block) (omega (arith, aligned)))
      (ap (ptr_in_heap k) back ∙ ptr_in_heap-inside k block ready low (omega (arith, high)))
      (is_magic (k.blocks (sub_u64 (payload block) header_size)).magic
        (ap (λ a. (k.blocks a).magic) back ∙ magic))
      (ap (λ a. (k.blocks a).free) back ∙ used)
    ∙ ap (λ a. released fuel a k) back

-- On a heap of at most 1048576 blocks, `kmem_free_checked` of the payload of a block u in use, with at
-- least one byte and a block v before it, ends within as many rounds as there are blocks behind v and
-- one more, and returns 0. The heap is then that of the specification `release`: u is free, it has
-- taken in the free blocks that follow it, and v has taken it in if v is free.
pub free_checked-release :
    (fuel : ℕ) (k : Kmem) (pre : List Extent) (v u : Extent) (post : List Extent)
    → IsHeap k (pre ++ v ∷ u ∷ post)
    → 0 < k.heap_base
    → u.free ≡ false
    → 0 < u.size
    → length (pre ++ v ∷ u ∷ post) ≤ guard_max
    → suc (length post) < fuel
    → (m : Kmem) × (free_checked fuel (some (payload (behind (address k.heap_base pre) v))) k
        ≡ some (m, 0))
      × IsHeap m (pre ++ release v u post)
free_checked-release fuel k pre v u post heap based used bytes few more =
    let r =
      released-Freed k none k.heap_base pre v u post fuel heap.tiles heap.aligned heap.room more in
    let after =
      Carved-IsHeap k r.state (pre ++ v ∷ u ∷ post) (pre ++ release v u post) heap r.carved
        (head_at-release k.heap_base pre v u post) in
    let base = r.carved.frame.same_base in
    let sound =
      validate-blocks r.state (pre ++ release v u post) after
        (some_first r.state.heap_base pre v u post) (omega (arith, base, based))
        (omega (arith, few, length-behind pre v u post)) in
    (
      r.state,
      free_checked-released fuel (behind (address k.heap_base pre) v) k heap.ready
            (omega (arith, r.above)) (omega (arith, r.below, bytes)) heap.room r.aligned r.magic
            (r.used ∙ used)
          ∙ r.result
          ∙ ap (λ code. some (r.state, code)) sound,
      after,
    )
