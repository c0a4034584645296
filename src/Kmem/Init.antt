-- ===== src/Kmem/Init.antt =====
-- `kmem_init`: the heap that it sets up.
use mcsos.Common.{
  ℕ, ◌+◌, ◌-◌, ◌*◌, ◌/◌, ◌^◌, ◌≤◌, ◌<◌, ◌≡◌, refl, sym, ap, ◌∙◌, subst, true, false, [], ◌∷◌, none,
  some, arith, ltb, leb, ◌==◌, ◌||◌,
}
use mcsos.Kmem.Heap.{
  Kmem, header_size, kmem_align, kmem_min_split, align_up_ptr, put, init, validate,
}
use mcsos.Kmem.Tiles.{Extent, header, put-here}
use mcsos.Kmem.Fit.{IsHeap, rounded}
use mcsos.Kmem.Validate.{validate-IsHeap}

align_up_ptr-rounded : (n : ℕ) → n < 2 ^ 64 - 15 → align_up_ptr n kmem_align ≡ rounded n
unfolding align_up_ptr
align_up_ptr-rounded n h = ground (arith, h)

-- The bytes of the heap.
abbrev pub usable : ℕ → ℕ → ℕ
usable base size = (size - (rounded base - base)) / kmem_align * kmem_align

abbrev pub whole_block : ℕ → ℕ → Extent
whole_block base size = record { size = usable base size - header_size; free = true }

abbrev bare : ℕ → ℕ → Kmem → Kmem
bare base size k = record k {
  heap_base = rounded base;
  heap_end = rounded base + usable base size;
  head = some (rounded base);
  initialized = true;
}

abbrev fresh : ℕ → ℕ → Kmem → Kmem
fresh base size k = put (rounded base) (header (whole_block base size) none none) (bare base size k)

init_guards :
    (base size : ℕ)
    → 0 < base
    → 112 ≤ size
    → (ltb size (header_size + kmem_min_split) ≡ false)
      × ((rounded base == 0 || ltb (rounded base) base) ≡ false)
      × (leb size (rounded base - base + header_size + kmem_min_split) ≡ false)
      × (leb (usable base size) (header_size + kmem_min_split) ≡ false)
init_guards base size hb hs =
    (ground (arith, hs), ground (arith, hb), ground (arith, hs), ground (arith, hs))

init-fresh :
    (base size : ℕ) (k : Kmem)
    → 0 < base
    → 112 ≤ size
    → base + size < 2 ^ 64 - 15
    → init (some base) size k ≡ (fresh base size k, validate (fresh base size k))
unfolding init
init-fresh base size k hb hs room =
    let g = init_guards base size hb hs in
    rw (align_up_ptr-rounded base (omega (arith, room)), g.0, g.1, g.2, g.3) refl

fresh-IsHeap :
    (base size : ℕ) (k : Kmem)
    → 112 ≤ size
    → base + size < 2 ^ 64 - 15
    → IsHeap (fresh base size k) (whole_block base size ∷ [])
unfolding put
fresh-IsHeap base size k hs room = record {
  ready = refl;
  aligned = omega arith;
  room = omega (arith, room, hs);
  head = refl;
  tiles = (
    put-here (bare base size k) (rounded base) (header (whole_block base size) none none),
    omega arith,
    omega (arith, hs),
  );
}

fresh-base : (base size : ℕ) (k : Kmem) → (fresh base size k).heap_base ≡ rounded base
unfolding put
fresh-base base size k = refl

based : (base size : ℕ) (k : Kmem) → 0 < base → 0 < (fresh base size k).heap_base
based base size k h = omega (arith, fresh-base base size k, h)

-- For an area of at least 112 bytes that starts above 0 and ends below 2 ^ 64 - 15, `kmem_init`
-- returns 0, and the heap is one free block, from the first multiple of 16 on.
pub init-IsHeap :
    (base size : ℕ) (k : Kmem)
    → 0 < base
    → 112 ≤ size
    → base + size < 2 ^ 64 - 15
    → ((init (some base) size k).1 ≡ 0)
      × ((init (some base) size k).0.heap_base ≡ rounded base)
      × IsHeap (init (some base) size k).0 (whole_block base size ∷ [])
init-IsHeap base size k hb hs room =
    let e = init-fresh base size k hb hs room in
    let heap = fresh-IsHeap base size k hs room in
    let accepted =
      validate-IsHeap (fresh base size k) (whole_block base size) [] heap (based base size k hb)
        (omega arith) in
    (
      ap (λ r. r.1) e ∙ accepted,
      ap (λ r. r.0.heap_base) e ∙ fresh-base base size k,
      subst (λ r. IsHeap r.0 (whole_block base size ∷ [])) (sym e) heap,
    )
