-- ===== src/Kmem/Examples.antt =====
-- A heap in an area of 1024 bytes: runs, and the theorems at this heap.
use mcsos.Kmem.Tiles.{header}
use mcsos.Kmem.Free.{release, address}
use mcsos.Kmem.Release.{free_checked-release}
use mcsos.Common.{true, ◌==◌, if◌then◌else◌, ◌++◌}
use mcsos.Kmem.Heap.{payload}
use mcsos.Kmem.Tiles.{behind}
use mcsos.Common.{ℕ, ◌+◌, ◌%◌, ◌≤◌, ◌⊎◌, arith, ◌≡◌, refl, false, Option, none, some, List, [], ◌∷◌}
use mcsos.Kmem.Heap.{
  Kmem, KmemBlock, KmemStats, ◌>>=◌, init, alloc, alloc_from, free_checked, released, validate,
  validate_from, validate_block, get_stats, stats_from, counted, put, split_if_useful, split_at,
  link_back, align_up_ptr, align_up_size, coalesce_forward, coalesce_back, absorb_next, ptr_in_heap,
}
use mcsos.Kmem.Tiles.{Extent}
use mcsos.Kmem.Alloc.{fit}
use mcsos.Kmem.Fit.{IsHeap, rounded, alloc-fit}
use mcsos.Kmem.Init.{whole_block, init-IsHeap}

abbrev nothing : KmemBlock
nothing = record { magic = 0; size = 0; free = false; prev = none; next = none }

abbrev empty : Kmem
empty = record {
  heap_base = 0;
  heap_end = 0;
  head = none;
  initialized = false;
  blocks = λ a. nothing;
  bytes = λ a. 0;
}

abbrev heap : Kmem
heap = (init (some 4100) 1024 empty).0

sets_up : (init (some 4100) 1024 empty).1 ≡ 0
unfolding init align_up_ptr put validate validate_from validate_block
sets_up = refl

-- Two blocks are given out, the first is freed, and then the second: one free block is left.
run : Option KmemStats
run = alloc 9 24 heap >>= λ a. alloc 9 128 a.0 >>= λ b.
    free_checked 9 a.1 b.0 >>= λ c. free_checked 9 b.1 c.0 >>= λ d. get_stats 9 d.0

runs :
    run
    ≡ some (record {
      total_bytes = 1008;
      used_bytes = 0;
      free_bytes = 960;
      block_count = 1;
      free_count = 1;
      largest_free = 960;
    })
unfolding run init alloc alloc_from free_checked released validate validate_from validate_block
    get_stats stats_from counted put split_if_useful split_at link_back align_up_ptr align_up_size
    coalesce_forward coalesce_back absorb_next ptr_in_heap
runs = refl

heap-IsHeap : IsHeap heap (whole_block 4100 1024 ∷ [])
heap-IsHeap = (init-IsHeap 4100 1024 empty (omega arith) (omega arith) (omega arith)).2

init-IsHeap_example :
    ((init (some 4100) 1024 empty).1 ≡ 0)
    × (heap.heap_base ≡ rounded 4100)
    × IsHeap heap (whole_block 4100 1024 ∷ [])
init-IsHeap_example = init-IsHeap 4100 1024 empty (omega arith) (omega arith) (omega arith)

alloc-fit_example :
    ((fit (rounded 24) heap.heap_base (whole_block 4100 1024 ∷ []) ≡ none)
      × (alloc 9 24 heap ≡ some (heap, none)))
    ⊎ ((ys : List Extent) × (p : ℕ) × (k' : Kmem) × (fit
            (rounded 24)
            heap.heap_base
            (whole_block 4100 1024 ∷ [])
          ≡ some (ys, p))
        × (alloc 9 24 heap ≡ some (k', some p))
        × IsHeap k' ys
        × (p % 16 ≡ 0)
        × (heap.heap_base + 48 ≤ p)
        × (p + 24 ≤ heap.heap_end))
alloc-fit_example =
    alloc-fit 9 24 heap (whole_block 4100 1024 ∷ []) heap-IsHeap (omega arith) (omega arith)
      (omega arith)

abbrev low : Extent
low = record { size = 32; free = false }

abbrev middle : Extent
middle = record { size = 128; free = false }

abbrev high : Extent
high = record { size = 704; free = true }

-- Two blocks in use, and the rest.
abbrev shared : Kmem
shared = record {
  heap_base = 4112;
  heap_end = 5120;
  head = some 4112;
  initialized = true;
  blocks = λ a.
      if a == 4112
      then header low none (some 4192)
      else if a == 4192
      then header middle (some 4112) (some 4368)
      else header high (some 4192) none;
  bytes = λ a. 0;
}

shared-IsHeap : IsHeap shared ([] ++ low ∷ middle ∷ high ∷ [])
shared-IsHeap = record {
  ready = refl;
  aligned = refl;
  room = omega arith;
  head = refl;
  tiles = (refl, refl, (refl, refl, (refl, refl, refl)));
}

free_checked-release_example :
    (m : Kmem) × (free_checked 9 (some (payload (behind (address 4112 []) low))) shared
      ≡ some (m, 0))
    × IsHeap m ([] ++ release low middle (high ∷ []))
free_checked-release_example =
    free_checked-release 9 shared [] low middle (high ∷ []) shared-IsHeap (omega arith) refl
      (omega arith) (omega arith) (omega arith)
