-- ===== src/Pmm/Examples.antt =====
-- Sixteen frames of memory: runs of the allocator, and its theorems at a concrete state.
use mcsos.Common.{
  ℕ, ◌-◌, ◌*◌, ◌^◌, ◌<◌, ◌≡◌, refl, true, false, List, [], ◌∷◌, some, arith, if◌then◌else◌,
}
use mcsos.Bitmap.{bitmap_set, bitmap_clear, bitmap_test}
use mcsos.Bitmap.Count.{clear_count}
use mcsos.Pmm.{
  PmmState, BootMemRegion, zeroed, page_size, init_from_map, load_map, all_used, free_usable,
  reserve_others, fill_ones, mark_range_free, mark_range_used, free_between, reserve_between,
  pages_between, free_pages, reserve_pages, reserve_frame, mark_frame_free, mark_frame_used,
  align_up, align_down, checked_add_u64, alloc_frame, find_clear, take_frame, free_frame,
  reserve_range, is_frame_free,
}
use mcsos.Pmm.Invariant.{IsValid}
use mcsos.Pmm.Alloc.{Allocated, alloc_frame-Allocated}
use mcsos.Pmm.Free.{free_frame-alloc_frame}
use mcsos.Pmm.Ranges.{Wrote, page_touched, mark_range_free-last_page, mark_range_used-last_page}
use mcsos.Pmm.Reserve.{reserve_range-is_frame_free}
use mcsos.Pmm.MemoryMap.{Mapped, init_from_map-Mapped}

-- All memory usable, less a kernel image in frame 3.
abbrev whole : BootMemRegion
whole = record { base = 0; len = 0x10000; kind = 1 }

abbrev kernel : BootMemRegion
kernel = record { base = 0x3000; len = 0x800; kind = 4 }

abbrev storage : List ℕ
storage = 0 ∷ 0 ∷ []

-- Frames 0 and 3 in use.
abbrev booted : PmmState
booted = record {
  bitmap = 0x09 ∷ 0x00 ∷ [];
  bitmap_bytes = 2;
  max_phys = 0x10000;
  frame_count = 16;
  free_frames = 14;
  used_frames = 2;
  reserved_frames = 2;
  ignored_frames = 0;
  next_hint = 0;
  initialized = true;
}

boots :
    init_from_map (some zeroed) (some (whole ∷ kernel ∷ [])) (some storage) 2 0x10000
    ≡ (some booted, true)
unfolding init_from_map load_map all_used free_usable reserve_others fill_ones mark_range_free
    mark_range_used free_between reserve_between pages_between free_pages reserve_pages
    reserve_frame mark_frame_free mark_frame_used align_up align_down checked_add_u64 bitmap_set
    bitmap_clear bitmap_test
boots = refl

first_allocation : (alloc_frame (some booted)).1 ≡ 0x1000
unfolding alloc_frame find_clear take_frame bitmap_test
first_allocation = refl

booted-IsValid : IsValid booted
unfolding clear_count bitmap_test
booted-IsValid = record {
  whole_pages = refl;
  bounded = omega arith;
  storage = omega arith;
  free_counted = refl;
  used_counted = refl;
  hint_low = λ f h. absurd (omega arith);
  hint_in = omega arith;
}

init_from_map-Mapped_example :
    (q : PmmState) × (init_from_map
        (some zeroed)
        (some (whole ∷ kernel ∷ []))
        (some storage)
        2
        0x10000
      ≡ (some q, true))
    × Mapped (whole ∷ kernel ∷ []) 0x10000 q
init_from_map-Mapped_example =
    init_from_map-Mapped zeroed whole (kernel ∷ []) storage 2 0x10000 (omega arith) (omega arith)
      (omega arith) refl (omega arith) (omega arith)

alloc_frame-Allocated_example :
    (f : ℕ) × (q : PmmState) × (alloc_frame (some booted) ≡ (some q, f * page_size))
    × Allocated booted f q
alloc_frame-Allocated_example = alloc_frame-Allocated booted-IsValid refl (omega arith)

free_frame-alloc_frame_example :
    (q : PmmState) × (addr : ℕ) × (r : PmmState) × (alloc_frame (some booted) ≡ (some q, addr))
    × (free_frame (some q) addr ≡ (some r, true))
    × ((j : ℕ) → bitmap_test r.bitmap j ≡ bitmap_test booted.bitmap j)
    × (r.free_frames ≡ 14)
    × (free_frame (some r) addr ≡ (some r, false))
unfolding bitmap_test
free_frame-alloc_frame_example = free_frame-alloc_frame booted-IsValid refl refl (omega arith)

reserve_range-is_frame_free_example :
    (q : PmmState) × (reserve_range (some booted) 0x1800 0x1000 ≡ (some q, true))
    × IsValid q
    × ((j : ℕ)
        → j < 16
        → is_frame_free (some q) (j * page_size) ≡ (
            if page_touched 0x1800 0x1000 j
            then false
            else is_frame_free (some booted) (j * page_size)))
reserve_range-is_frame_free_example =
    reserve_range-is_frame_free booted-IsValid refl 0x1800 0x1000 (omega arith) (omega arith)

mark_range_free-last_page_example :
    Wrote false (λ _. true) booted (mark_range_free booted (2 ^ 64 - 16) 8)
mark_range_free-last_page_example =
    mark_range_free-last_page booted-IsValid (2 ^ 64 - 16) 8 (omega arith) (omega arith)
      (omega arith)

mark_range_used-last_page_example : mark_range_used booted 0x1000 (2 ^ 64 - 0x1001) ≡ booted
mark_range_used-last_page_example =
    mark_range_used-last_page booted 0x1000 (2 ^ 64 - 0x1001) (omega arith) (omega arith)
      (omega arith)
