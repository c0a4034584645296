-- ===== src/Pmm/Reserve.antt =====
-- `pmm_reserve_range` as `pmm_is_frame_free` sees it.
use mcsos.Common.{
  ℕ, ◌+◌, ◌-◌, ◌*◌, ◌/◌, ◌^◌, ◌≤◌, ◌<◌, ◌≡◌, refl, true, false, arith, if◌then◌else◌, some, not,
  ◌∙◌,
}
use mcsos.Bitmap.{bitmap_test}
use mcsos.Pmm.{PmmState, page_size, mark_range_used, reserve_range, is_frame_free}
use mcsos.Pmm.Invariant.{IsValid}
use mcsos.Pmm.Ranges.{page_touched, mark_range_used_lem}

is_frame_free-test :
    {p : PmmState}
    → IsValid p
    → p.initialized ≡ true
    → (j a : ℕ) → a ≡ j * page_size
    → j < p.frame_count
    → is_frame_free (some p) a ≡ not (bitmap_test p.bitmap j)
unfolding is_frame_free
is_frame_free-test {p} v hi j a ea h =
    let ej : a / page_size ≡ j = omega arith in rw ej (ground (arith, v))

reserve_range-eq :
    (p : PmmState) (base len : ℕ)
    → p.initialized ≡ true
    → 0 < len
    → reserve_range (some p) base len ≡ (some (mark_range_used p base len), true)
unfolding reserve_range
reserve_range-eq p base len hi h = ground arith

-- On a valid initialised state, reserving a non-empty range that ends below the last page of the
-- address space succeeds and leaves a valid state, in which a frame of the memory is free exactly
-- when it was free before and the range touches none of its bytes.
pub reserve_range-is_frame_free :
    {p : PmmState}
    → IsValid p
    → p.initialized ≡ true
    → (base len : ℕ) → 0 < len
    → base + len ≤ 2 ^ 64 - page_size
    → (q : PmmState) × (reserve_range (some p) base len ≡ (some q, true))
      × IsValid q
      × ((j : ℕ)
          → j < p.frame_count
          → is_frame_free (some q) (j * page_size)
            ≡ (if page_touched base len j then false else is_frame_free (some p) (j * page_size)))
reserve_range-is_frame_free {p} v hi base len h0 h =
    let w = mark_range_used_lem v base len h in
    (
      mark_range_used p base len,
      reserve_range-eq p base len hi h0,
      w.valid,
      λ j lt. ground (
        arith,
        w.bits j,
        w.shape,
        is_frame_free-test v hi j (j * page_size) refl,
        is_frame_free-test w.valid (w.shape.initialized ∙ hi) j (j * page_size) refl,
      ),
    )
