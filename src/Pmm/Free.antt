-- ===== src/Pmm/Free.antt =====
-- `pmm_free_frame`: what it accepts, what it changes, and how it undoes `pmm_alloc_frame`.
use mcsos.Common.{
  ℕ, ◌+◌, ◌*◌, ◌/◌, ◌%◌, ◌≤◌, ◌<◌, ◌≡◌, refl, true, false, inr, arith, if◌then◌else◌, some, ◌==◌,
  ◌≢◌, ◌⊎◌, ◌∙◌,
}
use mcsos.Bitmap.{bitmap_test}
use mcsos.Pmm.{PmmState, page_size, mark_frame_free, alloc_frame, free_frame}
use mcsos.Pmm.Invariant.{
  IsValid, SameShape, mark_frame_free-IsValid, mark_frame_free-SameShape, test-mark_frame_free,
}
use mcsos.Pmm.Alloc.{Allocated, alloc_frame-Allocated}

-- A frame given back: that frame alone is free again.
pub record Freed (p : PmmState) (frame : ℕ) (q : PmmState) : Type 0 where
  pub valid : IsValid q
  pub shape : SameShape p q
  pub bits :
      (j : ℕ) → bitmap_test q.bitmap j ≡ (if frame == j then false else bitmap_test p.bitmap j)
  pub counted : q.free_frames ≡ p.free_frames + 1

free_frames-mark_frame_free :
    {p : PmmState}
    → IsValid p
    → (f : ℕ) → f < p.frame_count
    → bitmap_test p.bitmap f ≡ true
    → (mark_frame_free p f).free_frames ≡ p.free_frames + 1
unfolding mark_frame_free
free_frames-mark_frame_free {p} v f h e = ground arith

free_frame-accepts :
    {p : PmmState}
    → IsValid p
    → p.initialized ≡ true
    → (f a : ℕ) → a ≡ f * page_size
    → 0 < f
    → f < p.frame_count
    → bitmap_test p.bitmap f ≡ true
    → free_frame (some p) a ≡ (some (mark_frame_free p f), true)
unfolding free_frame
free_frame-accepts {p} v hi f a ea h0 hf e =
    let ef : a / page_size ≡ f = omega arith in rw ef (ground (arith, v))

-- The address of a frame that is in use, other than frame 0, is accepted: the frame is free
-- afterwards, no other frame changes, it is counted, and the state stays valid.
free_frame-Freed :
    {p : PmmState}
    → IsValid p
    → p.initialized ≡ true
    → (f : ℕ) → 0 < f
    → f < p.frame_count
    → bitmap_test p.bitmap f ≡ true
    → (q : PmmState) × (free_frame (some p) (f * page_size) ≡ (some q, true)) × Freed p f q
free_frame-Freed {p} v hi f h0 hf e = (
  mark_frame_free p f,
  free_frame-accepts v hi f _ refl h0 hf e,
  record {
    valid = mark_frame_free-IsValid v f hf;
    shape = mark_frame_free-SameShape p f;
    bits = test-mark_frame_free v f hf;
    counted = free_frames-mark_frame_free v f hf e;
  },
)

-- Every other address is refused and nothing changes: one that is not aligned to a page, the null
-- address, one outside the memory, and one whose frame is free already.
pub free_frame-refuses :
    (p : PmmState) (addr : ℕ)
    → (addr % page_size ≢ 0)
      ⊎ ((addr ≡ 0) ⊎ ((p.max_phys ≤ addr) ⊎ (bitmap_test p.bitmap (addr / page_size) ≡ false)))
    → free_frame (some p) addr ≡ (some p, false)
unfolding free_frame
free_frame-refuses p addr h = ground arith

Freed-again :
    {p q : PmmState} (f : ℕ)
    → p.initialized ≡ true
    → bitmap_test p.bitmap 0 ≡ true
    → Allocated p f q
    → (r : PmmState) × (free_frame (some q) (f * page_size) ≡ (some r, true)) × Freed q f r
Freed-again f hi h0 a =
    free_frame-Freed a.valid (a.shape.initialized ∙ hi) f (ground (arith, a.was_free))
      (omega (arith, a.in_memory, a.shape.frame_count)) (ground (arith, a.bits f))

Freed-refuses :
    {p q : PmmState} (f : ℕ) → Freed p f q → free_frame (some q) (f * page_size) ≡ (some q, false)
Freed-refuses {q = q} f freed =
    let ef : f * page_size / page_size ≡ f = omega arith in
    free_frame-refuses q (f * page_size) (inr (inr (inr (rw ef (ground (arith, freed.bits f))))))

-- On a valid initialised state with a free frame, and with frame 0 in use, an allocation followed by
-- freeing the returned address succeeds, leaves every frame as it was, and restores the count;
-- freeing the address once more is refused.
pub free_frame-alloc_frame :
    {p : PmmState}
    → IsValid p
    → p.initialized ≡ true
    → bitmap_test p.bitmap 0 ≡ true
    → p.free_frames ≢ 0
    → (q : PmmState) × (addr : ℕ) × (r : PmmState) × (alloc_frame (some p) ≡ (some q, addr))
      × (free_frame (some q) addr ≡ (some r, true))
      × ((j : ℕ) → bitmap_test r.bitmap j ≡ bitmap_test p.bitmap j)
      × (r.free_frames ≡ p.free_frames)
      × (free_frame (some r) addr ≡ (some r, false))
free_frame-alloc_frame {p} v hi h0 hf =
    let (f, q, allocated, a) = alloc_frame-Allocated v hi hf in
    let (r, accepted, freed) = Freed-again f hi h0 a in
    (
      q,
      f * page_size,
      r,
      allocated,
      accepted,
      λ j. ground (arith, freed.bits j, a.bits j, a.was_free),
      omega (arith, freed.counted, a.counted),
      Freed-refuses f freed,
    )
