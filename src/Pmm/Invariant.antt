-- ===== src/Pmm/Invariant.antt =====
-- The representation invariant of `struct pmm_state`, and the two functions that change one frame.
use mcsos.Common.{
  ℕ, ◌+◌, ◌*◌, ◌/◌, ◌^◌, ◌≤◌, ◌<◌, ◌≡◌, ◌≢◌, refl, true, false, inl, inr, arith, ◌==◌,
  if◌then◌else◌, Bool-cases, length, ◌∙◌,
}
use mcsos.Bitmap.{bitmap_clear, bitmap_test}
use mcsos.Bitmap.Laws.{
  bitmap_test-bitmap_set, bitmap_test-bitmap_clear, length-bitmap_set, length-bitmap_clear,
}
use mcsos.Bitmap.Count.{
  clear_count, clear_count-le, clear_count-bitmap_set, clear_count-bitmap_clear, clear_count-pos,
}
use mcsos.Pmm.{PmmState, page_size, mark_frame_free, mark_frame_used, reserve_frame}

pub record IsValid (p : PmmState) : Type 0 where
  pub whole_pages : p.max_phys ≡ p.frame_count * page_size
  pub bounded : p.max_phys < 2 ^ 64
  pub storage : p.frame_count ≤ 8 * length p.bitmap
  pub free_counted : p.free_frames ≡ clear_count p.bitmap p.frame_count
  pub used_counted : p.used_frames + p.free_frames ≡ p.frame_count
  pub hint_low : (f : ℕ) → f < p.next_hint → bitmap_test p.bitmap f ≡ true
  pub hint_in : p.next_hint ≤ p.frame_count

-- Every frame of the state has its bit inside the storage.
pub frame_inside :
    {p : PmmState} → IsValid p → (f : ℕ) → f < p.frame_count → f / 8 < length p.bitmap
frame_inside v f h = omega arith

-- What a function that changes the bitmap leaves alone.
pub record SameShape (p q : PmmState) : Type 0 where
  pub max_phys : q.max_phys ≡ p.max_phys
  pub frame_count : q.frame_count ≡ p.frame_count
  pub initialized : q.initialized ≡ p.initialized

pub SameShape-refl : (p : PmmState) → SameShape p p
SameShape-refl p = record { max_phys = refl; frame_count = refl; initialized = refl }

pub SameShape-trans : {p q r : PmmState} → SameShape p q → SameShape q r → SameShape p r
SameShape-trans s t = record {
  max_phys = t.max_phys ∙ s.max_phys;
  frame_count = t.frame_count ∙ s.frame_count;
  initialized = t.initialized ∙ s.initialized;
}

pub mark_frame_used-SameShape : (p : PmmState) (f : ℕ) → SameShape p (mark_frame_used p f)
unfolding mark_frame_used
mark_frame_used-SameShape p f = ground arith

pub mark_frame_free-SameShape : (p : PmmState) (f : ℕ) → SameShape p (mark_frame_free p f)
unfolding mark_frame_free
mark_frame_free-SameShape p f = ground arith

pub reserve_frame-SameShape : (p : PmmState) (f : ℕ) → SameShape p (reserve_frame p f)
unfolding reserve_frame
reserve_frame-SameShape p f = ground (arith, mark_frame_used-SameShape p f)

-- Every bit after a frame was marked.
pub test-mark_frame_used :
    {p : PmmState}
    → IsValid p
    → (f : ℕ) → f < p.frame_count
    → (g : ℕ)
    → bitmap_test (mark_frame_used p f).bitmap g ≡ (if f == g then true else bitmap_test p.bitmap g)
unfolding mark_frame_used
test-mark_frame_used {p} v f h g =
    ground (arith, bitmap_test-bitmap_set p.bitmap f g (frame_inside v f h))

pub test-mark_frame_free :
    {p : PmmState}
    → IsValid p
    → (f : ℕ) → f < p.frame_count
    → (g : ℕ)
    → bitmap_test (mark_frame_free p f).bitmap g
      ≡ (if f == g then false else bitmap_test p.bitmap g)
unfolding mark_frame_free
test-mark_frame_free {p} v f h g =
    ground (arith, bitmap_test-bitmap_clear p.bitmap f g (frame_inside v f h))

-- The fields of the invariant that are about numbers.
record Counted (q : PmmState) : Type 0 where
  storage : q.frame_count ≤ 8 * length q.bitmap
  free_counted : q.free_frames ≡ clear_count q.bitmap q.frame_count
  used_counted : q.used_frames + q.free_frames ≡ q.frame_count

mark_frame_used-Counted :
    {p : PmmState} → IsValid p → (f : ℕ) → f < p.frame_count → Counted (mark_frame_used p f)
unfolding mark_frame_used
mark_frame_used-Counted {p} v f h = ground (
  arith,
  length-bitmap_set p.bitmap f,
  clear_count-pos p.bitmap p.frame_count f,
  clear_count-bitmap_set p.bitmap f (frame_inside v f h) p.frame_count,
)

mark_frame_free-Counted :
    {p : PmmState} → IsValid p → (f : ℕ) → f < p.frame_count → Counted (mark_frame_free p f)
unfolding mark_frame_free
mark_frame_free-Counted {p} v f h = ground (
  arith,
  length-bitmap_clear p.bitmap f,
  clear_count-le (bitmap_clear p.bitmap f) p.frame_count,
  clear_count-bitmap_clear p.bitmap f (frame_inside v f h) p.frame_count,
)

hint-mark_frame_used : (p : PmmState) (f : ℕ) → (mark_frame_used p f).next_hint ≡ p.next_hint
unfolding mark_frame_used
hint-mark_frame_used p f = ground arith

-- After a frame was freed the hint is not above it, nor above the old hint.
hint-mark_frame_free :
    {p : PmmState}
    → IsValid p
    → (f g : ℕ) → f < p.frame_count
    → g < (mark_frame_free p f).next_hint
    → (g < p.next_hint) × (f ≢ g)
unfolding mark_frame_free
hint-mark_frame_free {p} v f g h lt = ground (arith, v.hint_low f)

hint-mark_frame_free-le :
    {p : PmmState} → IsValid p → (f : ℕ) → (mark_frame_free p f).next_hint ≤ p.next_hint
unfolding mark_frame_free
hint-mark_frame_free-le {p} v f = ground arith

module _ {p : PmmState} (v : IsValid p) {q : PmmState} (same : SameShape p q) (c : Counted q) where
  IsValid-after :
      q.next_hint ≤ p.next_hint
      → ((g : ℕ) → g < q.next_hint → bitmap_test q.bitmap g ≡ true)
      → IsValid q
  IsValid-after le low = record {
    whole_pages = omega (arith, same, v);
    bounded = omega (arith, same, v);
    storage = c.storage;
    free_counted = c.free_counted;
    used_counted = c.used_counted;
    hint_low = low;
    hint_in = omega (arith, same, v);
  }

pub mark_frame_used-IsValid :
    {p : PmmState} → IsValid p → (f : ℕ) → f < p.frame_count → IsValid (mark_frame_used p f)
mark_frame_used-IsValid {p} v f h =
    IsValid-after v (mark_frame_used-SameShape p f) (mark_frame_used-Counted v f h)
      (omega (arith, hint-mark_frame_used p f))
      (λ g lt. ground (arith, test-mark_frame_used v f h g, hint-mark_frame_used p f, v.hint_low g))

pub mark_frame_free-IsValid :
    {p : PmmState} → IsValid p → (f : ℕ) → f < p.frame_count → IsValid (mark_frame_free p f)
mark_frame_free-IsValid {p} v f h =
    IsValid-after v (mark_frame_free-SameShape p f) (mark_frame_free-Counted v f h)
      (hint-mark_frame_free-le v f)
      (λ g lt.
        ground (arith, test-mark_frame_free v f h g, hint-mark_frame_free v f g h lt, v.hint_low g))

-- The statistic `reserved_frames` is not part of the invariant.
with_reserved-IsValid :
    {q : PmmState} (n : ℕ) → IsValid q → IsValid (record q { reserved_frames = n })
with_reserved-IsValid n v = record {
  whole_pages = v.whole_pages;
  bounded = v.bounded;
  storage = v.storage;
  free_counted = v.free_counted;
  used_counted = v.used_counted;
  hint_low = v.hint_low;
  hint_in = v.hint_in;
}

pub reserve_frame-IsValid :
    {p : PmmState} → IsValid p → (f : ℕ) → f < p.frame_count → IsValid (reserve_frame p f)
unfolding reserve_frame
reserve_frame-IsValid {p} v f h = elim (Bool-cases (bitmap_test p.bitmap f)) [
  | inl e ↦ rw e (mark_frame_used-IsValid v f h)
  | inr e ↦ rw e (with_reserved-IsValid _ (mark_frame_used-IsValid v f h))
]

pub test-reserve_frame :
    {p : PmmState}
    → IsValid p
    → (f : ℕ) → f < p.frame_count
    → (g : ℕ)
    → bitmap_test (reserve_frame p f).bitmap g ≡ (if f == g then true else bitmap_test p.bitmap g)
unfolding reserve_frame
test-reserve_frame {p} v f h g = ground (arith, test-mark_frame_used v f h g)
