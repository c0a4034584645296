-- ===== src/Pmm/Alloc.antt =====
-- `pmm_alloc_frame`: it hands out the lowest free frame.
use mcsos.Common.{
  ℕ, zero, suc, ◌+◌, ◌-◌, ◌*◌, ◌%◌, ◌^◌, ◌≤◌, ◌<◌, ◌≡◌, refl, true, false, List, inl, inr, arith,
  if◌then◌else◌, Bool-cases, Option, none, some, ◌==◌, ◌≢◌, dec_lt, subst, sym, ◌∙◌, ◌⊎◌,
}
use mcsos.Bitmap.{bitmap_test}
use mcsos.Bitmap.Count.{clear_count-eq-zero, clear_count-pos}
use mcsos.Pmm.{
  PmmState, page_size, invalid_frame, mark_frame_used, find_clear, take_frame, alloc_frame,
}
use mcsos.Pmm.Invariant.{
  IsValid, SameShape, mark_frame_used-IsValid, mark_frame_used-SameShape, test-mark_frame_used,
}

-- What a scan of `n` bits from `f` on may answer.
abbrev FirstClear : List ℕ → ℕ → ℕ → Option ℕ → Type 0
FirstClear bm n f none = (j : ℕ) → f ≤ j → j < f + n → bitmap_test bm j ≡ true
FirstClear bm n f (some g) =
    (f ≤ g)
    × (g < f + n)
    × (bitmap_test bm g ≡ false)
    × ((j : ℕ) → f ≤ j → j < g → bitmap_test bm j ≡ true)

find_clear-later :
    (bm : List ℕ) (n f : ℕ) (o : Option ℕ)
    → bitmap_test bm f ≡ true
    → FirstClear bm n (f + 1) o
    → FirstClear bm (suc n) f o
find_clear-later bm n f none e h = λ j le lt. elim (dec_lt f j) [
  | yes p ↦ h j (omega arith) (omega arith)
  | no p ↦ let same : j ≡ f = omega arith in rw same e
]
find_clear-later bm n f (some g) e h = (
  omega (arith, h.0),
  omega (arith, h.1),
  h.2,
  λ j le lt. elim (dec_lt f j) [
    | yes p ↦ h.3 j (omega arith) lt
    | no p ↦ let same : j ≡ f = omega arith in rw same e
  ],
)

find_clear-used :
    (bm : List ℕ) (n f : ℕ)
    → bitmap_test bm f ≡ true
    → find_clear bm (suc n) f ≡ find_clear bm n (f + 1)
unfolding find_clear
find_clear-used bm n f e = ground arith

find_clear-clear :
    (bm : List ℕ) (n f : ℕ) → bitmap_test bm f ≡ false → find_clear bm (suc n) f ≡ some f
unfolding find_clear
find_clear-clear bm n f e = ground arith

find_clear_lem : (bm : List ℕ) (n f : ℕ) → FirstClear bm n f (find_clear bm n f)
unfolding find_clear
find_clear_lem bm zero f = λ j le lt. absurd (omega arith)
find_clear_lem bm (suc n) f = elim (Bool-cases (bitmap_test bm f)) [
  | inl e ↦
      subst (FirstClear bm (suc n) f) (sym (find_clear-used bm n f e))
        (find_clear-later bm n f (find_clear bm n (f + 1)) e (find_clear_lem bm n (f + 1)))
  | inr e ↦
      subst (FirstClear bm (suc n) f) (sym (find_clear-clear bm n f e))
        ((omega arith, omega arith, e, λ j le lt. absurd (omega arith)))
]

-- What a call hands out: the lowest free frame, with that frame alone marked used.
pub record Allocated (p : PmmState) (frame : ℕ) (q : PmmState) : Type 0 where
  pub in_memory : frame < p.frame_count
  pub was_free : bitmap_test p.bitmap frame ≡ false
  pub lowest : (j : ℕ) → j < frame → bitmap_test p.bitmap j ≡ true
  pub valid : IsValid q
  pub shape : SameShape p q
  pub bits :
      (j : ℕ) → bitmap_test q.bitmap j ≡ (if frame == j then true else bitmap_test p.bitmap j)
  pub counted : q.free_frames + 1 ≡ p.free_frames

free_frames-mark_frame_used :
    {p : PmmState}
    → IsValid p
    → (f : ℕ) → f < p.frame_count
    → bitmap_test p.bitmap f ≡ false
    → (mark_frame_used p f).free_frames + 1 ≡ p.free_frames
unfolding mark_frame_used
free_frames-mark_frame_used {p} v f h e = ground (arith, clear_count-pos p.bitmap p.frame_count f)

hint_after : PmmState → ℕ → PmmState
hint_after p f = record (mark_frame_used p f) { next_hint = (f + 1) % 2 ^ 64 }

take_frame_lem :
    {p : PmmState}
    → IsValid p
    → (f : ℕ) → f < p.frame_count
    → take_frame p f ≡ (some (hint_after p f), f * page_size)
unfolding take_frame hint_after
take_frame_lem v f h = ground (arith, v)

alloc_frame-found :
    (p : PmmState) (f : ℕ)
    → p.initialized ≡ true
    → p.free_frames ≢ 0
    → find_clear p.bitmap (p.frame_count - p.next_hint) p.next_hint ≡ some f
    → alloc_frame (some p) ≡ take_frame p f
unfolding alloc_frame
alloc_frame-found p f hi hf e = ground arith

module _ {p : PmmState} (v : IsValid p) where
  take_lowest :
      (f : ℕ)
      → f < p.frame_count
      → bitmap_test p.bitmap f ≡ false
      → ((j : ℕ) → j < f → bitmap_test p.bitmap j ≡ true)
      → Allocated p f (hint_after p f)
  unfolding hint_after
  take_lowest f h e low = record {
    in_memory = h;
    was_free = e;
    lowest = low;
    valid = record {
      whole_pages = w.whole_pages;
      bounded = w.bounded;
      storage = w.storage;
      free_counted = w.free_counted;
      used_counted = w.used_counted;
      hint_low = λ j lt. ground (arith, test-mark_frame_used v f h j, low j);
      hint_in = omega (arith, same, v);
    };
    shape = record {
      max_phys = same.max_phys;
      frame_count = same.frame_count;
      initialized = same.initialized;
    };
    bits = test-mark_frame_used v f h;
    counted = free_frames-mark_frame_used v f h e;
  }
    where
      w : IsValid (mark_frame_used p f)
      w = mark_frame_used-IsValid v f h

      same : SameShape p (mark_frame_used p f)
      same = mark_frame_used-SameShape p f

  -- The first loop finds a free frame if there is one: none stands below the hint.
  below_or_scanned :
      (j : ℕ) {k : ℕ}
      → ((i : ℕ) → p.next_hint ≤ i → i < k → bitmap_test p.bitmap i ≡ true)
      → j < k
      → bitmap_test p.bitmap j ≡ true
  below_or_scanned j h lt = elim (dec_lt j p.next_hint) [
    | yes b ↦ v.hint_low j b
    | no b ↦ h j (omega arith) lt
  ]

  none_free : FirstClear p.bitmap (p.frame_count - p.next_hint) p.next_hint none → p.free_frames ≡ 0
  none_free h =
      v.free_counted
      ∙ clear_count-eq-zero p.bitmap p.frame_count
          (λ j lt. below_or_scanned j (λ i le b. h i le (omega (arith, v))) lt)

  alloc_found :
      p.initialized ≡ true
      → p.free_frames ≢ 0
      → (o : Option ℕ) → find_clear p.bitmap (p.frame_count - p.next_hint) p.next_hint ≡ o
      → FirstClear p.bitmap (p.frame_count - p.next_hint) p.next_hint o
      → (f : ℕ) × (q : PmmState) × (alloc_frame (some p) ≡ (some q, f * page_size))
        × Allocated p f q
  alloc_found hi hf none e h = absurd (hf (none_free h))
  alloc_found hi hf (some f) e h =
      let here : f < p.frame_count = omega (arith, h.1, v) in
      (
        f,
        hint_after p f,
        alloc_frame-found p f hi hf e ∙ take_frame_lem v f here,
        take_lowest f here h.2 (λ j lt. below_or_scanned j h.3 lt),
      )

-- On a valid initialised state with a free frame a call returns the address of the lowest free frame, marks
-- that frame and no other, counts it, and leaves the state valid.
pub alloc_frame-Allocated :
    {p : PmmState}
    → IsValid p
    → p.initialized ≡ true
    → p.free_frames ≢ 0
    → (f : ℕ) × (q : PmmState) × (alloc_frame (some p) ≡ (some q, f * page_size)) × Allocated p f q
alloc_frame-Allocated {p} v hi hf =
    alloc_found v hi hf _ refl (find_clear_lem p.bitmap (p.frame_count - p.next_hint) p.next_hint)

-- Without a free frame a call returns the invalid address and changes nothing; so it does on a
-- state that was not initialised, and on the null pointer.
pub alloc_frame-none :
    (p : PmmState)
    → (p.initialized ≡ false) ⊎ (p.free_frames ≡ 0)
    → alloc_frame (some p) ≡ (some p, invalid_frame)
unfolding alloc_frame
alloc_frame-none p h = ground arith
