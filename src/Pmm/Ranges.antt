-- ===== src/Pmm/Ranges.antt =====
-- `mark_range_free` and `mark_range_used`: which frames a range of bytes frees or reserves.
use mcsos.Common.{
  ℕ, zero, suc, ◌+◌, ◌-◌, ◌*◌, ◌/◌, ◌%◌, ◌^◌, ◌≤◌, ◌<◌, ◌≡◌, refl, Bool, true, false, inl, inr,
  arith, ltb, leb, ◌==◌, if◌then◌else◌, Bool-cases, dec_lt, ◌&&◌, ◌||◌, none, some, ne→==,
}
use mcsos.Bitmap.{bitmap_test}
use mcsos.Pmm.{
  PmmState, page_size, align_down, align_up, checked_add_u64, mark_frame_free, pages_between,
  free_pages, free_between, reserve_between, mark_range_free, reserve_frame, reserve_pages,
  mark_range_used,
}
use mcsos.Pmm.Invariant.{
  IsValid, SameShape, SameShape-refl, SameShape-trans, mark_frame_free-IsValid,
  mark_frame_free-SameShape, test-mark_frame_free, reserve_frame-IsValid, reserve_frame-SameShape,
  test-reserve_frame,
}

abbrev in_range : ℕ → ℕ → ℕ → Bool
in_range k n j = leb k j && ltb j (k + n)

-- `q` is `p` with the bits of a set of frames written to `b`.
pub record Wrote (b : Bool) (frames : ℕ → Bool) (p q : PmmState) : Type 0 where
  pub valid : IsValid q
  pub shape : SameShape p q
  pub bits :
      (j : ℕ)
      → j < p.frame_count
      → bitmap_test q.bitmap j ≡ (if frames j then b else bitmap_test p.bitmap j)

Wrote_nothing :
    {b : Bool} {frames : ℕ → Bool} {p : PmmState}
    → IsValid p
    → ((j : ℕ) → j < p.frame_count → frames j ≡ false)
    → Wrote b frames p p
Wrote_nothing {p = p} v h = record {
  valid = v;
  shape = SameShape-refl p;
  bits = λ j lt. ground (arith, h j lt);
}

-- Frames that agree within the memory give the same writes.
Wrote_agree :
    {b : Bool} {fs gs : ℕ → Bool} {p q : PmmState}
    → Wrote b fs p q
    → ((j : ℕ) → j < p.frame_count → fs j ≡ gs j)
    → Wrote b gs p q
Wrote_agree w h = record {
  valid = w.valid;
  shape = w.shape;
  bits = λ j lt. ground (arith, h j lt, w.bits j lt);
}

-- One round of a loop, then the rest of it.
Wrote_step :
    {b : Bool} {p q r : PmmState} (n k : ℕ)
    → SameShape p q
    → ((j : ℕ) → bitmap_test q.bitmap j ≡ (if k == j then b else bitmap_test p.bitmap j))
    → Wrote b (in_range (k + 1) n) q r
    → Wrote b (in_range k (suc n)) p r
Wrote_step n k same first rest = record {
  valid = rest.valid;
  shape = SameShape-trans same rest.shape;
  bits = λ j lt. ground (arith, same, rest.bits j, first j);
}

free_pages_lem :
    (n k addr : ℕ) (p : PmmState)
    → addr ≡ k * page_size
    → k + n ≤ p.frame_count
    → IsValid p
    → Wrote false (in_range k n) p (free_pages n addr p)
unfolding free_pages
free_pages_lem zero k addr p e h v = Wrote_nothing v (λ j lt. ground arith)
free_pages_lem (suc n) k addr p e h v =
    let ek : addr / page_size ≡ k = omega arith in
    let same : SameShape p (mark_frame_free p k) = mark_frame_free-SameShape p k in
    rw ek (
      Wrote_step n k same (test-mark_frame_free v k (omega arith)) (
        free_pages_lem n (k + 1) (addr + page_size) (mark_frame_free p k) (omega arith)
          (omega (arith, same)) (mark_frame_free-IsValid v k (omega arith))))

reserve_pages_lem :
    (n k addr : ℕ) (p : PmmState)
    → addr ≡ k * page_size
    → k + n ≤ p.frame_count
    → IsValid p
    → Wrote true (in_range k n) p (reserve_pages n addr p)
unfolding reserve_pages
reserve_pages_lem zero k addr p e h v = Wrote_nothing v (λ j lt. ground arith)
reserve_pages_lem (suc n) k addr p e h v =
    let ek : addr / page_size ≡ k = omega arith in
    let same : SameShape p (reserve_frame p k) = reserve_frame-SameShape p k in
    rw ek (
      Wrote_step n k same (test-reserve_frame v k (omega arith)) (
        reserve_pages_lem n (k + 1) (addr + page_size) (reserve_frame p k) (omega arith)
          (omega (arith, same)) (reserve_frame-IsValid v k (omega arith))))

-- The whole page `j` lies in the `len` bytes from `base`; some byte of it does.
abbrev pub page_inside : ℕ → ℕ → ℕ → Bool
page_inside base len j = leb base (j * page_size) && leb (j * page_size + page_size) (base + len)

abbrev pub page_touched : ℕ → ℕ → ℕ → Bool
page_touched base len j =
    ltb 0 len && (ltb (j * page_size) (base + len) && ltb base (j * page_size + page_size))

checked_add_u64-fits : (a b : ℕ) → a + b < 2 ^ 64 → checked_add_u64 a b ≡ some (a + b)
unfolding checked_add_u64
checked_add_u64-fits a b h = ground arith

checked_add_u64-wraps : (a b : ℕ) → a < 2 ^ 64 → 2 ^ 64 ≤ a + b → checked_add_u64 a b ≡ none
unfolding checked_add_u64
checked_add_u64-wraps a b ha h = ground arith

-- The statistic `ignored_frames` is not part of the invariant.
with_ignored :
    {b : Bool} {fs : ℕ → Bool} {p q : PmmState} (n : ℕ)
    → Wrote b fs (record p { ignored_frames = n }) q
    → Wrote b fs p q
with_ignored n w = record {
  valid = w.valid;
  shape = record {
    max_phys = w.shape.max_phys;
    frame_count = w.shape.frame_count;
    initialized = w.shape.initialized;
  };
  bits = w.bits;
}

with_ignored-IsValid :
    {q : PmmState} (n : ℕ) → IsValid q → IsValid (record q { ignored_frames = n })
with_ignored-IsValid n v = record {
  whole_pages = v.whole_pages;
  bounded = v.bounded;
  storage = v.storage;
  free_counted = v.free_counted;
  used_counted = v.used_counted;
  hint_low = v.hint_low;
  hint_in = v.hint_in;
}

-- The frames from `k` up to `m`.
abbrev between : ℕ → ℕ → ℕ → Bool
between k m j = leb k j && ltb j m

pages_between-pages : (k m : ℕ) → pages_between (k * page_size) (m * page_size) ≡ m - k
unfolding pages_between
pages_between-pages k m = omega arith

module _ {p : PmmState} (v : IsValid p) (k m start stop : ℕ) (es : start ≡ k * page_size) where
  free_run :
      stop ≡ m * page_size
      → m ≤ p.frame_count
      → k ≤ m
      → Wrote false (between k m) p (free_pages (pages_between start stop) start p)
  free_run et hm hk =
      rw (es, et, pages_between-pages k m)
        (Wrote_agree (free_pages_lem (m - k) k (k * page_size) p refl (omega arith) v)
          (λ j lt. ground arith))

  reserve_run :
      stop ≡ m * page_size
      → m ≤ p.frame_count
      → k ≤ m
      → Wrote true (between k m) p (reserve_pages (pages_between start stop) start p)
  reserve_run et hm hk =
      rw (es, et, pages_between-pages k m)
        (Wrote_agree (reserve_pages_lem (m - k) k (k * page_size) p refl (omega arith) v)
          (λ j lt. ground arith))

-- The comparisons of the code, made on page numbers.
module _ {p : PmmState} (v : IsValid p) (k m start stop : ℕ) (es : start ≡ k * page_size)
    (et : stop ≡ m * page_size) where
  nothing_between :
      {b : Bool} → (leb stop start || leb p.max_phys start) ≡ true → Wrote b (between k m) p p
  nothing_between h = Wrote_nothing v (λ j lt. ground (arith, v))

  free_between_lem : Wrote false (between k m) p (free_between p start stop)
  unfolding free_between
  free_between_lem = elim (Bool-cases (leb stop start || leb p.max_phys start)) [
    | inl out ↦ rw out (nothing_between out)
    | inr inside ↦ rw inside (elim (Bool-cases (ltb p.max_phys stop)) [
      | inl over ↦ rw over (
          Wrote_agree
            (with_ignored _ (
              free_run (with_ignored-IsValid _ v) k p.frame_count start p.max_phys es v.whole_pages
                (omega arith) (ground (arith, v))))
            (λ j lt. ground (arith, v)))
      | inr fits ↦ rw fits (free_run v k m start stop es et (ground (arith, v)) (ground arith))
    ])
  ]

  reserve_between_lem : Wrote true (between k m) p (reserve_between p start stop)
  unfolding reserve_between
  reserve_between_lem = elim (Bool-cases (leb stop start || leb p.max_phys start)) [
    | inl out ↦ rw out (nothing_between out)
    | inr inside ↦ rw inside (elim (Bool-cases (ltb p.max_phys stop)) [
      | inl over ↦ rw over (
          Wrote_agree
            (reserve_run v k p.frame_count start p.max_phys es v.whole_pages (omega arith)
              (ground (arith, v)))
            (λ j lt. ground (arith, v)))
      | inr fits ↦ rw fits (reserve_run v k m start stop es et (ground (arith, v)) (ground arith))
    ])
  ]

-- `mark_range_free` frees exactly the frames of the memory whose whole page lies in the range, and
-- keeps the invariant, if the sum of base and length does not wrap and the base is not in the last
-- page of the address space.
pub mark_range_free_lem :
    {p : PmmState}
    → IsValid p
    → (base len : ℕ) → base ≤ 2 ^ 64 - page_size
    → base + len < 2 ^ 64
    → Wrote false (page_inside base len) p (mark_range_free p base len)
unfolding mark_range_free align_up align_down
mark_range_free_lem {p} v base zero hb hl = Wrote_nothing v (λ j lt. ground arith)
mark_range_free_lem {p} v base (suc l) hb hl =
    rw (ne→== (suc l) 0 (omega arith), checked_add_u64-fits base (suc l) hl)
      (Wrote_agree
        (free_between_lem v ((base + page_size - 1) % 2 ^ 64 / page_size)
          ((base + suc l) / page_size) _ _ refl refl)
        (λ j lt. ground arith))

-- `mark_range_used` reserves exactly the frames of the memory that the range touches, and keeps the
-- invariant, if the range ends below the last page of the address space.
pub mark_range_used_lem :
    {p : PmmState}
    → IsValid p
    → (base len : ℕ) → base + len ≤ 2 ^ 64 - page_size
    → Wrote true (page_touched base len) p (mark_range_used p base len)
unfolding mark_range_used align_up align_down
mark_range_used_lem {p} v base zero hl = Wrote_nothing v (λ j lt. ground arith)
mark_range_used_lem {p} v base (suc l) hl =
    rw (ne→== (suc l) 0 (omega arith), checked_add_u64-fits base (suc l) (omega arith))
      (Wrote_agree
        (reserve_between_lem v (base / page_size)
          ((base + suc l + page_size - 1) % 2 ^ 64 / page_size) _ _ refl refl)
        (λ j lt. ground arith))

-- On a valid state, a usable range that is not empty, starts inside the last page of the address
-- space, past that page's first byte, and ends in the address space frees every frame of the memory.
pub mark_range_free-last_page :
    {p : PmmState}
    → IsValid p
    → (base len : ℕ) → 2 ^ 64 - page_size < base
    → 0 < len
    → base + len < 2 ^ 64
    → Wrote false (λ _. true) p (mark_range_free p base len)
unfolding mark_range_free align_up align_down
mark_range_free-last_page {p} v base len hb h0 hl =
    rw (ne→== len 0 (omega arith), checked_add_u64-fits base len hl)
      (Wrote_agree
        (free_between_lem v ((base + page_size - 1) % 2 ^ 64 / page_size) ((base + len) / page_size)
          _ _ refl refl)
        (λ j lt. ground (arith, v)))

-- Reserving a range that is not empty, starts in the address space and reaches into its last page
-- leaves the state as it was.
pub mark_range_used-last_page :
    (p : PmmState) (base len : ℕ)
    → base < 2 ^ 64
    → 0 < len
    → 2 ^ 64 - page_size < base + len
    → mark_range_used p base len ≡ p
unfolding mark_range_used align_up align_down reserve_between
mark_range_used-last_page p base len hb h0 hl = elim (dec_lt (base + len) (2 ^ 64)) [
  | yes fits ↦ rw (ne→== len 0 (omega arith), checked_add_u64-fits base len fits) (ground arith)
  | no wraps ↦ rw (ne→== len 0 (omega arith), checked_add_u64-wraps base len hb (omega arith))
]
