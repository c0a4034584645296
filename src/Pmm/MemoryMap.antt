-- ===== src/Pmm/MemoryMap.antt =====
-- `pmm_init_from_map`: which frames are free once the boot memory map was read.
use Prim.Native.Nat.{bit_and}
use mcsos.Common.{
  ℕ, zero, suc, ◌+◌, ◌-◌, ◌/◌, ◌%◌, ◌^◌, ◌≤◌, ◌<◌, ◌≡◌, refl, Bool, true, false, List, [], ◌∷◌, inl,
  inr, arith, if◌then◌else◌, Bool-cases, Option, none, some, ◌==◌, ◌!=◌, not, ◌||◌, ◌&&◌, ◌≢◌, leb,
  ltb, length, length-set, get_or, set, get_or-set_self, get_or-set_ne, ◌∙◌, sym, ◌⊎◌,
}
use mcsos.Bitmap.{bitmap_test, bit_mask}
use mcsos.Bitmap.Count.{clear_count-eq-zero}
use mcsos.Pmm.{
  PmmState, BootMemRegion, page_size, usable, fill_ones, all_used, free_usable, reserve_others,
  load_map, init_from_map, mark_range_free, mark_range_used,
}
use mcsos.Pmm.Invariant.{IsValid, SameShape-refl, SameShape-trans}
use mcsos.Pmm.Ranges.{Wrote, page_inside, page_touched, mark_range_free_lem, mark_range_used_lem}

length-fill_ones : (n i : ℕ) (bm : List ℕ) → length (fill_ones n i bm) ≡ length bm
unfolding fill_ones
length-fill_ones zero i bm = refl
length-fill_ones (suc n) i bm = length-fill_ones n (i + 1) (set bm i 0xff) ∙ length-set bm i 0xff

get_or-fill_ones :
    (n i j : ℕ) (bm : List ℕ)
    → i + n ≤ length bm
    → get_or (fill_ones n i bm) j 0 ≡ (if leb i j && ltb j (i + n) then 0xff else get_or bm j 0)
unfolding fill_ones
get_or-fill_ones zero i j bm h = ground arith
get_or-fill_ones (suc n) i j bm h = ground (
  arith,
  length-set bm i 0xff,
  get_or-fill_ones n (i + 1) j (set bm i 0xff),
  get_or-set_self bm i 0xff 0,
  get_or-set_ne bm i j 0xff 0,
)

ones_test : (k : ℕ) → k < 8 → (bit_and 0xff (bit_mask k) != 0) ≡ true
ones_test zero h = refl
ones_test (suc zero) h = refl
ones_test (suc (suc zero)) h = refl
ones_test (suc (suc (suc zero))) h = refl
ones_test (suc (suc (suc (suc zero)))) h = refl
ones_test (suc (suc (suc (suc (suc zero))))) h = refl
ones_test (suc (suc (suc (suc (suc (suc zero)))))) h = refl
ones_test (suc (suc (suc (suc (suc (suc (suc zero))))))) h = refl
ones_test (suc (suc (suc (suc (suc (suc (suc (suc k)))))))) h = absurd (omega arith)

test-fill_ones :
    (n j : ℕ) (bm : List ℕ) → n ≤ length bm → j / 8 < n → bitmap_test (fill_ones n 0 bm) j ≡ true
unfolding bitmap_test
test-fill_ones n j bm h lt =
    let e : get_or (fill_ones n 0 bm) (j / 8) 0 ≡ 0xff =
      ground (arith, get_or-fill_ones n 0 (j / 8) bm) in
    rw e (ones_test (j % 8) (omega arith))

all_used-IsValid :
    (bm : List ℕ) (max : ℕ)
    → max < 2 ^ 64
    → max % page_size ≡ 0
    → (max / page_size + 7) / 8 ≤ length bm
    → IsValid (all_used bm max)
      × ((j : ℕ) → j < max / page_size → bitmap_test (all_used bm max).bitmap j ≡ true)
unfolding all_used
all_used-IsValid bm max hm ha hs = (
  record {
    whole_pages = omega arith;
    bounded = hm;
    storage = omega (arith, length-fill_ones ((max / page_size + 7) / 8) 0 bm);
    free_counted = sym (clear_count-eq-zero _ (max / page_size) ones);
    used_counted = omega arith;
    hint_low = λ f lt. absurd (omega arith);
    hint_in = omega arith;
  },
  ones,
)
  where
    ones :
        (j : ℕ)
        → j < max / page_size
        → bitmap_test (fill_ones ((max / page_size + 7) / 8) 0 bm) j ≡ true
    ones j lt = test-fill_ones ((max / page_size + 7) / 8) j bm hs (omega arith)

-- Some usable region of the map covers the whole page `j`; some other region touches it.
abbrev pub covered : List BootMemRegion → ℕ → Bool
covered [] j = false
covered (r ∷ rs) j = (r.kind == usable && page_inside r.base r.len j) || covered rs j

abbrev pub spoiled : List BootMemRegion → ℕ → Bool
spoiled [] j = false
spoiled (r ∷ rs) j = (r.kind != usable && page_touched r.base r.len j) || spoiled rs j

-- No region reaches into the last page of the 64-bit address space.
abbrev pub EndBelowTop : List BootMemRegion → Type 0
EndBelowTop [] = Unit
EndBelowTop (r ∷ rs) = (r.base + r.len ≤ 2 ^ 64 - page_size) × EndBelowTop rs

Wrote_then :
    {b : Bool} {fs gs : ℕ → Bool} {p q r : PmmState}
    → Wrote b fs p q
    → Wrote b gs q r
    → Wrote b (λ j. fs j || gs j) p r
Wrote_then w u = record {
  valid = u.valid;
  shape = SameShape-trans w.shape u.shape;
  bits = λ j lt. ground (arith, w.shape, w.bits j, u.bits j);
}

Wrote_none : {b : Bool} {p : PmmState} → IsValid p → Wrote b (λ j. false) p p
Wrote_none {p = p} v = record { valid = v; shape = SameShape-refl p; bits = λ j lt. refl }

-- A region takes part in one of the two loops only.
one_usable :
    (p : PmmState) (r : BootMemRegion)
    → IsValid p
    → r.base + r.len ≤ 2 ^ 64 - page_size
    → Wrote false
        (λ j. r.kind == usable && page_inside r.base r.len j)
        p
        (if r.kind == usable then mark_range_free p r.base r.len else p)
one_usable p r v h = elim (Bool-cases (r.kind == usable)) [
  | inl e ↦ rw e (mark_range_free_lem v r.base r.len (omega arith) (omega arith))
  | inr e ↦ rw e (Wrote_none v)
]

one_other :
    (p : PmmState) (r : BootMemRegion)
    → IsValid p
    → r.base + r.len ≤ 2 ^ 64 - page_size
    → Wrote true
        (λ j. r.kind != usable && page_touched r.base r.len j)
        p
        (if r.kind != usable then mark_range_used p r.base r.len else p)
one_other p r v h = elim (Bool-cases (r.kind != usable)) [
  | inl e ↦ rw e (mark_range_used_lem v r.base r.len h)
  | inr e ↦ rw e (Wrote_none v)
]

free_usable_lem :
    (rs : List BootMemRegion) (p : PmmState)
    → EndBelowTop rs
    → IsValid p
    → Wrote false (covered rs) p (free_usable rs p)
unfolding free_usable
free_usable_lem [] p h v = Wrote_none v
free_usable_lem (r ∷ rs) p h v =
    let first = one_usable p r v h.0 in Wrote_then first (free_usable_lem rs _ h.1 first.valid)

reserve_others_lem :
    (rs : List BootMemRegion) (p : PmmState)
    → EndBelowTop rs
    → IsValid p
    → Wrote true (spoiled rs) p (reserve_others rs p)
unfolding reserve_others
reserve_others_lem [] p h v = Wrote_none v
reserve_others_lem (r ∷ rs) p h v =
    let first = one_other p r v h.0 in Wrote_then first (reserve_others_lem rs _ h.1 first.valid)

with_initialized-IsValid :
    {q : PmmState} (b : Bool) → IsValid q → IsValid (record q { initialized = b })
with_initialized-IsValid b v = record {
  whole_pages = v.whole_pages;
  bounded = v.bounded;
  storage = v.storage;
  free_counted = v.free_counted;
  used_counted = v.used_counted;
  hint_low = v.hint_low;
  hint_in = v.hint_in;
}

-- What `pmm_init_from_map` sets up: exactly the frames that a usable region covers whole and no
-- other region touches are free, frame 0 excepted.
pub record Mapped (rs : List BootMemRegion) (max : ℕ) (q : PmmState) : Type 0 where
  pub valid : IsValid q
  pub ready : q.initialized ≡ true
  pub frames : q.frame_count ≡ max / page_size
  pub bits :
      (j : ℕ)
      → j < max / page_size
      → bitmap_test q.bitmap j ≡ not (j != 0 && (covered rs j && not (spoiled rs j)))

module _ (rs : List BootMemRegion) (bm : List ℕ) (max : ℕ) (hr : EndBelowTop rs) (hm : max < 2 ^ 64)
    (ha : max % page_size ≡ 0) (hs : (max / page_size + 7) / 8 ≤ length bm) where
  start : PmmState
  start = all_used bm max

  start-IsValid :
      IsValid start × ((j : ℕ) → j < max / page_size → bitmap_test start.bitmap j ≡ true)
  unfolding start
  start-IsValid = all_used-IsValid bm max hm ha hs

  start-frames : start.frame_count ≡ max / page_size
  unfolding start all_used
  start-frames = refl

  freed : Wrote false (covered rs) start (free_usable rs start)
  freed = free_usable_lem rs start hr start-IsValid.0

  first_page :
      Wrote true
        (page_touched 0 page_size)
        (free_usable rs start)
        (mark_range_used (free_usable rs start) 0 page_size)
  first_page = mark_range_used_lem freed.valid 0 page_size (omega arith)

  reserved :
      Wrote true
        (spoiled rs)
        (mark_range_used (free_usable rs start) 0 page_size)
        (reserve_others rs (mark_range_used (free_usable rs start) 0 page_size))
  reserved = reserve_others_lem rs _ hr first_page.valid

  load_map-Mapped : Mapped rs max (load_map rs bm max)
  unfolding load_map start
  load_map-Mapped = record {
    valid = with_initialized-IsValid true reserved.valid;
    ready = refl;
    frames = reserved.shape.frame_count ∙ first_page.shape.frame_count ∙ freed.shape.frame_count;
    bits = λ j lt. ground (
      arith,
      start-frames,
      freed.shape,
      first_page.shape,
      start-IsValid.1 j lt,
      freed.bits j,
      first_page.bits j,
      reserved.bits j,
    );
  }

-- On a memory size that is a positive number of pages, storage that is large enough and a map whose
-- regions end below the last page of the address space, the initialisation succeeds and gives a
-- valid state in which a frame is free exactly when it is not frame 0, some usable region covers
-- its whole page, and no other region touches it.
pub init_from_map-Mapped :
    (old : PmmState) (r : BootMemRegion) (rs : List BootMemRegion) (bm : List ℕ) (bytes max : ℕ)
    → EndBelowTop (r ∷ rs)
    → 0 < max
    → max < 2 ^ 64
    → max % page_size ≡ 0
    → (max / page_size + 7) / 8 ≤ bytes
    → bytes ≤ length bm
    → (q : PmmState) × (init_from_map (some old) (some (r ∷ rs)) (some bm) bytes max
        ≡ (some q, true))
      × Mapped (r ∷ rs) max q
unfolding init_from_map
init_from_map-Mapped old r rs bm bytes max hr h0 hm ha hb hs =
    (load_map (r ∷ rs) bm max, ground arith, load_map-Mapped (r ∷ rs) bm max hr hm ha (omega arith))

-- A missing pointer, an empty map, a size that is 0 or no number of pages, and storage that is too
-- small are refused, and the state is left alone.
pub init_from_map-refuses :
    (old : Option PmmState) (rs : Option (List BootMemRegion)) (bm : Option (List ℕ))
    (bytes max : ℕ)
    → (old ≡ none)
      ⊎ ((rs ≡ none)
          ⊎ ((rs ≡ some [])
              ⊎ ((bm ≡ none)
                  ⊎ ((max ≡ 0) ⊎ ((max % page_size ≢ 0) ⊎ (bytes < (max / page_size + 7) / 8))))))
    → init_from_map old rs bm bytes max ≡ (old, false)
unfolding init_from_map
init_from_map-refuses none rs bm bytes max h = refl
init_from_map-refuses (some old) none bm bytes max h = refl
init_from_map-refuses (some old) (some []) none bytes max h = refl
init_from_map-refuses (some old) (some []) (some bm) bytes max h = refl
init_from_map-refuses (some old) (some (r ∷ rs)) none bytes max h = refl
init_from_map-refuses (some old) (some (r ∷ rs)) (some bm) bytes max h = ground arith
