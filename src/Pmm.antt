-- ===== src/Pmm.antt =====
-- src/pmm.c and include/pmm.h: the physical frame allocator. A function that updates `*pmm` returns
-- the new state, beside its result if it has one; a pointer that the code tests against NULL is an
-- `Option`. A mask `& ~(align - 1)` of a power of two is written as a quotient.
pub mod Invariant
pub mod Ranges
pub mod Alloc
pub mod Free
pub mod Reserve
pub mod MemoryMap
mod Examples
use mcsos.Common.{
  ℕ, zero, suc, ◌+◌, ◌-◌, ◌*◌, ◌/◌, ◌%◌, ◌^◌, Bool, true, false, not, ◌&&◌, ◌||◌, List, [], ◌∷◌,
  Option, none, some, ltb, leb, ◌==◌, ◌!=◌, if◌then◌else◌, set, add_u64, sub_u64, u64,
}
use mcsos.Bitmap.{bitmap_set, bitmap_clear, bitmap_test}

abbrev pub page_size : ℕ
page_size = 4096

abbrev pub uint64_max : ℕ
uint64_max = 2 ^ 64 - 1

abbrev pub invalid_frame : ℕ
invalid_frame = 0xffffffffffffffff

-- `BOOT_MEM_USABLE`
abbrev pub usable : ℕ
usable = 1

pub record BootMemRegion : Type 0 where
  pub base : ℕ
  pub len : ℕ
  pub kind : ℕ

-- `bitmap` is the storage behind the pointer; the null pointer of a zeroed state is `[]`.
pub record PmmState : Type 0 where
  pub bitmap : List ℕ
  pub bitmap_bytes : ℕ
  pub max_phys : ℕ
  pub frame_count : ℕ
  pub free_frames : ℕ
  pub used_frames : ℕ
  pub reserved_frames : ℕ
  pub ignored_frames : ℕ
  pub next_hint : ℕ
  pub initialized : Bool

unfoldable pub align_down : ℕ → ℕ → ℕ
align_down value align = value / align * align

unfoldable pub align_up : ℕ → ℕ → ℕ
align_up value align = u64 (value + align - 1) / align * align

unfoldable pub checked_add_u64 : ℕ → ℕ → Option ℕ
checked_add_u64 a b = if ltb (uint64_max - a) b then none else some (add_u64 a b)

unfoldable pub mark_frame_free : PmmState → ℕ → PmmState
mark_frame_free pmm frame =
    if leb pmm.frame_count frame
    then pmm
    else if bitmap_test pmm.bitmap frame
    then (record pmm {
      bitmap = bitmap_clear pmm.bitmap frame;
      free_frames = add_u64 pmm.free_frames 1;
      used_frames = if ltb 0 pmm.used_frames then pmm.used_frames - 1 else pmm.used_frames;
      next_hint = if ltb frame pmm.next_hint then frame else pmm.next_hint;
    })
    else pmm

unfoldable pub mark_frame_used : PmmState → ℕ → PmmState
mark_frame_used pmm frame =
    if leb pmm.frame_count frame
    then pmm
    else if not (bitmap_test pmm.bitmap frame)
    then (record pmm {
      bitmap = bitmap_set pmm.bitmap frame;
      free_frames = if ltb 0 pmm.free_frames then pmm.free_frames - 1 else pmm.free_frames;
      used_frames = add_u64 pmm.used_frames 1;
    })
    else pmm

-- The rounds of `for (addr = start; addr < stop; addr += PMM_PAGE_SIZE)`.
unfoldable pub pages_between : ℕ → ℕ → ℕ
pages_between start stop = (stop - start + page_size - 1) / page_size

-- The loop of `mark_range_free`, by the rounds left.
pub free_pages : ℕ → ℕ → PmmState → PmmState
free_pages zero addr pmm = pmm
free_pages (suc n) addr pmm =
    free_pages n (addr + page_size) (mark_frame_free pmm (addr / page_size))

-- `mark_range_free` once `start` and `stop` are known.
unfoldable pub free_between : PmmState → ℕ → ℕ → PmmState
free_between pmm start stop =
    if leb stop start || leb pmm.max_phys start
    then pmm
    else if ltb pmm.max_phys stop
    then free_pages (pages_between start pmm.max_phys) start (record pmm {
      ignored_frames = add_u64 pmm.ignored_frames (sub_u64 stop pmm.max_phys / page_size);
    })
    else free_pages (pages_between start stop) start pmm

pub mark_range_free : PmmState → ℕ → ℕ → PmmState
mark_range_free pmm base len = if len == 0 then pmm else elim (checked_add_u64 base len) [
  | none ↦ pmm
  | some last ↦ free_between pmm (align_up base page_size) (align_down last page_size)
]

-- The body of the loop of `mark_range_used`: only a frame that was free counts as reserved.
unfoldable pub reserve_frame : PmmState → ℕ → PmmState
reserve_frame pmm frame =
    let was_free = not (bitmap_test pmm.bitmap frame) in
    let marked = mark_frame_used pmm frame in
    if was_free
    then (record marked { reserved_frames = add_u64 marked.reserved_frames 1 })
    else marked

pub reserve_pages : ℕ → ℕ → PmmState → PmmState
reserve_pages zero addr pmm = pmm
reserve_pages (suc n) addr pmm =
    reserve_pages n (addr + page_size) (reserve_frame pmm (addr / page_size))

-- `mark_range_used` once `start` and `stop` are known.
unfoldable pub reserve_between : PmmState → ℕ → ℕ → PmmState
reserve_between pmm start stop =
    if leb stop start || leb pmm.max_phys start
    then pmm
    else if ltb pmm.max_phys stop
    then reserve_pages (pages_between start pmm.max_phys) start pmm
    else reserve_pages (pages_between start stop) start pmm

pub mark_range_used : PmmState → ℕ → ℕ → PmmState
mark_range_used pmm base len = if len == 0 then pmm else elim (checked_add_u64 base len) [
  | none ↦ pmm
  | some last ↦ reserve_between pmm (align_down base page_size) (align_up last page_size)
]

abbrev pub zeroed : PmmState
zeroed = record {
  bitmap = [];
  bitmap_bytes = 0;
  max_phys = 0;
  frame_count = 0;
  free_frames = 0;
  used_frames = 0;
  reserved_frames = 0;
  ignored_frames = 0;
  next_hint = 0;
  initialized = false;
}

pub zero_state : Option PmmState → Option PmmState
zero_state none = none
zero_state (some pmm) = some zeroed

-- `for (i = 0; i < required_bitmap_bytes; i++) bitmap_storage[i] = 0xffU`, by the rounds left.
pub fill_ones : ℕ → ℕ → List ℕ → List ℕ
fill_ones zero i storage = storage
fill_ones (suc n) i storage = fill_ones n (i + 1) (set storage i 0xff)

-- The two loops over the memory map.
pub free_usable : List BootMemRegion → PmmState → PmmState
free_usable [] pmm = pmm
free_usable (r ∷ rs) pmm =
    free_usable rs (if r.kind == usable then mark_range_free pmm r.base r.len else pmm)

pub reserve_others : List BootMemRegion → PmmState → PmmState
reserve_others [] pmm = pmm
reserve_others (r ∷ rs) pmm =
    reserve_others rs (if r.kind != usable then mark_range_used pmm r.base r.len else pmm)

-- The state before the first loop over the map.
pub all_used : List ℕ → ℕ → PmmState
all_used storage max_phys_bytes =
    let frame_count = max_phys_bytes / page_size in
    let required = (frame_count + 7) / 8 in
    record zeroed {
      bitmap = fill_ones required 0 storage;
      bitmap_bytes = required;
      max_phys = max_phys_bytes;
      frame_count = frame_count;
      free_frames = 0;
      used_frames = frame_count;
      next_hint = 0;
    }

-- From the fill of the bitmap to the end of `pmm_init_from_map`.
pub load_map : List BootMemRegion → List ℕ → ℕ → PmmState
unfolding all_used free_usable reserve_others mark_range_free mark_range_used free_pages
    reserve_pages
load_map regions storage max_phys_bytes =
    record (reserve_others regions
      (mark_range_used (free_usable regions (all_used storage max_phys_bytes)) 0 page_size)) {
        initialized = true;
      }

-- `regions` is the array of `region_count` entries.
pub init_from_map :
    Option PmmState → Option (List BootMemRegion) → Option (List ℕ) → ℕ → ℕ → Option PmmState × Bool
init_from_map none regions storage storage_bytes max_phys_bytes = (none, false)
init_from_map (some pmm) none storage storage_bytes max_phys_bytes = (some pmm, false)
init_from_map (some pmm) (some regions) none storage_bytes max_phys_bytes = (some pmm, false)
init_from_map (some pmm) (some []) (some storage) storage_bytes max_phys_bytes = (some pmm, false)
init_from_map (some pmm) (some (r ∷ rs)) (some storage) storage_bytes max_phys_bytes =
    if max_phys_bytes == 0 || max_phys_bytes % page_size != 0
    then (some pmm, false)
    else if ltb storage_bytes ((max_phys_bytes / page_size + 7) / 8)
    then (some pmm, false)
    else (some (load_map (r ∷ rs) storage max_phys_bytes), true)

-- A loop of `pmm_alloc_frame`: the first clear bit among `n` from `frame` on.
pub find_clear : List ℕ → ℕ → ℕ → Option ℕ
find_clear bitmap zero frame = none
find_clear bitmap (suc n) frame = elim (bitmap_test bitmap frame) [
  | true ↦ find_clear bitmap n (frame + 1)
  | false ↦ some frame
]

unfoldable pub take_frame : PmmState → ℕ → Option PmmState × ℕ
take_frame pmm frame = (
  some (record (mark_frame_used pmm frame) { next_hint = add_u64 frame 1 }),
  u64 (frame * page_size),
)

pub alloc_frame : Option PmmState → Option PmmState × ℕ
alloc_frame none = (none, invalid_frame)
alloc_frame (some pmm) =
    if not pmm.initialized || pmm.free_frames == 0
    then (some pmm, invalid_frame)
    else elim (find_clear pmm.bitmap (pmm.frame_count - pmm.next_hint) pmm.next_hint) [
      | some frame ↦ take_frame pmm frame
      | none ↦ elim (find_clear pmm.bitmap pmm.next_hint 0) [
        | some frame ↦ take_frame pmm frame
        | none ↦ (some pmm, invalid_frame)
      ]
    ]

pub free_frame : Option PmmState → ℕ → Option PmmState × Bool
free_frame none phys_addr = (none, false)
free_frame (some pmm) phys_addr =
    if not pmm.initialized
    then (some pmm, false)
    else if phys_addr % page_size != 0 || phys_addr == 0 || leb pmm.max_phys phys_addr
    then (some pmm, false)
    else if not (bitmap_test pmm.bitmap (phys_addr / page_size))
    then (some pmm, false)
    else (some (mark_frame_free pmm (phys_addr / page_size)), true)

pub reserve_range : Option PmmState → ℕ → ℕ → Option PmmState × Bool
reserve_range none base len = (none, false)
reserve_range (some pmm) base len =
    if not pmm.initialized || len == 0
    then (some pmm, false)
    else (some (mark_range_used pmm base len), true)

pub is_frame_free : Option PmmState → ℕ → Bool
is_frame_free none phys_addr = false
is_frame_free (some pmm) phys_addr =
    if not pmm.initialized
    then false
    else if phys_addr % page_size != 0 || leb pmm.max_phys phys_addr
    then false
    else not (bitmap_test pmm.bitmap (phys_addr / page_size))

pub free_count : Option PmmState → ℕ
free_count none = 0
free_count (some pmm) = pmm.free_frames

pub used_count : Option PmmState → ℕ
used_count none = 0
used_count (some pmm) = pmm.used_frames

pub frame_count : Option PmmState → ℕ
frame_count none = 0
frame_count (some pmm) = pmm.frame_count
