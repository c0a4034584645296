-- ===== src/Kmem/Heap.antt =====
-- The operations of kernel/mm/kmem.c. A pointer is an address, and null is none. The headers of the
-- blocks and the bytes of the payloads are kept apart; a loop along the blocks takes fuel, and none
-- is a loop that has not ended.
use Prim.Native.Nat.{bit_and}
use mcsos.Common.{
  ℕ, zero, suc, ◌+◌, ◌-◌, ◌*◌, ◌/◌, ◌^◌, Bool, true, false, not, ◌&&◌, ◌||◌, Option, none, some,
  ltb, leb, ◌==◌, ◌!=◌, if◌then◌else◌, add_u64, sub_u64, ◌⊎◌, inl, inr,
}

abbrev pub kmem_align : ℕ
kmem_align = 16

abbrev pub kmem_magic : ℕ
kmem_magic = 0x4d43534f53484541

abbrev pub kmem_min_split : ℕ
kmem_min_split = 32

-- `sizeof(kmem_block_t)`
abbrev pub header_size : ℕ
header_size = 48

-- The bound on the rounds of `kmem_validate`.
abbrev pub guard_max : ℕ
guard_max = 1048576

abbrev pub size_max : ℕ
size_max = 2 ^ 64 - 1

infixl 5 ◌>>=◌
abbrev pub ◌>>=◌ : {A B : Type 0} → Option A → (A → Option B) → Option B
none >>= f = none
some a >>= f = f a

-- A header without the two reserved fields, which nothing reads or writes.
pub record KmemBlock : Type 0 where
  pub magic : ℕ
  pub size : ℕ
  pub free : Bool
  pub prev : Option ℕ
  pub next : Option ℕ

pub record Kmem : Type 0 where
  pub heap_base : ℕ
  pub heap_end : ℕ
  pub head : Option ℕ
  pub initialized : Bool
  pub blocks : ℕ → KmemBlock
  pub bytes : ℕ → ℕ

pub record KmemStats : Type 0 where
  pub total_bytes : ℕ
  pub used_bytes : ℕ
  pub free_bytes : ℕ
  pub block_count : ℕ
  pub free_count : ℕ
  pub largest_free : ℕ

-- `(value + mask) & ~mask`, where the sum has been checked and align is a power of two.
unfoldable pub align_up_ptr : ℕ → ℕ → ℕ
align_up_ptr value align =
    if bit_and align (sub_u64 align 1) != 0
    then 0
    else if ltb (size_max - sub_u64 align 1) value
    then 0
    else (value + sub_u64 align 1) / align * align

unfoldable pub align_up_size : ℕ → ℕ → ℕ
align_up_size value align = if align == 0 then value else align_up_ptr value align

-- `kmem_memset`, by the bytes left.
unfoldable pub memset : ℕ → ℕ → ℕ → Kmem → Kmem
memset zero dst value k = k
memset (suc n) dst value k =
    memset n (dst + 1) value (record k { bytes = λ a. if a == dst then value else k.bytes a })

abbrev pub payload : ℕ → ℕ
payload block = block + header_size

unfoldable pub ptr_in_heap : Kmem → ℕ → Bool
ptr_in_heap k p = k.initialized && leb k.heap_base p && ltb p k.heap_end

-- `*block = header`
unfoldable pub put : ℕ → KmemBlock → Kmem → Kmem
put block header k = record k { blocks = λ a. if a == block then header else k.blocks a }

-- `if (next != 0) next->prev = block;`
unfoldable pub link_back : Option ℕ → ℕ → Kmem → Kmem
link_back none block k = k
link_back (some next) block k = put next (record (k.blocks next) { prev = some block }) k

-- The writes of `kmem_split_if_useful`.
unfoldable pub split_at : ℕ → ℕ → ℕ → Kmem → Kmem
split_at block new_addr wanted k =
    let header = k.blocks block in
    let k1 =
      put new_addr
        (record {
          magic = kmem_magic;
          size = header.size - (new_addr - payload block) - header_size;
          free = true;
          prev = some block;
          next = header.next;
        })
        k in
    let k2 = link_back header.next new_addr k1 in
    put block (record (k2.blocks block) { next = some new_addr; size = wanted }) k2

unfoldable pub split_if_useful : ℕ → ℕ → Kmem → Kmem
split_if_useful block wanted k =
    let header = align_up_size header_size kmem_align in
    let new_addr = align_up_ptr (payload block + wanted) kmem_align in
    let size = (k.blocks block).size in
    if header == 0
    then k
    else if ltb size (add_u64 (add_u64 wanted header) kmem_min_split)
    then k
    else if new_addr == 0
    then k
    else if leb k.heap_end (new_addr + header_size)
    then k
    else if leb size (new_addr - payload block + header_size + kmem_min_split)
    then k
    else split_at block new_addr wanted k

-- The merge of a block with its next block.
unfoldable pub absorb_next : ℕ → ℕ → Kmem → Kmem
absorb_next block next k =
    let follower = k.blocks next in
    let grown = record (k.blocks block) {
      size = add_u64 (k.blocks block).size (add_u64 header_size follower.size);
      next = follower.next;
    } in
    let k1 = link_back follower.next block (put block grown k) in
    put next (record (k1.blocks next) { magic = 0; size = 0; prev = none; next = none }) k1

-- The loop of `kmem_coalesce_forward`.
unfoldable pub coalesce_forward : ℕ → ℕ → Kmem → Option Kmem
coalesce_forward zero block k = none
coalesce_forward (suc fuel) block k = elim (k.blocks block).next [
  | none ↦ some k
  | some next ↦
      if not (k.blocks next).free
      then some k
      else if align_up_ptr (payload block + (k.blocks block).size) kmem_align != next
      then some k
      else coalesce_forward fuel block (absorb_next block next k)
]

-- Equality of pointers.
abbrev pub same_ptr : Option ℕ → Option ℕ → Bool
same_ptr none none = true
same_ptr none (some b) = false
same_ptr (some a) none = false
same_ptr (some a) (some b) = a == b

-- The tests of one round of `kmem_validate`, with the code of the first that fails, and the next cursor.
unfoldable pub validate_block : Kmem → Option ℕ → ℕ → ℕ → ℕ ⊎ ℕ
validate_block k prev cursor cur =
    let header = k.blocks cur in
    let after = align_up_ptr (payload cur + header.size) kmem_align in
    if cur != cursor
    then inl 4
    else if ltb cur k.heap_base || ltb k.heap_end (cur + header_size)
    then inl 5
    else if header.magic != kmem_magic
    then inl 6
    else if not (same_ptr header.prev prev)
    then inl 7
    else if ltb (k.heap_end - payload cur) header.size
    then inl 8
    else if after == 0 || ltb k.heap_end after
    then inl 9
    else inr after

-- The loop of `kmem_validate`, the guard having counted `guard` rounds: 0, or the number n of the code
-- -n that is returned. The guard bounds the rounds, so that `fuel` never runs out at guard_max + 1.
unfoldable pub validate_from : ℕ → ℕ → Kmem → Option ℕ → ℕ → Option ℕ → ℕ
validate_from zero guard k prev cursor cur = 3
validate_from (suc fuel) guard k prev cursor none = 0
validate_from (suc fuel) guard k prev cursor (some cur) =
    if ltb guard_max (guard + 1) then 3 else elim (validate_block k prev cursor cur) [
      | inl code ↦ code
      | inr after ↦ validate_from fuel (guard + 1) k (some cur) after (k.blocks cur).next
    ]

unfoldable pub validate : Kmem → ℕ
validate k =
    if not k.initialized || k.heap_base == 0 || leb k.heap_end k.heap_base then 1 else elim k.head [
      | none ↦ 1
      | some head ↦
          if head != k.heap_base
          then 2
          else validate_from (suc guard_max) 0 k none k.heap_base k.head
    ]

-- `kmem_init`: a code n stands for -n.
unfoldable pub init : Option ℕ → ℕ → Kmem → Kmem × ℕ
init none size k = (k, 1)
init (some base) size k =
    let start = align_up_ptr base kmem_align in
    let usable = (size - (start - base)) / kmem_align * kmem_align in
    if ltb size (header_size + kmem_min_split)
    then (k, 1)
    else if start == 0 || ltb start base
    then (k, 2)
    else if leb size (start - base + header_size + kmem_min_split)
    then (k, 3)
    else if leb usable (header_size + kmem_min_split)
    then (k, 4)
    else let heap =
        put start
          (record {
            magic = kmem_magic;
            size = usable - header_size;
            free = true;
            prev = none;
            next = none;
          })
          (record k {
            heap_base = start;
            heap_end = start + usable;
            head = some start;
            initialized = true;
          }) in
      (heap, validate heap)

-- The loop of `kmem_alloc`.
unfoldable pub alloc_from : ℕ → ℕ → Option ℕ → Kmem → Option (Kmem × Option ℕ)
alloc_from zero wanted cur k = none
alloc_from (suc fuel) wanted none k = some (k, none)
alloc_from (suc fuel) wanted (some cur) k =
    let rest = alloc_from fuel wanted (k.blocks cur).next k in
    if (k.blocks cur).magic != kmem_magic
    then some (k, none)
    else if (k.blocks cur).free && leb wanted (k.blocks cur).size
    then (let k1 = split_if_useful cur wanted k in
        some (put cur (record (k1.blocks cur) { free = false }) k1, some (payload cur)))
    else rest

unfoldable pub alloc : ℕ → ℕ → Kmem → Option (Kmem × Option ℕ)
alloc fuel size k =
    let wanted = align_up_size size kmem_align in
    if not k.initialized || size == 0
    then some (k, none)
    else if wanted == 0
    then some (k, none)
    else alloc_from fuel wanted k.head k

-- The payload of `kmem_calloc`, cleared.
abbrev pub cleared : ℕ → Kmem × Option ℕ → Kmem × Option ℕ
cleared total (k, none) = (k, none)
cleared total (k, some p) = (memset total p 0 k, some p)

unfoldable pub calloc : ℕ → ℕ → ℕ → Kmem → Option (Kmem × Option ℕ)
calloc fuel count size k =
    if count != 0 && ltb (size_max / count) size
    then some (k, none)
    else alloc fuel (count * size) k >>= λ r. some (cleared (count * size) r)

-- The merge with the block before, where that is free.
unfoldable pub coalesce_back : ℕ → ℕ → Kmem → Option Kmem
coalesce_back fuel block k = elim (k.blocks block).prev [
  | none ↦ some k
  | some prev ↦ if (k.blocks prev).free then coalesce_forward fuel prev k else some k
]

unfoldable pub released : ℕ → ℕ → Kmem → Option (Kmem × ℕ)
released fuel block k = do
  k1 ← coalesce_forward fuel block (put block (record (k.blocks block) { free = true }) k)
  k2 ← coalesce_back fuel block k1
  some (k2, validate k2)

-- `kmem_free_checked`: a code n stands for -n.
unfoldable pub free_checked : ℕ → Option ℕ → Kmem → Option (Kmem × ℕ)
free_checked fuel none k = some (k, 0)
free_checked fuel (some p) k =
    if not (ptr_in_heap k p)
    then some (k, 1)
    else if p / kmem_align * kmem_align != p
    then some (k, 2)
    else if not (ptr_in_heap k (sub_u64 p header_size))
        || (k.blocks (sub_u64 p header_size)).magic != kmem_magic
    then some (k, 3)
    else if (k.blocks (sub_u64 p header_size)).free
    then some (k, 4)
    else released fuel (sub_u64 p header_size) k

abbrev pub no_stats : KmemStats
no_stats = record {
  total_bytes = 0;
  used_bytes = 0;
  free_bytes = 0;
  block_count = 0;
  free_count = 0;
  largest_free = 0;
}

-- One round of `kmem_get_stats`.
unfoldable pub counted : KmemBlock → KmemStats → KmemStats
counted header out =
    if header.free
    then record out {
      block_count = add_u64 out.block_count 1;
      free_count = add_u64 out.free_count 1;
      free_bytes = add_u64 out.free_bytes header.size;
      largest_free = if ltb out.largest_free header.size then header.size else out.largest_free;
    }
    else record out {
      block_count = add_u64 out.block_count 1;
      used_bytes = add_u64 out.used_bytes header.size;
    }

unfoldable pub stats_from : ℕ → Kmem → Option ℕ → KmemStats → Option KmemStats
stats_from zero k cur out = none
stats_from (suc fuel) k none out = some out
stats_from (suc fuel) k (some cur) out =
    stats_from fuel k (k.blocks cur).next (counted (k.blocks cur) out)

-- `out` is not null.
unfoldable pub get_stats : ℕ → Kmem → Option KmemStats
get_stats fuel k =
    if not k.initialized
    then some no_stats
    else stats_from fuel k k.head (record no_stats { total_bytes = k.heap_end - k.heap_base })
