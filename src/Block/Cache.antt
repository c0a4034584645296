-- ===== src/Block/Cache.antt =====
-- kernel/block/bcache.c: the buffer cache. Devices and their drivers' data stand in stores, by the
-- address of the device; a cache entry is named by its index. The null checks on the cache, the
-- device and the buffer are left out of the operations after `bcache_init`.
use mcsos.Common.{
  ℕ, zero, suc, ◌+◌, ◌*◌, ◌%◌, Bool, true, false, not, List, [], ◌∷◌, Option, none, some, ◌==◌,
  ◌!=◌, ◌&&◌, ◌||◌, if◌then◌else◌, get_or, set, u32, u64,
}
use mcsos.Block.Device.{BlkStatus, ok, einval, BlkDevice, blk_read, blk_write}
use mcsos.Block.Copy.{memcpy}

-- `bytes` is the slice of the data pool behind the pointer `data`.
pub record BcacheEntry : Type 0 where
  pub bytes : List ℕ
  pub capacity : ℕ
  pub lba : ℕ
  pub valid : Bool
  pub dirty : Bool
  pub dev : Option ℕ

pub record Bcache : Type 0 where
  pub entries : List BcacheEntry
  pub entry_count : ℕ
  pub block_size : ℕ
  pub clock_hand : ℕ

-- What a read past the array gives.
abbrev pub no_entry : BcacheEntry
no_entry = record { bytes = []; capacity = 0; lba = 0; valid = false; dirty = false; dev = none }

abbrev pub entry_at : Bcache → ℕ → BcacheEntry
entry_at cache i = get_or cache.entries i no_entry

abbrev pub put_entry : Bcache → ℕ → BcacheEntry → Bcache
put_entry cache i e = record cache { entries = set cache.entries i e }

abbrev pub is_dev : Option ℕ → ℕ → Bool
is_dev none p = false
is_dev (some q) p = q == p

-- The loop of `mcsos_bcache_find`, by the rounds left.
unfoldable pub find_from : ℕ → ℕ → Bcache → ℕ → ℕ → Option ℕ
find_from zero i cache dev lba = none
find_from (suc n) i cache dev lba =
    let e = entry_at cache i in
    let rest = find_from n (i + 1) cache dev lba in
    if e.valid && is_dev e.dev dev && e.lba == lba then some i else rest

unfoldable pub find : Bcache → ℕ → ℕ → Option ℕ
find cache dev lba = find_from cache.entry_count 0 cache dev lba

-- The loop over the passes of the clock, by the passes left: the first entry that is not valid.
unfoldable pub free_from : ℕ → ℕ → ℕ → Bcache → Option ℕ
free_from zero pass first cache = none
free_from (suc n) pass first cache =
    let idx = u32 (first + pass) % cache.entry_count in
    let rest = free_from n (pass + 1) first cache in
    if not (entry_at cache idx).valid then some idx else rest

-- The n bytes of the pool from a start on.
unfoldable pub slice : ℕ → List ℕ → ℕ → List ℕ
slice zero pool start = []
slice (suc n) pool start = get_or pool start 0 ∷ slice n pool (start + 1)

-- The loop of `mcsos_bcache_init`, by the rounds left.
unfoldable pub reset_entries : ℕ → ℕ → List ℕ → ℕ → List BcacheEntry → List BcacheEntry
reset_entries zero i pool block_size entries = entries
reset_entries (suc n) i pool block_size entries = reset_entries n (i + 1) pool block_size (
    set entries i (record {
      bytes = slice block_size pool (u64 (i * block_size));
      capacity = block_size;
      lba = 0;
      valid = false;
      dirty = false;
      dev = none;
    }))

unfoldable pub bcache_init :
    Option Bcache → Option (List BcacheEntry) → ℕ → Option (List ℕ) → ℕ → Option Bcache × BlkStatus
bcache_init none entries entry_count pool block_size = (none, einval)
bcache_init (some cache) none entry_count pool block_size = (some cache, einval)
bcache_init (some cache) (some entries) entry_count none block_size = (some cache, einval)
bcache_init (some cache) (some entries) entry_count (some pool) block_size =
    if entry_count == 0 || block_size == 0 then (some cache, einval) else (
      some (record {
        entries = reset_entries entry_count 0 pool block_size entries;
        entry_count = entry_count;
        block_size = block_size;
        clock_hand = 0;
      }),
      ok,
    )

module _ {d : Type 0} (devices : ℕ → BlkDevice d) where
  -- The devices of an entry that holds the null pointer.
  abbrev pub device_of : Option ℕ → Option (BlkDevice d)
  device_of none = none
  device_of (some p) = some (devices p)

  abbrev pub put_drive : (ℕ → d) → ℕ → d → ℕ → d
  put_drive drives p x q = if p == q then x else drives q

  abbrev flushed :
      BcacheEntry
      → (ℕ → d)
      → ℕ
      → d × Option (List ℕ) × BlkStatus
      → BcacheEntry × (ℕ → d) × BlkStatus
  flushed e drives p (x, buffer, ok) = (record e { dirty = false }, put_drive drives p x, ok)
  flushed e drives p (x, buffer, status) = (e, put_drive drives p x, status)

  unfoldable pub flush_entry : BcacheEntry → (ℕ → d) → BcacheEntry × (ℕ → d) × BlkStatus
  flush_entry e drives = if not e.valid || not e.dirty then (e, drives, ok) else elim e.dev [
    | none ↦ (e, drives, einval)
    | some p ↦ flushed e drives p (blk_write (some (devices p)) e.lba 1 (some e.bytes) (drives p))
  ]

  -- The victim is the index behind `*out`.
  unfoldable pub select_victim : Bcache → (ℕ → d) → Bcache × (ℕ → d) × Option ℕ × BlkStatus
  select_victim cache drives =
      if cache.entry_count == 0
      then (cache, drives, none, einval)
      else let first = cache.clock_hand % cache.entry_count in
        elim (free_from cache.entry_count 0 first cache) [
          | some idx ↦ (record cache { clock_hand = u32 (idx + 1) }, drives, some idx, ok)
          | none ↦
              let (e, after, status) = flush_entry (entry_at cache first) drives in
              let moved : Bcache = record (put_entry cache first e) {
                clock_hand = u32 (first + 1);
              } in
              elim status [ ok ↦ (moved, after, some first, ok) | rc ↦ (moved, after, none, rc) ]
        ]

  -- The end of a read that has its entry: the copy into the buffer.
  abbrev pub deliver : Bcache → (ℕ → d) → ℕ → List ℕ → Bcache × (ℕ → d) × List ℕ × BlkStatus
  deliver cache drives i buffer =
      (cache, drives, memcpy cache.block_size 0 buffer 0 (entry_at cache i).bytes 0, ok)

  abbrev filled :
      Bcache
      → (ℕ → d)
      → ℕ
      → ℕ
      → ℕ
      → List ℕ
      → d × Option (List ℕ) × BlkStatus
      → Bcache × (ℕ → d) × List ℕ × BlkStatus
  filled cache drives p lba i buffer (x, none, status) =
      (cache, put_drive drives p x, buffer, status)
  filled cache drives p lba i buffer (x, some bytes, ok) =
      deliver
        (put_entry cache i (record (entry_at cache i) {
          bytes = bytes;
          lba = lba;
          valid = true;
          dirty = false;
          dev = some p;
        }))
        (put_drive drives p x) i buffer
  filled cache drives p lba i buffer (x, some bytes, status) = (
    put_entry cache i (record (entry_at cache i) { bytes = bytes; valid = false }),
    put_drive drives p x,
    buffer,
    status,
  )

  -- The buffer and the cache are not null here; `dev` is the address of a device.
  unfoldable pub bcache_read :
      Bcache → (ℕ → d) → ℕ → ℕ → List ℕ → Bcache × (ℕ → d) × List ℕ × BlkStatus
  bcache_read cache drives dev lba buffer =
      if cache.block_size != (devices dev).block_size
      then (cache, drives, buffer, einval)
      else elim (find cache dev lba) [
        | some i ↦ deliver cache drives i buffer
        | none ↦
            let (chosen, after, victim, status) = select_victim cache drives in
            elim victim [
              | none ↦ (chosen, after, buffer, status)
              | some i ↦
                  filled chosen after dev lba i buffer (
                    blk_read (some (devices dev)) lba 1 (some (entry_at chosen i).bytes)
                      (after dev))
            ]
      ]

  -- The end of a write that has its entry: the copy out of the buffer.
  abbrev pub absorb : Bcache → (ℕ → d) → ℕ → List ℕ → Bcache × (ℕ → d) × BlkStatus
  absorb cache drives i buffer =
      let e = entry_at cache i in
      (
        put_entry cache i
            (record e { bytes = memcpy cache.block_size 0 e.bytes 0 buffer 0; dirty = true }),
        drives,
        ok,
      )

  unfoldable pub bcache_write : Bcache → (ℕ → d) → ℕ → ℕ → List ℕ → Bcache × (ℕ → d) × BlkStatus
  bcache_write cache drives dev lba buffer =
      if cache.block_size != (devices dev).block_size
      then (cache, drives, einval)
      else elim (find cache dev lba) [
        | some i ↦ absorb cache drives i buffer
        | none ↦
            let (chosen, after, victim, status) = select_victim cache drives in
            elim victim [
              | none ↦ (chosen, after, status)
              | some i ↦
                  absorb
                    (put_entry chosen i (record (entry_at chosen i) {
                      lba = lba;
                      valid = true;
                      dirty = false;
                      dev = some dev;
                    }))
                    after i buffer
            ]
      ]

  -- The loop of `mcsos_bcache_flush_all`, by the rounds left; a failure ends it.
  unfoldable pub flush_from : ℕ → ℕ → Bcache → (ℕ → d) → Bcache × (ℕ → d) × BlkStatus
  flush_from zero i cache drives = (cache, drives, ok)
  flush_from (suc n) i cache drives =
      let (e, after, status) = flush_entry (entry_at cache i) drives in
      let next = put_entry cache i e in
      let rest = flush_from n (i + 1) next after in
      elim status [ ok ↦ rest | rc ↦ (next, after, rc) ]

  unfoldable pub bcache_flush_all : Bcache → (ℕ → d) → Bcache × (ℕ → d) × BlkStatus
  bcache_flush_all cache drives = flush_from cache.entry_count 0 cache drives
