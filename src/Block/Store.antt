-- ===== src/Block/Store.antt =====
-- A RAM disk behind the calls of kernel/block/block.c, as a store of bytes.
use mcsos.Common.{
  ◌==◌, dec_lt, ℕ, zero, suc, ◌+◌, ◌*◌, ◌%◌, ◌^◌, ◌≤◌, ◌<◌, ◌≡◌, ◌≢◌, refl, ◌∙◌, ◌↔◌, Bool, true,
  false, List, some, arith, ◌⊎◌, inl, inr, if◌then◌else◌, get_or, length,
}
use mcsos.Block.Device.{ok, einval, erange, BlkOps, BlkDevice, validate_range, blk_read, blk_write}
use mcsos.Block.Ram.{Ramblk, ramblk_rw, ramblk_ops}
use mcsos.Block.Copy.{memcpy, length-memcpy, memcpy-below, memcpy-above, memcpy-copied}

-- A device that `mcsos_ramblk_init` set up, with its disk: the storage is there, and its size is
-- that of the blocks, none of which is empty.
pub record IsRamDisk (dev : BlkDevice Ramblk) (ram : Ramblk) : Type 0 where
  pub driven : dev.ops ≡ some (ramblk_ops dev.block_size)
  pub sized : ram.storage_size ≡ dev.block_count * dev.block_size
  pub fits : ram.storage_size < 2 ^ 64
  pub positive : 0 < dev.block_size
  pub backed : ram.storage_size ≤ length ram.storage

-- The accepted ranges of a device with a driver are those of one block or more inside the device.
validate_range-inside :
    {d : Type 0} (dev : BlkDevice d) (ops : BlkOps d) (lba count : ℕ) (buffer : List ℕ)
    → dev.ops ≡ some ops
    → dev.block_count < 2 ^ 64
    → (validate_range (some dev) lba count (some buffer) ≡ ok)
      ↔ ((0 < count) × (lba + count ≤ dev.block_count))
unfolding validate_range
validate_range-inside dev ops lba count buffer e small =
    (λ h. (ground (arith, e), ground (arith, e)), λ h. ground (arith, e, h.0, h.1))

scaled :
    (lba count blocks size : ℕ) → lba + count ≤ blocks → lba * size + count * size ≤ blocks * size
scaled lba count blocks zero h = omega arith
scaled lba count blocks (suc size) h = omega (arith, h, scaled lba count blocks size h)

no_more : (blocks size : ℕ) → 0 < size → blocks ≤ blocks * size
no_more blocks zero h = absurd (omega arith)
no_more blocks (suc size) h = omega arith

module _ (dev : BlkDevice Ramblk) (ram : Ramblk) (disk : IsRamDisk dev ram) (lba count : ℕ)
    (buffer : List ℕ) (h0 : 0 < count) (h : lba + count ≤ dev.block_count) where
  rw-inside :
      (is_write : Bool)
      → ramblk_rw dev.block_size is_write lba count buffer ram ≡ (
          if is_write
          then (
            record ram {
              storage =
                  memcpy (count * dev.block_size) 0 ram.storage (lba * dev.block_size) buffer 0;
            },
            buffer,
            ok,
          )
          else (
            ram,
            memcpy (count * dev.block_size) 0 buffer 0 ram.storage (lba * dev.block_size),
            ok,
          ))
  unfolding ramblk_rw
  rw-inside is_write =
      let s = scaled lba count dev.block_count dev.block_size h in
      let at : (lba * dev.block_size) % 2 ^ 64 ≡ lba * dev.block_size =
        omega (arith, s, disk.sized, disk.fits) in
      let many : (count * dev.block_size) % 2 ^ 64 ≡ count * dev.block_size =
        omega (arith, s, disk.sized, disk.fits) in
      rw (at, many) (ground (arith, s, disk.sized))

  few_blocks : dev.block_count < 2 ^ 64
  few_blocks =
      omega (arith, disk.sized, disk.fits, no_more dev.block_count dev.block_size disk.positive)

  accepted : validate_range (some dev) lba count (some buffer) ≡ ok
  accepted =
      (validate_range-inside dev (ramblk_ops dev.block_size) lba count buffer disk.driven
          few_blocks).1
        (h0, h)

  write-eq : blk_write (some dev) lba count (some buffer) ram ≡ (
    record ram {
      storage = memcpy (count * dev.block_size) 0 ram.storage (lba * dev.block_size) buffer 0;
    },
    some buffer,
    ok,
  )
  unfolding blk_write
  write-eq = rw (accepted, disk.driven, rw-inside true) refl

  read-eq : blk_read (some dev) lba count (some buffer) ram ≡ (
    ram,
    some (memcpy (count * dev.block_size) 0 buffer 0 ram.storage (lba * dev.block_size)),
    ok,
  )
  unfolding blk_read
  read-eq = rw (accepted, disk.driven, rw-inside false) refl

-- The disk after a write of `buffer` to the bytes from `first` on: those `size` bytes are the
-- buffer's, and every other byte is as before.
pub record Stored (before after : Ramblk) (first size : ℕ) (buffer : List ℕ) : Type 0 where
  pub written : (j : ℕ) → j < size → get_or after.storage (first + j) 0 ≡ get_or buffer j 0
  pub below : (j : ℕ) → j < first → get_or after.storage j 0 ≡ get_or before.storage j 0
  pub above : (j : ℕ) → first + size ≤ j → get_or after.storage j 0 ≡ get_or before.storage j 0

-- Writing a non-empty range of blocks inside a RAM disk succeeds, leaves a RAM disk, stores the
-- buffer's bytes in the blocks of the range and changes no other byte.
pub blk_write-Stored :
    (dev : BlkDevice Ramblk) (ram : Ramblk)
    → IsRamDisk dev ram
    → (lba count : ℕ) (buffer : List ℕ) → 0 < count
    → lba + count ≤ dev.block_count
    → (after : Ramblk) × (blk_write (some dev) lba count (some buffer) ram
        ≡ (after, some buffer, ok))
      × IsRamDisk dev after
      × Stored ram after (lba * dev.block_size) (count * dev.block_size) buffer
blk_write-Stored dev ram disk lba count buffer h0 h =
    let s = scaled lba count dev.block_count dev.block_size h in
    let first = lba * dev.block_size in
    let size = count * dev.block_size in
    (
      record ram { storage = memcpy size 0 ram.storage first buffer 0 },
      write-eq dev ram disk lba count buffer h0 h,
      record {
        driven = disk.driven;
        sized = disk.sized;
        fits = disk.fits;
        positive = disk.positive;
        backed = omega (arith, disk.backed, length-memcpy size 0 ram.storage first buffer 0);
      },
      record {
        written = λ j lt.
            memcpy-copied size ram.storage first buffer 0 j refl (omega arith) lt
              (omega (arith, disk.backed, disk.sized, s));
        below = λ j lt. memcpy-below size 0 ram.storage first buffer 0 j (omega (arith, lt));
        above = λ j le. memcpy-above size 0 ram.storage first buffer 0 j (omega (arith, le));
      },
    )

-- Reading back a range of blocks that was just written to a RAM disk, into a buffer that is large
-- enough, succeeds, leaves the disk as the write left it, and gives the bytes that were written.
pub blk_read-blk_write :
    (dev : BlkDevice Ramblk) (ram : Ramblk)
    → IsRamDisk dev ram
    → (lba count : ℕ) (buffer into : List ℕ) → 0 < count
    → lba + count ≤ dev.block_count
    → count * dev.block_size ≤ length into
    → (after : Ramblk) × (out : List ℕ) × (blk_write (some dev) lba count (some buffer) ram
        ≡ (after, some buffer, ok))
      × (blk_read (some dev) lba count (some into) after ≡ (after, some out, ok))
      × ((j : ℕ) → j < count * dev.block_size → get_or out j 0 ≡ get_or buffer j 0)
blk_read-blk_write dev ram disk lba count buffer into h0 h large =
    let (after, e, later, stored) = blk_write-Stored dev ram disk lba count buffer h0 h in
    let size = count * dev.block_size in
    (
      after,
      memcpy size 0 into 0 after.storage (lba * dev.block_size),
      e,
      read-eq dev after later lba count into h0 h,
      λ j lt.
          memcpy-copied size into 0 after.storage (lba * dev.block_size) j (omega arith) refl lt
            (omega (arith, large))
          ∙ stored.written j lt,
    )

refused-range :
    {d : Type 0} (dev : BlkDevice d) (ops : BlkOps d)
    → dev.ops ≡ some ops
    → dev.block_count < 2 ^ 64
    → (lba count : ℕ) (buffer : List ℕ) → (count ≡ 0) ⊎ (dev.block_count < lba + count)
    → ((count ≡ 0) × (validate_range (some dev) lba count (some buffer) ≡ einval))
      ⊎ ((count ≢ 0) × (validate_range (some dev) lba count (some buffer) ≡ erange))
unfolding validate_range
refused-range dev ops e small lba count buffer h = elim (dec_lt 0 count) [
  | yes p ↦ inr (omega arith, ground (arith, e))
  | no p ↦ inl (omega arith, ground (arith, e))
]

-- Outside the device, and for no block at all, neither call reaches the driver: for every driver,
-- on every drive, a device with operations and fewer than 2 ^ 64 blocks refuses the range with the
-- drive and the buffer unchanged, as an invalid argument if no block is asked for and out of range otherwise.
pub blk_write-outside :
    {d : Type 0} (dev : BlkDevice d) (ops : BlkOps d)
    → dev.ops ≡ some ops
    → dev.block_count < 2 ^ 64
    → (lba count : ℕ) (buffer : List ℕ) (drive : d) → (count ≡ 0) ⊎ (dev.block_count < lba + count)
    → (blk_write (some dev) lba count (some buffer) drive
        ≡ (drive, some buffer, if count == 0 then einval else erange))
      × (blk_read (some dev) lba count (some buffer) drive
          ≡ (drive, some buffer, if count == 0 then einval else erange))
unfolding blk_write blk_read
blk_write-outside dev ops e small lba count buffer drive h =
    elim (refused-range dev ops e small lba count buffer h) [
      | inl q ↦ (ground (arith, q.0, q.1), ground (arith, q.0, q.1))
      | inr q ↦ (ground (arith, q.0, q.1), ground (arith, q.0, q.1))
    ]
