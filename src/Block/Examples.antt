-- ===== src/Block/Examples.antt =====
-- A RAM disk of two blocks of 512 bytes: runs, and the theorems at this disk.
use mcsos.Common.{
  ◌+◌, true, false, ℕ, ◌<◌, ◌≡◌, refl, inr, List, [], ◌∷◌, none, some, arith, get_or, replicate,
}
use mcsos.Block.Device.{
  BlkOps, erange, validate_range, ok, BlkDevice, copy_name, copy_name_from, is_power_of_two_u32,
  has_functions, registry_reset, register, blk_read, blk_write,
}
use mcsos.Block.Ram.{Ramblk, ramblk_ops, ramblk_init}
use mcsos.Block.Cache.{
  Bcache, BcacheEntry, find, find_from, slice, reset_entries, bcache_init, bcache_read,
  bcache_write,
}
use mcsos.Block.Cached.{bcache_read-bcache_write}
use mcsos.Block.Store.{IsRamDisk, Stored, blk_write-Stored, blk_read-blk_write, blk_write-outside}

abbrev blank : BlkDevice Ramblk
blank = record { name = replicate 16 7; block_size = 0; block_count = 0; flags = 9; ops = none }

abbrev disk : Ramblk
disk = record { storage = replicate 1024 0; storage_size = 1024 }

abbrev dev : BlkDevice Ramblk
dev = record {
  name = 114 ∷ 48 ∷ 0 ∷ replicate 13 7;
  block_size = 512;
  block_count = 2;
  flags = 0;
  ops = some (ramblk_ops 512);
}

sets_up :
    ramblk_init
      (some blank)
      (some (record { storage = []; storage_size = 0 }))
      (some (114 ∷ 48 ∷ 0 ∷ []))
      (some (replicate 1024 0))
      1024
      512
    ≡ (some dev, some disk, ok)
unfolding ramblk_init copy_name copy_name_from is_power_of_two_u32
sets_up = refl

registers : (register registry_reset (some (64, dev))).1 ≡ ok
unfolding register registry_reset has_functions is_power_of_two_u32
registers = refl

dev-IsRamDisk : IsRamDisk dev disk
dev-IsRamDisk = record {
  driven = refl;
  sized = refl;
  fits = omega arith;
  positive = omega arith;
  backed = omega arith;
}

blk_write-Stored_example :
    (after : Ramblk) × (blk_write (some dev) 1 1 (some (replicate 512 3)) disk
      ≡ (after, some (replicate 512 3), ok))
    × IsRamDisk dev after
    × Stored disk after 512 512 (replicate 512 3)
blk_write-Stored_example =
    blk_write-Stored dev disk dev-IsRamDisk 1 1 (replicate 512 3) (omega arith) (omega arith)

blk_read-blk_write_example :
    (after : Ramblk) × (out : List ℕ) × (blk_write (some dev) 1 1 (some (replicate 512 3)) disk
      ≡ (after, some (replicate 512 3), ok))
    × (blk_read (some dev) 1 1 (some (replicate 512 0)) after ≡ (after, some out, ok))
    × ((j : ℕ) → j < 512 → get_or out j 0 ≡ get_or (replicate 512 3) j 0)
blk_read-blk_write_example =
    blk_read-blk_write dev disk dev-IsRamDisk 1 1 (replicate 512 3) (replicate 512 0) (omega arith)
      (omega arith) (omega arith)

abbrev counting_ops : BlkOps ℕ
counting_ops = record {
  read = some (λ lba count buffer calls. (calls + 1, 8 ∷ [], ok));
  write = some (λ lba count buffer calls. (calls + 1, 8 ∷ [], ok));
  flush = none;
}

-- A driver that counts its calls and returns a buffer of its own.
abbrev counting : BlkDevice ℕ
counting = record {
  name = 99 ∷ replicate 15 0;
  block_size = 512;
  block_count = 2;
  flags = 0;
  ops = some counting_ops;
}

counting-runs : blk_write (some counting) 1 1 (some []) 5 ≡ (6, some (8 ∷ []), ok)
unfolding blk_write validate_range
counting-runs = refl

blk_write-outside_example :
    (blk_write (some counting) 3 1 (some []) 5 ≡ (5, some [], erange))
    × (blk_read (some counting) 3 1 (some []) 5 ≡ (5, some [], erange))
blk_write-outside_example =
    blk_write-outside counting counting_ops refl (omega arith) 3 1 [] 5 (inr (omega arith))

-- A cache of one entry, which holds block 1 of the device at address 64.
abbrev entry : BcacheEntry
entry = record {
  bytes = replicate 512 0;
  capacity = 512;
  lba = 1;
  valid = true;
  dirty = false;
  dev = some 64;
}

abbrev cache : Bcache
cache = record { entries = entry ∷ []; entry_count = 1; block_size = 512; clock_hand = 1 }

abbrev devices : ℕ → BlkDevice Ramblk
devices p = dev

abbrev drives : ℕ → Ramblk
drives p = disk

sets_up_cache :
    bcache_init
      (some (record { entries = []; entry_count = 0; block_size = 0; clock_hand = 5 }))
      (some (entry ∷ []))
      1
      (some (replicate 2 0))
      2
    ≡ (
      some (record {
        entries =
            record {
              bytes = replicate 2 0;
              capacity = 2;
              lba = 0;
              valid = false;
              dirty = false;
              dev = none;
            }
            ∷ [];
        entry_count = 1;
        block_size = 2;
        clock_hand = 0;
      }),
      ok,
    )
unfolding bcache_init reset_entries slice
sets_up_cache = refl

cached : find cache 64 1 ≡ some 0
unfolding find find_from
cached = refl

bcache_read-bcache_write_example :
    (after : Bcache) × (out : List ℕ) × (bcache_write devices cache drives 64 1 (replicate 512 3)
      ≡ (after, drives, ok))
    × (bcache_read devices after drives 64 1 (replicate 512 0) ≡ (after, drives, out, ok))
    × ((j : ℕ) → j < 512 → get_or out j 0 ≡ get_or (replicate 512 3) j 0)
bcache_read-bcache_write_example =
    bcache_read-bcache_write devices drives cache 64 1 0 (replicate 512 3) (replicate 512 0) cached
      refl (omega arith) (omega arith) (omega arith)
