-- ===== src/Block/Ram.antt =====
-- kernel/block/ramblk.c: a disk in memory.
use mcsos.Common.{
  sub_u64, ℕ, ◌*◌, ◌/◌, ◌%◌, Bool, true, false, not, List, Option, none, some, ltb, ◌!=◌, ◌||◌,
  if◌then◌else◌, u64,
}
use mcsos.Block.Device.{
  BlkStatus, ok, einval, erange, BlkOps, BlkDevice, copy_name, is_power_of_two_u32,
  default_sector_size,
}
use mcsos.Block.Copy.{memcpy}

pub record Ramblk : Type 0 where
  pub storage : List ℕ
  pub storage_size : ℕ

-- Past the null checks; `block_size` is that of the device.
unfoldable pub ramblk_rw : ℕ → Bool → ℕ → ℕ → List ℕ → Ramblk → Ramblk × List ℕ × BlkStatus
ramblk_rw block_size is_write lba count buffer ram =
    let byte_offset = u64 (lba * block_size) in
    let byte_count = u64 (count * block_size) in
    if ltb ram.storage_size byte_offset || ltb (sub_u64 ram.storage_size byte_offset) byte_count
    then (ram, buffer, erange)
    else if is_write
    then (record ram { storage = memcpy byte_count 0 ram.storage byte_offset buffer 0 }, buffer, ok)
    else (ram, memcpy byte_count 0 buffer 0 ram.storage byte_offset, ok)

abbrev pub ramblk_flush : ℕ → ℕ → List ℕ → Ramblk → Ramblk × List ℕ × BlkStatus
ramblk_flush lba count buffer ram = (ram, buffer, ok)

abbrev pub ramblk_ops : ℕ → BlkOps Ramblk
ramblk_ops block_size = record {
  read = some (ramblk_rw block_size false);
  write = some (ramblk_rw block_size true);
  flush = some ramblk_flush;
}

-- The device and the disk are updated in place; a null `dev`, `ram`, `name` or `storage` is none.
unfoldable pub ramblk_init :
    Option (BlkDevice Ramblk)
    → Option Ramblk
    → Option (List ℕ)
    → Option (List ℕ)
    → ℕ
    → ℕ
    → Option (BlkDevice Ramblk) × Option Ramblk × BlkStatus
ramblk_init none ram name storage storage_size block_size = (none, ram, einval)
ramblk_init (some dev) none name storage storage_size block_size = (some dev, none, einval)
ramblk_init (some dev) (some ram) none storage storage_size block_size =
    (some dev, some ram, einval)
ramblk_init (some dev) (some ram) (some name) none storage_size block_size =
    (some dev, some ram, einval)
ramblk_init (some dev) (some ram) (some name) (some storage) storage_size block_size =
    if ltb block_size default_sector_size || not (is_power_of_two_u32 block_size)
    then (some dev, some ram, einval)
    else if ltb storage_size block_size || storage_size % block_size != 0
    then (some dev, some ram, einval)
    else (
      some (record {
        name = copy_name dev.name (some name);
        block_size = block_size;
        block_count = storage_size / block_size;
        flags = 0;
        ops = some (ramblk_ops block_size);
      }),
      some (record { storage = storage; storage_size = storage_size }),
      ok,
    )
