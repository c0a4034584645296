-- ===== src/Journal/Check.antt =====
-- `m16_fsck` of kernel/fs/mcsfs1j/m16_mcsfs_journal.c.
use mcsos.Common.{
  ℕ, zero, suc, ◌+◌, Bool, true, ◌&&◌, List, [], ◌∷◌, ltb, leb, ◌==◌, ◌!=◌, if◌then◌else◌, get_or,
}
use mcsos.Bitmap.{bitmap_test}
use mcsos.Journal.Device.{ecorrupt, Action, ◌>>=◌, ◌>>◌, require, block_size, read_block}
use mcsos.Journal.Layout.{
  Inode, Dirent, max_inodes, inode_bitmap_lba, block_bitmap_lba, root_dir_lba, data_start_lba,
  directory_of, no_inode,
}
use mcsos.Journal.Files.{mount, load_inode_table}

-- Whether the n bits from bit i on are set.
unfoldable pub all_set : ℕ → ℕ → List ℕ → Bool
all_set zero i bm = true
all_set (suc n) i bm = bitmap_test bm i && all_set n (i + 1) bm

abbrev pub sound_root : List ℕ → Inode → Bool
sound_root ib root =
    bitmap_test ib 0 && root.used == 1 && root.kind == 2 && root.direct0 == root_dir_lba

-- The tests of one used entry; `total` is that of the device.
unfoldable pub sound_entry : ℕ → List ℕ → List ℕ → List Inode → Dirent → Bool
sound_entry total ib bb inodes entry =
    let inode = get_or inodes entry.ino no_inode in
    ltb entry.ino max_inodes
    && bitmap_test ib entry.ino
    && inode.used != 0
    && inode.kind == 1
    && leb inode.size block_size
    && leb data_start_lba inode.direct0
    && ltb inode.direct0 total
    && bitmap_test bb inode.direct0

unfoldable pub sound_entries : ℕ → List ℕ → List ℕ → List Inode → List Dirent → Bool
sound_entries total ib bb inodes [] = true
sound_entries total ib bb inodes (d ∷ ds) =
    (if d.used != 0 then sound_entry total ib bb inodes d else true)
    && sound_entries total ib bb inodes ds

abbrev pub require_entries : List ℕ → List ℕ → List Inode → List Dirent → Action (Unit {0})
require_entries ib bb inodes entries dev =
    require (sound_entries dev.total_blocks ib bb inodes entries) ecorrupt dev

unfoldable pub fsck : Action (Unit {0})
fsck = do
  sb ← mount
  ib ← read_block inode_bitmap_lba
  bb ← read_block block_bitmap_lba
  inodes ← load_inode_table
  dir ← read_block root_dir_lba
  require (sound_root ib (get_or inodes 0 no_inode)) ecorrupt
  require (all_set data_start_lba 0 bb) ecorrupt
  require_entries ib bb inodes (directory_of dir).entries
