-- ===== src/Journal/Files.antt =====
-- The file operations of kernel/fs/mcsfs1j/m16_mcsfs_journal.c: format, mount, write and read. A
-- pointer argument is never null here; an array on the stack is a value.
use mcsos.Common.{
  ℕ, zero, suc, ◌+◌, ◌-◌, Bool, true, false, not, ◌&&◌, ◌||◌, List, [], ◌∷◌, ◌++◌, Option, none,
  some, ltb, leb, ◌==◌, ◌!=◌, if◌then◌else◌, get_or, set, replicate, u32,
}
use mcsos.Bitmap.{bitmap_set}
use mcsos.Journal.Device.{
  Error, einval, enospc, eexists, enoent, ecorrupt, etoolong, Result, ok, err, Action, pure, fail,
  ◌>>=◌, ◌>>◌, require, block_size, max_blocks, zero_block, read_block, write_block,
}
use mcsos.Journal.Log.{
  Tx, empty_tx, tx_add, journal_clear, journal_commit, journal_recover, journal_start,
  journal_blocks, version, max_records,
}
use mcsos.Journal.Layout.{
  Super, Inode, Dirent, Directory, magic, max_inodes, max_name, inode_bitmap_lba, block_bitmap_lba,
  inode_table_lba, inode_table_blocks, root_dir_lba, data_start_lba, split, super_bytes, super_of,
  inodes_bytes, inodes_of, directory_bytes, directory_of, no_inode, no_dirent, strlen_bounded,
  find_free, find_dirent, find_free_dirent, copy,
}

-- The loop of `m16_load_inode_table`, by the rounds left.
unfoldable pub read_table : ℕ → ℕ → Action (List ℕ)
read_table zero i = pure []
read_table (suc n) i = do
  block ← read_block (inode_table_lba + i)
  rest ← read_table n (i + 1)
  pure (block ++ rest)

unfoldable pub load_inode_table : Action (List Inode)
load_inode_table = do raw ← read_table inode_table_blocks 0; pure (inodes_of max_inodes raw)

-- The loop of `m16_store_inode_table`, by the rounds left.
unfoldable pub store_table : ℕ → ℕ → List ℕ → Tx → Tx
store_table zero i raw tx = tx
store_table (suc n) i raw tx =
    let (payload, rest) = split block_size raw in
    store_table n (i + 1) rest (record {
      count = u32 (tx.count + 1);
      rec = set tx.rec tx.count (record { target_lba = inode_table_lba + i; payload = payload });
    })

unfoldable pub store_inode_table : Tx → List Inode → Tx × Result (Unit {0})
store_inode_table tx inodes =
    if ltb max_records (u32 (tx.count + inode_table_blocks))
    then (tx, err enospc)
    else (store_table inode_table_blocks 0 (inodes_bytes inodes) tx, ok tt)

-- A step that builds a transaction, as an action.
abbrev pub built : Tx × Result (Unit {0}) → Action Tx
built (tx, ok u) = pure tx
built (tx, err e) = fail e

-- `if (result < 0) return result;`
abbrev pub found : Option ℕ → Error → Action ℕ
found none e = fail e
found (some i) e = pure i

abbrev pub fresh_super : ℕ → Super
fresh_super total = record {
  magic = magic;
  version = version;
  block_size = block_size;
  total_blocks = total;
  journal_start = journal_start;
  journal_blocks = journal_blocks;
  inode_bitmap_lba = inode_bitmap_lba;
  block_bitmap_lba = block_bitmap_lba;
  inode_table_lba = inode_table_lba;
  inode_table_blocks = inode_table_blocks;
  root_dir_lba = root_dir_lba;
  data_start_lba = data_start_lba;
  clean_generation = 1;
  reserved = replicate 456 0;
}

-- `for (i = 0; i < M16_DATA_START_LBA; i++) m16_bitmap_set(bb, i)`, by the rounds left.
unfoldable pub set_bits : ℕ → ℕ → List ℕ → List ℕ
set_bits zero i bm = bm
set_bits (suc n) i bm = set_bits n (i + 1) (bitmap_set bm i)

abbrev pub root_inode : Inode
root_inode = record no_inode { used = 1; kind = 2; size = 0; direct0 = root_dir_lba }

-- The loop that writes the inode table, by the rounds left.
unfoldable pub write_table : ℕ → ℕ → List ℕ → Action (Unit {0})
write_table zero i raw = pure tt
write_table (suc n) i raw = do
  write_block (inode_table_lba + i) (split block_size raw).0
  write_table n (i + 1) (split block_size raw).1

-- `m16_zero(dev->blocks, …)`, and the total that the superblock gets.
abbrev pub wipe : Action ℕ
wipe dev = (record dev { blocks = replicate max_blocks zero_block }, ok dev.total_blocks)

unfoldable pub format : Action (Unit {0})
format = do
  total ← wipe
  write_block 0 (super_bytes (fresh_super total))
  write_block inode_bitmap_lba (bitmap_set zero_block 0)
  write_block block_bitmap_lba (set_bits data_start_lba 0 zero_block)
  write_table inode_table_blocks 0 (inodes_bytes (root_inode ∷ replicate (max_inodes - 1) no_inode))
  write_block root_dir_lba zero_block
  journal_clear

unfoldable pub mount : Action Super
mount = do
  journal_recover
  block ← read_block 0
  require
      ((super_of block).magic == magic
        && (super_of block).version == version
        && (super_of block).block_size == block_size)
      ecorrupt
  require
      ((super_of block).data_start_lba == data_start_lba
        && (super_of block).root_dir_lba == root_dir_lba)
      ecorrupt
  pure (super_of block)

-- The inode and the entry of a new file of one block.
abbrev pub new_inode : Inode → ℕ → ℕ → Inode
new_inode old size data_block = record old { used = 1; kind = 1; size = size; direct0 = data_block }

abbrev pub new_dirent : ℕ → List ℕ → ℕ → Dirent
new_dirent ino name name_len = record {
  used = 1;
  ino = ino;
  name = copy name_len (replicate max_name 0) name;
}

abbrev pub is_some : Option ℕ → Bool
is_some none = false
is_some (some i) = true

-- The transactions of `m16_write_file_ex`, once the blocks and the places of the new file are known.
unfoldable pub write_new :
    Super
    → List ℕ
    → List ℕ
    → List Inode
    → Directory
    → List ℕ
    → List ℕ
    → ℕ
    → Bool
    → Action (Unit {0})
write_new sb ib bb inodes dir name contents size stop_after_commit_record = do
  require (not (is_some (find_dirent dir.entries 0 name))) eexists
  ino ← found (find_free (max_inodes - 1) 1 ib) enospc
  data_block ← found (find_free (max_blocks - data_start_lba) data_start_lba bb) enospc
  slot ← found (find_free_dirent dir.entries 0) enospc
  tx1 ← built (tx_add empty_tx inode_bitmap_lba (bitmap_set ib ino))
  tx2 ← built (tx_add tx1 block_bitmap_lba (bitmap_set bb data_block))
  tx3 ← built (
      store_inode_table tx2
        (set inodes ino (new_inode (get_or inodes ino no_inode) size data_block)))
  journal_commit tx3 (u32 (sb.clean_generation + 1)) false
  tx4 ← built (
      tx_add empty_tx root_dir_lba (
        directory_bytes (record dir {
          entries = set dir.entries slot (new_dirent ino name (strlen_bounded max_name name));
        })))
  tx5 ← built (tx_add tx4 data_block (copy size zero_block contents))
  journal_commit tx5 (u32 (sb.clean_generation + 2)) stop_after_commit_record

unfoldable pub write_file_ex : List ℕ → List ℕ → ℕ → Bool → Action (Unit {0})
write_file_ex name contents size stop_after_commit_record = do
  require (not (strlen_bounded max_name name == 0 || leb max_name (strlen_bounded max_name name)))
      etoolong
  require (leb size block_size) einval
  sb ← mount
  ib ← read_block inode_bitmap_lba
  bb ← read_block block_bitmap_lba
  inodes ← load_inode_table
  dir ← read_block root_dir_lba
  write_new sb ib bb inodes (directory_of dir) name contents size stop_after_commit_record

unfoldable pub write_file : List ℕ → List ℕ → ℕ → Action (Unit {0})
write_file name contents size = write_file_ex name contents size false

-- `inodes[ino].direct[0] >= dev->total_blocks`
abbrev pub require_block : ℕ → Action (Unit {0})
require_block lba dev = require (ltb lba dev.total_blocks) einval dev

-- The result is the buffer with the file copied to its front, and the size of the file.
unfoldable pub read_file : List ℕ → List ℕ → ℕ → Action (List ℕ × ℕ)
read_file name out out_cap = do
  sb ← mount
  inodes ← load_inode_table
  block ← read_block root_dir_lba
  slot ← found (find_dirent (directory_of block).entries 0 name) enoent
  let ino = (get_or (directory_of block).entries slot no_dirent).ino
  let inode = get_or inodes ino no_inode
  require (ltb ino max_inodes && inode.used != 0 && inode.kind == 1) ecorrupt
  require (leb inode.size out_cap) einval
  require_block inode.direct0
  data_block ← read_block inode.direct0
  pure (copy inode.size out data_block, inode.size)
