-- ===== src/Journal/Examples.antt =====
-- The journal and its file system on a device of 128 zero blocks: runs, and the theorem on crashes at
-- this device.
use mcsos.Bitmap.{bitmap_set, bitmap_test}
use mcsos.Journal.Device.{◌>>◌, valid_lba, read_block, write_block, Result, err}
use mcsos.Journal.Bytes.{le, get_le, checksum, checksum_from}
use mcsos.Journal.Log.{
  header_bytes, header_of, desc_bytes, desc_of, header_checksum, journal_clear, write_records,
  write_homes, sealed, replay, recover_from,
}
use mcsos.Journal.Layout.{
  split, super_bytes, super_of, inode_bytes, get_inode, inodes_bytes, inodes_of, dirent_bytes,
  get_dirent, entries_bytes, directory_bytes, directory_from, directory_of, strlen_bounded,
  streq_from, streq, find_free, find_dirent, find_free_dirent, copy,
}
use mcsos.Journal.Files.{
  read_table, load_inode_table, store_table, store_inode_table, set_bits, write_table, format,
  mount, write_new, write_file_ex, read_file,
}
use mcsos.Common.{
  Option, none, some, [], true, ℕ, zero, suc, ◌≤◌, ◌<◌, ◌≡◌, ◌≢◌, refl, false, List, ◌∷◌, some,
  arith, replicate, ◌⊎◌,
}
use mcsos.Journal.Device.{ok, BlockDev, zero_block}
use mcsos.Journal.Log.{Tx, no_record, empty_tx, record_at, tx_add, journal_commit, journal_recover}
use mcsos.Journal.Codec.{zero_block-empty}
use mcsos.Journal.Replay.{TxFits}
use mcsos.Journal.Stages.{SameHomes, applied}
use mcsos.Journal.Crash.{Ready, restarted, journal_recover-journal_commit}

abbrev blank : BlockDev
blank = record {
  blocks = replicate 128 zero_block;
  total_blocks = 128;
  writes = 0;
  fail_after = some 3;
}

abbrev sevens : List ℕ
sevens = replicate 512 7

abbrev one_record : Tx
one_record = record {
  count = 1;
  rec = record { target_lba = 20; payload = sevens } ∷ replicate 7 no_record;
}

adds : tx_add empty_tx 20 sevens ≡ (one_record, ok tt)
unfolding tx_add
adds = refl

blank-Ready : Ready blank
blank-Ready = record {
  most = omega arith;
  least = omega arith;
  backed = omega arith;
  empty = zero_block-empty;
}

one_record-TxFits : TxFits 128 one_record
one_record-TxFits = record { few = omega arith; homes = homes }
  where
    homes :
        (i : ℕ)
        → i < 1
        → (18 ≤ (record_at one_record i).target_lba) × ((record_at one_record i).target_lba < 128)
    homes zero h = (omega arith, omega arith)
    homes (suc i) h = absurd (omega (arith, h))

journal_recover-journal_commit_example :
    (after : BlockDev) × (journal_recover (restarted (journal_commit one_record 9 false blank).0)
      ≡ (after, ok tt))
    × (((3 < 4)
          × ((journal_commit one_record 9 false blank).1 ≢ ok tt)
          × SameHomes after.blocks blank.blocks)
        ⊎ ((4 ≤ 3) × SameHomes after.blocks (applied one_record blank.blocks)))
journal_recover-journal_commit_example =
    journal_recover-journal_commit blank one_record 9 3 blank-Ready one_record-TxFits (omega arith)
      refl

abbrev working : BlockDev
working = record blank { fail_after = none }

abbrev name : List ℕ
name = 97 ∷ 98 ∷ 0 ∷ []

value : {A : Type 0} → BlockDev × Result A → Option A
value (dev, ok a) = some a
value (dev, err e) = none

-- A file is written, up to the sealed header of the last transaction; reading it recovers the rest.
stored_file : Option (List ℕ × ℕ)
stored_file = value (
    (format >> (write_file_ex name (1 ∷ 2 ∷ 3 ∷ []) 3 true >> read_file name (replicate 5 0) 5))
      working)

reads_back : stored_file ≡ some (1 ∷ 2 ∷ 3 ∷ 0 ∷ 0 ∷ [], 3)
unfolding stored_file value bitmap_set bitmap_test valid_lba read_block write_block le get_le
    checksum checksum_from header_bytes header_of desc_bytes desc_of header_checksum journal_clear
    write_records write_homes sealed replay recover_from journal_commit journal_recover tx_add split
    super_bytes super_of inode_bytes get_inode inodes_bytes inodes_of dirent_bytes get_dirent
    entries_bytes directory_bytes directory_from directory_of strlen_bounded streq_from streq
    find_free find_dirent find_free_dirent copy read_table load_inode_table store_table
    store_inode_table set_bits write_table format mount write_new write_file_ex read_file
reads_back = refl
