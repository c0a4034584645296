-- ===== src/Journal/Layout.antt =====
-- The superblock, the inodes and the directory of kernel/fs/mcsfs1j/m16_mcsfs_journal.c, as records and
-- as the bytes that they occupy.
use mcsos.Common.{
  ℕ, zero, suc, ◌+◌, Bool, true, false, ◌&&◌, List, [], ◌∷◌, ◌++◌, Option, none, some, ◌==◌, ◌!=◌,
  if◌then◌else◌, get_or, replicate, not,
}
use mcsos.Bitmap.{bitmap_test}
use mcsos.Journal.Bytes.{le, get_le}

abbrev pub max_inodes : ℕ
max_inodes = 16

abbrev pub max_name : ℕ
max_name = 32

abbrev pub max_dirents : ℕ
max_dirents = 12

abbrev pub magic : ℕ
magic = 0x4d43534631564a31

abbrev pub inode_bitmap_lba : ℕ
inode_bitmap_lba = 18

abbrev pub block_bitmap_lba : ℕ
block_bitmap_lba = 19

abbrev pub inode_table_lba : ℕ
inode_table_lba = 20

abbrev pub inode_table_blocks : ℕ
inode_table_blocks = 4

abbrev pub root_dir_lba : ℕ
root_dir_lba = 24

abbrev pub data_start_lba : ℕ
data_start_lba = 25

pub record Super : Type 0 where
  pub magic : ℕ
  pub version : ℕ
  pub block_size : ℕ
  pub total_blocks : ℕ
  pub journal_start : ℕ
  pub journal_blocks : ℕ
  pub inode_bitmap_lba : ℕ
  pub block_bitmap_lba : ℕ
  pub inode_table_lba : ℕ
  pub inode_table_blocks : ℕ
  pub root_dir_lba : ℕ
  pub data_start_lba : ℕ
  pub clean_generation : ℕ
  pub reserved : List ℕ

-- `direct` is the array of four block numbers.
pub record Inode : Type 0 where
  pub used : ℕ
  pub kind : ℕ
  pub size : ℕ
  pub direct0 : ℕ
  pub direct1 : ℕ
  pub direct2 : ℕ
  pub direct3 : ℕ
  pub reserved : List ℕ

pub record Dirent : Type 0 where
  pub used : ℕ
  pub ino : ℕ
  pub name : List ℕ

-- A directory block: twelve entries, and the 32 bytes behind them.
pub record Directory : Type 0 where
  pub entries : List Dirent
  pub tail : List ℕ

-- The first n bytes, and those behind them.
unfoldable pub split : ℕ → List ℕ → List ℕ × List ℕ
split zero bs = ([], bs)
split (suc n) [] = ([], [])
split (suc n) (b ∷ bs) = let (front, back) = split n bs in (b ∷ front, back)

unfoldable pub super_bytes : Super → List ℕ
super_bytes s =
    le 8 s.magic
    ++ (le 4 s.version
        ++ (le 4 s.block_size
            ++ (le 4 s.total_blocks
                ++ (le 4 s.journal_start
                    ++ (le 4 s.journal_blocks
                        ++ (le 4 s.inode_bitmap_lba
                            ++ (le 4 s.block_bitmap_lba
                                ++ (le 4 s.inode_table_lba
                                    ++ (le 4 s.inode_table_blocks
                                        ++ (le 4 s.root_dir_lba
                                            ++ (le 4 s.data_start_lba
                                                ++ (le 4 s.clean_generation
                                                    ++ s.reserved))))))))))))

unfoldable pub super_of : List ℕ → Super
super_of bs =
    let (magic, bs1) = get_le 8 bs in
    let (version, bs2) = get_le 4 bs1 in
    let (block_size, bs3) = get_le 4 bs2 in
    let (total_blocks, bs4) = get_le 4 bs3 in
    let (journal_start, bs5) = get_le 4 bs4 in
    let (journal_blocks, bs6) = get_le 4 bs5 in
    let (inode_bitmap_lba, bs7) = get_le 4 bs6 in
    let (block_bitmap_lba, bs8) = get_le 4 bs7 in
    let (inode_table_lba, bs9) = get_le 4 bs8 in
    let (inode_table_blocks, bs10) = get_le 4 bs9 in
    let (root_dir_lba, bs11) = get_le 4 bs10 in
    let (data_start_lba, bs12) = get_le 4 bs11 in
    let (clean_generation, bs13) = get_le 4 bs12 in
    record {
      magic = magic;
      version = version;
      block_size = block_size;
      total_blocks = total_blocks;
      journal_start = journal_start;
      journal_blocks = journal_blocks;
      inode_bitmap_lba = inode_bitmap_lba;
      block_bitmap_lba = block_bitmap_lba;
      inode_table_lba = inode_table_lba;
      inode_table_blocks = inode_table_blocks;
      root_dir_lba = root_dir_lba;
      data_start_lba = data_start_lba;
      clean_generation = clean_generation;
      reserved = bs13;
    }

unfoldable pub inode_bytes : Inode → List ℕ
inode_bytes i =
    le 4 i.used
    ++ (le 4 i.kind
        ++ (le 4 i.size
            ++ (le 4 i.direct0
                ++ (le 4 i.direct1 ++ (le 4 i.direct2 ++ (le 4 i.direct3 ++ i.reserved))))))

-- The inode at the front, and the bytes behind it.
unfoldable pub get_inode : List ℕ → Inode × List ℕ
get_inode bs =
    let (used, bs1) = get_le 4 bs in
    let (kind, bs2) = get_le 4 bs1 in
    let (size, bs3) = get_le 4 bs2 in
    let (direct0, bs4) = get_le 4 bs3 in
    let (direct1, bs5) = get_le 4 bs4 in
    let (direct2, bs6) = get_le 4 bs5 in
    let (direct3, bs7) = get_le 4 bs6 in
    let (reserved, bs8) = split 100 bs7 in
    (
      record {
        used = used;
        kind = kind;
        size = size;
        direct0 = direct0;
        direct1 = direct1;
        direct2 = direct2;
        direct3 = direct3;
        reserved = reserved;
      },
      bs8,
    )

unfoldable pub inodes_bytes : List Inode → List ℕ
inodes_bytes [] = []
inodes_bytes (i ∷ is) = inode_bytes i ++ inodes_bytes is

unfoldable pub inodes_of : ℕ → List ℕ → List Inode
inodes_of zero bs = []
inodes_of (suc n) bs = let (i, rest) = get_inode bs in i ∷ inodes_of n rest

unfoldable pub dirent_bytes : Dirent → List ℕ
dirent_bytes d = le 4 d.used ++ (le 4 d.ino ++ d.name)

unfoldable pub get_dirent : List ℕ → Dirent × List ℕ
get_dirent bs =
    let (used, bs1) = get_le 4 bs in
    let (ino, bs2) = get_le 4 bs1 in
    let (name, bs3) = split max_name bs2 in (record { used = used; ino = ino; name = name }, bs3)

unfoldable pub entries_bytes : List Dirent → List ℕ → List ℕ
entries_bytes [] tail = tail
entries_bytes (d ∷ ds) tail = dirent_bytes d ++ entries_bytes ds tail

unfoldable pub directory_bytes : Directory → List ℕ
directory_bytes dir = entries_bytes dir.entries dir.tail

unfoldable pub directory_from : ℕ → List ℕ → Directory
directory_from zero bs = record { entries = []; tail = bs }
directory_from (suc n) bs =
    let (d, rest) = get_dirent bs in
    let dir = directory_from n rest in record dir { entries = d ∷ dir.entries }

unfoldable pub directory_of : List ℕ → Directory
directory_of bs = directory_from max_dirents bs

abbrev pub no_inode : Inode
no_inode = record {
  used = 0;
  kind = 0;
  size = 0;
  direct0 = 0;
  direct1 = 0;
  direct2 = 0;
  direct3 = 0;
  reserved = replicate 100 0;
}

abbrev pub no_dirent : Dirent
no_dirent = record { used = 0; ino = 0; name = replicate max_name 0 }

-- `m16_strlen_bounded`, by the rounds left; a byte behind the text is 0.
unfoldable pub strlen_bounded : ℕ → List ℕ → ℕ
strlen_bounded zero s = 0
strlen_bounded (suc n) [] = 0
strlen_bounded (suc n) (c ∷ s) = if c == 0 then 0 else suc (strlen_bounded n s)

-- `m16_streq`, by the rounds left, from index i on.
unfoldable pub streq_from : ℕ → ℕ → List ℕ → List ℕ → Bool
streq_from zero i a b = true
streq_from (suc n) i a b =
    let rest = streq_from n (i + 1) a b in
    if get_or a i 0 != get_or b i 0 then false else if get_or a i 0 == 0 then true else rest

unfoldable pub streq : List ℕ → List ℕ → Bool
streq a b = streq_from max_name 0 a b

-- The first clear bit among n from bit i on.
unfoldable pub find_free : ℕ → ℕ → List ℕ → Option ℕ
find_free zero i bm = none
find_free (suc n) i bm =
    let rest = find_free n (i + 1) bm in if not (bitmap_test bm i) then some i else rest

-- `m16_find_dirent` among the entries, the first of which has index i.
unfoldable pub find_dirent : List Dirent → ℕ → List ℕ → Option ℕ
find_dirent [] i name = none
find_dirent (d ∷ ds) i name =
    let rest = find_dirent ds (i + 1) name in
    if d.used != 0 && streq d.name name then some i else rest

unfoldable pub find_free_dirent : List Dirent → ℕ → Option ℕ
find_free_dirent [] i = none
find_free_dirent (d ∷ ds) i =
    let rest = find_free_dirent ds (i + 1) in if d.used == 0 then some i else rest

-- `m16_copy(dst, src, n)`; a byte behind the source is 0.
unfoldable pub copy : ℕ → List ℕ → List ℕ → List ℕ
copy zero dst src = dst
copy (suc n) [] src = []
copy (suc n) (d ∷ ds) [] = 0 ∷ copy n ds []
copy (suc n) (d ∷ ds) (s ∷ ss) = s ∷ copy n ds ss
