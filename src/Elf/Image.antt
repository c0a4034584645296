-- ===== src/Elf/Image.antt =====
-- The structures of include/mcsos/user/m11_elf_loader.h, and the headers as they lie in an image.
use mcsos.Common.{ℕ, zero, suc, ◌+◌, ◌*◌, List, get_or, u8}

pub data ElfStatus : Type 0 where
  ok : ElfStatus
  err_null : ElfStatus
  err_size : ElfStatus
  err_magic : ElfStatus
  err_class : ElfStatus
  err_endian : ElfStatus
  err_version : ElfStatus
  err_type : ElfStatus
  err_machine : ElfStatus
  err_ehsize : ElfStatus
  err_phentsize : ElfStatus
  err_phbounds : ElfStatus
  err_align : ElfStatus
  err_segbounds : ElfStatus
  err_segrange : ElfStatus
  err_segcount : ElfStatus
  err_entry : ElfStatus
  err_flags : ElfStatus

-- The fields that the loader reads; `e_ident` is its first seven bytes.
pub record Ehdr : Type 0 where
  pub ident0 : ℕ
  pub ident1 : ℕ
  pub ident2 : ℕ
  pub ident3 : ℕ
  pub ident4 : ℕ
  pub ident5 : ℕ
  pub ident6 : ℕ
  pub e_type : ℕ
  pub e_machine : ℕ
  pub e_version : ℕ
  pub e_entry : ℕ
  pub e_phoff : ℕ
  pub e_ehsize : ℕ
  pub e_phentsize : ℕ
  pub e_phnum : ℕ

pub record Phdr : Type 0 where
  pub p_type : ℕ
  pub p_flags : ℕ
  pub p_offset : ℕ
  pub p_vaddr : ℕ
  pub p_filesz : ℕ
  pub p_memsz : ℕ
  pub p_align : ℕ

pub record UserRegion : Type 0 where
  pub base : ℕ
  pub limit : ℕ

pub record SegmentPlan : Type 0 where
  pub file_offset : ℕ
  pub vaddr : ℕ
  pub filesz : ℕ
  pub memsz : ℕ
  pub align : ℕ
  pub flags : ℕ

pub record ProcessImagePlan : Type 0 where
  pub entry : ℕ
  pub segment_count : ℕ
  pub segments : List SegmentPlan

abbrev pub sizeof_ehdr : ℕ
sizeof_ehdr = 64

abbrev pub sizeof_phdr : ℕ
sizeof_phdr = 56

abbrev pub max_load_segments : ℕ
max_load_segments = 8

abbrev pub pt_load : ℕ
pt_load = 1

-- A little-endian integer of n bytes at an offset of the image.
unfoldable pub read_le : ℕ → List ℕ → ℕ → ℕ
read_le zero image i = 0
read_le (suc n) image i = u8 (get_or image i 0) + 256 * read_le n image (i + 1)

unfoldable pub ehdr_at : List ℕ → ℕ → Ehdr
ehdr_at image i = record {
  ident0 = read_le 1 image i;
  ident1 = read_le 1 image (i + 1);
  ident2 = read_le 1 image (i + 2);
  ident3 = read_le 1 image (i + 3);
  ident4 = read_le 1 image (i + 4);
  ident5 = read_le 1 image (i + 5);
  ident6 = read_le 1 image (i + 6);
  e_type = read_le 2 image (i + 16);
  e_machine = read_le 2 image (i + 18);
  e_version = read_le 4 image (i + 20);
  e_entry = read_le 8 image (i + 24);
  e_phoff = read_le 8 image (i + 32);
  e_ehsize = read_le 2 image (i + 52);
  e_phentsize = read_le 2 image (i + 54);
  e_phnum = read_le 2 image (i + 56);
}

unfoldable pub phdr_at : List ℕ → ℕ → Phdr
phdr_at image i = record {
  p_type = read_le 4 image i;
  p_flags = read_le 4 image (i + 4);
  p_offset = read_le 8 image (i + 8);
  p_vaddr = read_le 8 image (i + 16);
  p_filesz = read_le 8 image (i + 32);
  p_memsz = read_le 8 image (i + 40);
  p_align = read_le 8 image (i + 48);
}
