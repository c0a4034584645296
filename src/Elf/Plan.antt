-- ===== src/Elf/Plan.antt =====
-- The checks of kernel/user/m11_elf_loader.c and `m11_elf64_plan_load`.
use Prim.Native.Nat.{bit_and}
use mcsos.Common.{
  ℕ, zero, suc, ◌+◌, ◌-◌, ◌*◌, ◌/◌, ◌%◌, Bool, false, List, Option, none, some, ltb, leb, ◌==◌,
  ◌!=◌, if◌then◌else◌, ◌&&◌, ◌||◌, not, set, replicate, add_u64, u64, u32,
}
use mcsos.Elf.Image.{
  ElfStatus, Ehdr, Phdr, UserRegion, SegmentPlan, ProcessImagePlan, sizeof_ehdr, sizeof_phdr,
  max_load_segments, pt_load, ehdr_at, phdr_at,
}

-- `m11_add_overflow_u64`: none stands for the result 1.
unfoldable pub add_overflow : ℕ → ℕ → Option ℕ
add_overflow a b = if ltb (add_u64 a b) a then none else some (add_u64 a b)

unfoldable pub is_power_of_two : ℕ → Bool
is_power_of_two v = v != 0 && bit_and v (v - 1) == 0

abbrev pub empty_segment : SegmentPlan
empty_segment = record { file_offset = 0; vaddr = 0; filesz = 0; memsz = 0; align = 0; flags = 0 }

-- The plan that `m11_zero_plan` leaves.
abbrev pub zero_plan : ProcessImagePlan
zero_plan = record {
  entry = 0;
  segment_count = 0;
  segments = replicate max_load_segments empty_segment;
}

abbrev range_end : UserRegion → ℕ → Option ℕ → ElfStatus
range_end region base none = ElfStatus.err_segrange
range_end region base (some last) =
    if ltb base region.base || ltb region.limit last || leb last base
    then ElfStatus.err_segrange
    else ElfStatus.ok

unfoldable pub validate_user_range : UserRegion → ℕ → ℕ → ElfStatus
validate_user_range region base size =
    if leb region.limit region.base
    then ElfStatus.err_segrange
    else if size == 0
    then ElfStatus.err_segrange
    else range_end region base (add_overflow base size)

-- The magic is 0x7f, 'E', 'L', 'F'; the class 2 has 64 bits, the encoding 1 is little-endian.
unfoldable pub validate_ident : Ehdr → ElfStatus
validate_ident eh =
    if eh.ident0 != 0x7f || eh.ident1 != 69 || eh.ident2 != 76 || eh.ident3 != 70
    then ElfStatus.err_magic
    else if eh.ident4 != 2
    then ElfStatus.err_class
    else if eh.ident5 != 1
    then ElfStatus.err_endian
    else if eh.ident6 != 1 || eh.e_version != 1
    then ElfStatus.err_version
    else ElfStatus.ok

abbrev table_end : Ehdr → ℕ → Option ℕ → ElfStatus
table_end eh image_size none = ElfStatus.err_phbounds
table_end eh image_size (some last) =
    if ltb image_size last || ltb image_size eh.e_phoff
    then ElfStatus.err_phbounds
    else ElfStatus.ok

-- The division that looks for a wrapped product is by a positive `e_phnum`.
unfoldable pub validate_phdr_bounds : Ehdr → ℕ → ElfStatus
validate_phdr_bounds eh image_size =
    let table_bytes = u64 (eh.e_phentsize * eh.e_phnum) in
    if eh.e_phnum == 0
    then ElfStatus.err_phbounds
    else if eh.e_phentsize != sizeof_phdr
    then ElfStatus.err_phentsize
    else if table_bytes / eh.e_phnum != eh.e_phentsize
    then ElfStatus.err_phbounds
    else table_end eh image_size (add_overflow eh.e_phoff table_bytes)

-- The tests of `p_flags`: `flags & ~7`, `flags & 2` and `flags & 1`.
unfoldable pub bad_flags : ℕ → Bool
bad_flags flags = flags / 8 != 0

unfoldable pub writable : ℕ → Bool
writable flags = flags / 2 % 2 != 0

unfoldable pub executable : ℕ → Bool
executable flags = flags % 2 != 0

unfoldable pub bad_align : Phdr → Bool
bad_align ph =
    if ph.p_align == 0 || ph.p_align == 1
    then false
    else not (is_power_of_two ph.p_align) || ph.p_vaddr % ph.p_align != ph.p_offset % ph.p_align

abbrev segment_end : Phdr → ℕ → UserRegion → Option ℕ → ElfStatus
segment_end ph image_size region none = ElfStatus.err_segbounds
segment_end ph image_size region (some file_end) =
    if ltb image_size file_end || ltb image_size ph.p_offset
    then ElfStatus.err_segbounds
    else validate_user_range region ph.p_vaddr ph.p_memsz

unfoldable pub validate_load_segment : Phdr → ℕ → UserRegion → ElfStatus
validate_load_segment ph image_size region =
    if bad_flags ph.p_flags
    then ElfStatus.err_flags
    else if writable ph.p_flags && executable ph.p_flags
    then ElfStatus.err_flags
    else if ltb ph.p_memsz ph.p_filesz
    then ElfStatus.err_segbounds
    else if bad_align ph
    then ElfStatus.err_align
    else segment_end ph image_size region (add_overflow ph.p_offset ph.p_filesz)

abbrev pub planned : Phdr → SegmentPlan
planned ph = record {
  file_offset = ph.p_offset;
  vaddr = ph.p_vaddr;
  filesz = ph.p_filesz;
  memsz = ph.p_memsz;
  align = ph.p_align;
  flags = ph.p_flags;
}

abbrev pub add_segment : ProcessImagePlan → Phdr → ProcessImagePlan
add_segment plan ph = record plan {
  segments = set plan.segments plan.segment_count (planned ph);
  segment_count = u32 (plan.segment_count + 1);
}

abbrev pub segment_checked : ElfStatus → ProcessImagePlan → Phdr → ElfStatus × ProcessImagePlan
segment_checked ElfStatus.ok plan ph = (ElfStatus.ok, add_segment plan ph)
segment_checked rc plan ph = (rc, zero_plan)

-- One round of the loop; a status other than `ok` ends it.
unfoldable pub plan_segment :
    Phdr → ℕ → UserRegion → ProcessImagePlan → ElfStatus × ProcessImagePlan
plan_segment ph image_size region plan =
    if ph.p_type != pt_load
    then (ElfStatus.ok, plan)
    else if leb max_load_segments plan.segment_count
    then (ElfStatus.err_segcount, zero_plan)
    else segment_checked (validate_load_segment ph image_size region) plan ph

abbrev pub go_on :
    ElfStatus
    → ElfStatus × ProcessImagePlan
    → ElfStatus × ProcessImagePlan
    → ElfStatus × ProcessImagePlan
go_on ElfStatus.ok stopped rest = rest
go_on rc stopped rest = stopped

-- The loop, by the program headers left; the next one is number i of the table at `phoff`.
unfoldable pub plan_segments :
    List ℕ → ℕ → UserRegion → ℕ → ℕ → ℕ → ProcessImagePlan → ElfStatus × ProcessImagePlan
plan_segments image image_size region phoff zero i plan =
    if plan.segment_count == 0 then (ElfStatus.err_segcount, plan) else (ElfStatus.ok, plan)
plan_segments image image_size region phoff (suc n) i plan =
    let round = plan_segment (phdr_at image (phoff + i * sizeof_phdr)) image_size region plan in
    let rest = plan_segments image image_size region phoff n (i + 1) round.1 in
    go_on round.0 round rest

-- The checks of the header, in order, up to that of the entry point.
unfoldable pub validate_header : Ehdr → ℕ → UserRegion → ElfStatus
validate_header eh image_size region = elim (validate_ident eh) [
  | ElfStatus.ok ↦
      if eh.e_type != 2 && eh.e_type != 3
      then ElfStatus.err_type
      else if eh.e_machine != 62
      then ElfStatus.err_machine
      else if eh.e_ehsize != sizeof_ehdr
      then ElfStatus.err_ehsize
      else elim (validate_phdr_bounds eh image_size) [
        | ElfStatus.ok ↦ elim (validate_user_range region eh.e_entry 1) [
          | ElfStatus.ok ↦ ElfStatus.ok
          | rc ↦ ElfStatus.err_entry
        ]
        | rc ↦ rc
      ]
  | rc ↦ rc
]

abbrev pub after_header :
    ElfStatus → ElfStatus × ProcessImagePlan → ElfStatus × Option ProcessImagePlan
after_header ElfStatus.ok done = (done.0, some done.1)
after_header rc done = (rc, some zero_plan)

-- `image` or `out_plan` is none where the pointer is null.
unfoldable pub plan_load :
    Option (List ℕ) → ℕ → UserRegion → Option ProcessImagePlan → ElfStatus × Option ProcessImagePlan
plan_load none image_size region out = (ElfStatus.err_null, out)
plan_load (some image) image_size region none = (ElfStatus.err_null, none)
plan_load (some image) image_size region (some out) =
    if ltb image_size sizeof_ehdr
    then (ElfStatus.err_size, some zero_plan)
    else let eh = ehdr_at image 0 in
      after_header (validate_header eh image_size region) (
        plan_segments image image_size region eh.e_phoff eh.e_phnum 0
          (record zero_plan { entry = eh.e_entry }))
