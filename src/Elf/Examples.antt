-- ===== src/Elf/Examples.antt =====
-- An image of one page of code: runs of the loader, and its theorems at this image.
use mcsos.Common.{ℕ, ◌≡◌, refl, true, false, List, [], ◌∷◌, ◌++◌, some, arith, replicate, ◌↔◌}
use mcsos.Elf.Image.{ElfStatus, Phdr, UserRegion, ProcessImagePlan, read_le, ehdr_at, phdr_at}
use mcsos.Elf.Plan.{
  zero_plan, add_overflow, is_power_of_two, validate_user_range, validate_ident,
  validate_phdr_bounds, bad_flags, writable, executable, bad_align, validate_load_segment,
  plan_segment, plan_segments, validate_header, plan_load,
}
use mcsos.Elf.Range.{is_ok, Loadable, Bounded, validate_load_segment-Loadable}
use mcsos.Elf.Accepts.{Accepted, plan_load-Accepted}
use mcsos.Elf.Refuses.{NoSegment, plan_load-NoSegment}

abbrev region : UserRegion
region = record { base = 0x400000; limit = 0x500000 }

abbrev zeros : ℕ → List ℕ
zeros n = replicate n 0

-- The header: the entry 0x400080, one program header at 64.
abbrev header : List ℕ
header =
    (0x7f ∷ 69 ∷ 76 ∷ 70 ∷ 2 ∷ 1 ∷ 1 ∷ zeros 9)
    ++ (2 ∷ 0 ∷ 62 ∷ 0 ∷ 1 ∷ 0 ∷ 0 ∷ 0 ∷ [])
    ++ (0x80 ∷ 0 ∷ 0x40 ∷ zeros 5)
    ++ (64 ∷ zeros 7)
    ++ zeros 12
    ++ (64 ∷ 0 ∷ 56 ∷ 0 ∷ 1 ∷ zeros 7)

-- The program header: a segment of the given flags, 128 bytes of the file from 0 at 0x400000.
abbrev image_with : ℕ → List ℕ
image_with flags =
    header
    ++ (1 ∷ 0 ∷ 0 ∷ 0 ∷ flags ∷ 0 ∷ 0 ∷ 0 ∷ zeros 8)
    ++ (0 ∷ 0 ∷ 0x40 ∷ zeros 5)
    ++ zeros 8
    ++ (128 ∷ zeros 7)
    ++ (0 ∷ 1 ∷ zeros 6)
    ++ (0 ∷ 0x10 ∷ zeros 6)
    ++ zeros 8

-- Read and execute.
abbrev image : List ℕ
image = image_with 5

-- All three permissions.
abbrev open_image : List ℕ
open_image = image_with 7

accepts : (plan_load (some image) 128 region (some zero_plan)).0 ≡ ElfStatus.ok
unfolding plan_load validate_header validate_ident validate_phdr_bounds validate_user_range
    add_overflow plan_segments plan_segment validate_load_segment bad_flags writable executable
    bad_align is_power_of_two ehdr_at phdr_at read_le
accepts = refl

refuses : (plan_load (some open_image) 128 region (some zero_plan)).0 ≡ ElfStatus.err_flags
unfolding plan_load validate_header validate_ident validate_phdr_bounds validate_user_range
    add_overflow plan_segments plan_segment validate_load_segment bad_flags writable executable
    bad_align is_power_of_two ehdr_at phdr_at read_le
refuses = refl

plan_load-Accepted_example :
    (plan : ProcessImagePlan) × ((plan_load (some image) 128 region (some zero_plan)).1 ≡ some plan)
    × Accepted image 128 region plan
plan_load-Accepted_example =
    plan_load-Accepted image 128 region zero_plan (omega arith) (omega arith) accepts

is_ok_refused : is_ok (plan_load (some open_image) 128 region (some zero_plan)).0 ≡ false
is_ok_refused = rw refuses refl

plan_load-NoSegment_example :
    (plan : ProcessImagePlan) × ((plan_load (some open_image) 128 region (some zero_plan)).1
      ≡ some plan)
    × NoSegment plan
plan_load-NoSegment_example = plan_load-NoSegment open_image 128 region zero_plan is_ok_refused

abbrev code : Phdr
code = record {
  p_type = 1;
  p_flags = 5;
  p_offset = 0;
  p_vaddr = 0x400000;
  p_filesz = 128;
  p_memsz = 0x100;
  p_align = 0x1000;
}

code-Bounded : Bounded code
code-Bounded = record {
  offset = omega arith;
  vaddr = omega arith;
  filesz = omega arith;
  memsz = omega arith;
}

validate_load_segment-Loadable_example :
    (is_ok (validate_load_segment code 128 region) ≡ true) ↔ Loadable 128 region code
validate_load_segment-Loadable_example =
    validate_load_segment-Loadable code 128 region (omega arith) (omega arith) code-Bounded
