-- ===== src/Elf/Range.antt =====
-- What an accepted range and an accepted segment of kernel/user/m11_elf_loader.c are.
use mcsos.Common.{
  ◌/◌, ◌%◌, ◌⊎◌, dec_lt, ℕ, ◌+◌, ◌^◌, ◌≤◌, ◌<◌, ◌≡◌, ◌↔◌, Bool, true, false, some, Option-cases,
  inl, inr, arith, ◌&&◌,
}
use mcsos.Elf.Image.{ElfStatus, Phdr, UserRegion}
use mcsos.Elf.Align.{IsAligned, bad_align-IsAligned}
use mcsos.Elf.Plan.{
  add_overflow, validate_user_range, validate_load_segment, bad_flags, writable, executable,
  bad_align,
}

-- Whether the status is that of success.
abbrev pub is_ok : ElfStatus → Bool
is_ok ElfStatus.ok = true
is_ok status = false

-- For 64-bit values, a user range is accepted exactly when it is not empty and lies in the region
-- as a range of integers, so that its end does not wrap around.
pub validate_user_range-contains :
    (region : UserRegion) (base size : ℕ)
    → region.limit < 2 ^ 64
    → base < 2 ^ 64
    → size < 2 ^ 64
    → (is_ok (validate_user_range region base size) ≡ true)
      ↔ ((0 < size) × (region.base ≤ base) × (base + size ≤ region.limit))
unfolding validate_user_range add_overflow
validate_user_range-contains region base size h1 h2 h3 =
    (λ h. (ground arith, ground arith, ground arith), λ h. ground (arith, h.0, h.1, h.2))

-- A segment that may be loaded: no permission bit beyond read, write and execute, and not both
-- write and execute; its bytes lie in the image and fill no more than its memory; its memory is
-- not empty and lies in the region; an alignment is a power of two that the address and the
-- offset share.
pub record Loadable (image_size : ℕ) (region : UserRegion) (ph : Phdr) : Type 0 where
  pub known_flags : ph.p_flags < 8
  pub exclusive : (ph.p_flags / 2 % 2 ≡ 0) ⊎ (ph.p_flags % 2 ≡ 0)
  pub fits : ph.p_filesz ≤ ph.p_memsz
  pub aligned : IsAligned ph
  pub in_image : ph.p_offset + ph.p_filesz ≤ image_size
  pub not_empty : 0 < ph.p_memsz
  pub above : region.base ≤ ph.p_vaddr
  pub below : ph.p_vaddr + ph.p_memsz ≤ region.limit

-- The fields of a header are 64-bit values.
pub record Bounded (ph : Phdr) : Type 0 where
  pub offset : ph.p_offset < 2 ^ 64
  pub vaddr : ph.p_vaddr < 2 ^ 64
  pub filesz : ph.p_filesz < 2 ^ 64
  pub memsz : ph.p_memsz < 2 ^ 64

no_bad_flags : (flags : ℕ) → (bad_flags flags ≡ false) ↔ (flags < 8)
unfolding bad_flags
no_bad_flags flags = (λ h. ground arith, λ h. ground arith)

not_both :
    (flags : ℕ)
    → ((writable flags && executable flags) ≡ false) ↔ ((flags / 2 % 2 ≡ 0) ⊎ (flags % 2 ≡ 0))
unfolding writable executable
not_both flags = (
  λ h. elim (dec_lt 0 (flags % 2)) [
    | yes p ↦ inl (ground (arith, p))
    | no p ↦ inr (omega (arith, p))
  ],
  λ h. ground (arith, h),
)

no_overflow : (a b c : ℕ) → a < 2 ^ 64 → b < 2 ^ 64 → add_overflow a b ≡ some c → c ≡ a + b
unfolding add_overflow
no_overflow a b c h1 h2 h = ground arith

overflow_fits : (a b : ℕ) → a + b < 2 ^ 64 → add_overflow a b ≡ some (a + b)
unfolding add_overflow
overflow_fits a b h = ground arith

-- What the branches of the code have tested when they accept.
record Tested (image_size : ℕ) (region : UserRegion) (ph : Phdr) : Type 0 where
  flags : bad_flags ph.p_flags ≡ false
  exclusive : (writable ph.p_flags && executable ph.p_flags) ≡ false
  fits : ph.p_filesz ≤ ph.p_memsz
  aligned : bad_align ph ≡ false
  file_end : ℕ
  ends : add_overflow ph.p_offset ph.p_filesz ≡ some file_end
  in_image : file_end ≤ image_size
  range : is_ok (validate_user_range region ph.p_vaddr ph.p_memsz) ≡ true

accepted-Tested :
    (ph : Phdr) (image_size : ℕ) (region : UserRegion)
    → is_ok (validate_load_segment ph image_size region) ≡ true
    → Tested image_size region ph
unfolding validate_load_segment
accepted-Tested ph image_size region h =
    elim (Option-cases (add_overflow ph.p_offset ph.p_filesz)) [
      | inl e ↦ absurd (ground (arith, e))
      | inr e ↦ record {
        flags = ground (arith, e.1);
        exclusive = ground (arith, e.1);
        fits = ground (arith, e.1);
        aligned = ground (arith, e.1);
        file_end = e.0;
        ends = e.1;
        in_image = ground (arith, e.1);
        range = ground (arith, e.1);
      }
    ]

-- A loadable segment starts within the image, since it ends there.
Tested-accepted :
    (ph : Phdr) (image_size : ℕ) (region : UserRegion)
    → ph.p_offset ≤ image_size
    → Tested image_size region ph
    → is_ok (validate_load_segment ph image_size region) ≡ true
unfolding validate_load_segment
Tested-accepted ph image_size region h t =
    ground (arith, t.flags, t.exclusive, t.fits, t.aligned, t.ends, t.in_image, t.range)

-- For 64-bit values, a program header is accepted exactly when it is that of a loadable segment:
-- known permissions that never hold both write and execute, contents that lie in the image and
-- fit the memory, memory that is not empty and lies in the user region, and an alignment that is
-- 0, or a power of two that the address and the offset in the image share.
pub validate_load_segment-Loadable :
    (ph : Phdr) (image_size : ℕ) (region : UserRegion)
    → image_size < 2 ^ 64
    → region.limit < 2 ^ 64
    → Bounded ph
    → (is_ok (validate_load_segment ph image_size region) ≡ true) ↔ Loadable image_size region ph
validate_load_segment-Loadable ph image_size region h1 h2 b =
    let contains = validate_user_range-contains region ph.p_vaddr ph.p_memsz h2 b.vaddr b.memsz in
    (
      λ h.
          let t = accepted-Tested ph image_size region h in
          let r = contains.0 t.range in
          let e = no_overflow ph.p_offset ph.p_filesz t.file_end b.offset b.filesz t.ends in
          record {
            known_flags = (no_bad_flags ph.p_flags).0 t.flags;
            exclusive = (not_both ph.p_flags).0 t.exclusive;
            fits = t.fits;
            aligned = (bad_align-IsAligned ph).0 t.aligned;
            in_image = omega (arith, e, t.in_image);
            not_empty = r.0;
            above = r.1;
            below = r.2;
          },
      λ l. Tested-accepted ph image_size region (omega (arith, l.in_image)) (record {
        flags = (no_bad_flags ph.p_flags).1 l.known_flags;
        exclusive = (not_both ph.p_flags).1 l.exclusive;
        fits = l.fits;
        aligned = (bad_align-IsAligned ph).1 l.aligned;
        file_end = ph.p_offset + ph.p_filesz;
        ends = overflow_fits ph.p_offset ph.p_filesz (omega (arith, l.in_image));
        in_image = l.in_image;
        range = contains.1 (l.not_empty, l.above, l.below);
      }),
    )
