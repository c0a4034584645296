-- ===== src/Vmm/Words.antt =====
-- The words of a page table and the indices of an address.
use mcsos.Common.{ℕ, ◌+◌, ◌-◌, ◌*◌, ◌/◌, ◌%◌, ◌^◌, ◌<◌, ◌≡◌, refl, true, false, arith}
use mcsos.Vmm.Table.{
  bit, is_present, is_huge, addr_of, allowed_flags, table_entry, page_entry, is_aligned_4k,
  is_canonical, idx_pml4, idx_pdpt, idx_pd, idx_pt,
}

pub addr_of-frame : (p : ℕ) → p % 4096 ≡ 0 → p < 2 ^ 52 → addr_of p ≡ p
addr_of-frame p a h = omega (arith, a, h)

pub is_present-table_entry : (p : ℕ) → is_present (table_entry p) ≡ true
is_present-table_entry p = ground arith

pub is_huge-table_entry : (p : ℕ) → is_huge (table_entry p) ≡ false
is_huge-table_entry p = ground arith

pub addr_of-table_entry : (p : ℕ) → addr_of (table_entry p) ≡ addr_of p
addr_of-table_entry p = omega arith

flags_form :
    (flags : ℕ)
    → (low : ℕ) × (high : ℕ) × (low < 256)
      × (high < 2)
      × (allowed_flags flags ≡ low * 2 + high * 2 ^ 63)
unfolding allowed_flags
flags_form flags = (
  bit 1 flags + bit 2 flags * 2 + bit 3 flags * 4 + bit 4 flags * 8 + bit 8 flags * 128,
  bit 63 flags,
  omega arith,
  omega arith,
  omega arith,
)

addr_form : (p : ℕ) → (k : ℕ) × (k < 2 ^ 40) × (addr_of p ≡ k * 4096)
addr_form p = (p / 4096 % 2 ^ 40, omega arith, refl)

pub is_present-page_entry : (p flags : ℕ) → is_present (page_entry p flags) ≡ true
is_present-page_entry p flags =
    let f = flags_form flags in let a = addr_form p in ground (arith, f, a)

pub addr_of-page_entry : (p flags : ℕ) → addr_of (page_entry p flags) ≡ addr_of p
addr_of-page_entry p flags =
    let f = flags_form flags in let a = addr_form p in omega (arith, f.2, f.3, f.4, a.1, a.2)

pub flags-page_entry :
    (p flags : ℕ) → page_entry p flags - addr_of (page_entry p flags) ≡ 1 + allowed_flags flags
flags-page_entry p flags = omega (arith, addr_of-page_entry p flags)

-- An address that the operations accept: canonical, of a page, and of 64 bits.
pub record IsPage (vaddr : ℕ) : Type 0 where
  pub canonical : is_canonical vaddr ≡ true
  pub aligned : is_aligned_4k vaddr ≡ true
  pub wide : vaddr < 2 ^ 64

-- The two halves of the canonical addresses.
page_form : (v : ℕ) → IsPage v → (v % 4096 ≡ 0) × (v / 2 ^ 48 ≡ v / 2 ^ 47 % 2 * 0xFFFF)
unfolding is_canonical is_aligned_4k
page_form v h = (ground (arith, h.aligned), ground (arith, h.canonical))

same_indices :
    (v w : ℕ)
    → idx_pml4 v ≡ idx_pml4 w
    → idx_pdpt v ≡ idx_pdpt w
    → idx_pd v ≡ idx_pd w
    → idx_pt v ≡ idx_pt w
    → v / 4096 % 2 ^ 36 ≡ w / 4096 % 2 ^ 36
unfolding idx_pml4 idx_pdpt idx_pd idx_pt
same_indices v w e4 e3 e2 e1 = omega (arith, e4, e3, e2, e1)

pub same_page :
    (v w : ℕ)
    → IsPage v
    → IsPage w
    → idx_pml4 v ≡ idx_pml4 w
    → idx_pdpt v ≡ idx_pdpt w
    → idx_pd v ≡ idx_pd w
    → idx_pt v ≡ idx_pt w
    → v ≡ w
same_page v w hv hw e4 e3 e2 e1 =
    let fv = page_form v hv in
    let fw = page_form w hw in let e = same_indices v w e4 e3 e2 e1 in omega (arith, fv, fw, e)
