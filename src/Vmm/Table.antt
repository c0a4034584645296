-- ===== src/Vmm/Table.antt =====
-- The operations of src/vmm.c on four levels of page tables. A page table is a page of 512 words; a
-- pointer to it is a number, and `W` is the state that the functions of the space act on.
use mcsos.Common.{
  ℕ, zero, suc, ◌+◌, ◌-◌, ◌*◌, ◌/◌, ◌%◌, ◌^◌, Bool, not, ◌&&◌, ◌||◌, Option, none, some, ◌==◌, ◌!=◌,
  if◌then◌else◌,
}

pub data Status : Type 0 where
  ok einval enomem eexists enot_found : Status

-- What a step of a walk gives, or the code with which the function returns.
pub data Walk {ℓ} (A : Type ℓ) : Type ℓ where
  found : A → Walk A
  stop : Status → Walk A

infixl 5 ◌>>=◌
abbrev pub ◌>>=◌ : {A B : Type 0} → Walk A → (A → Walk B) → Walk B
found a >>= f = f a
stop s >>= f = stop s

-- The memory, word i of the table at p being `tables p i`, and the state of the space's functions.
pub record Machine (W : Type 0) : Type 0 where
  pub tables : ℕ → ℕ → ℕ
  pub world : W

-- `phys_to_virt` with its context; a null pointer is none.
pub record VmmSpace (W : Type 0) : Type 0 where
  pub root_paddr : ℕ
  pub alloc_frame : Option (Machine W → Machine W × ℕ)
  pub free_frame : Option (Machine W → ℕ → Machine W)
  pub phys_to_virt : Option (ℕ → Option ℕ)

pub record VmmMapping : Type 0 where
  pub vaddr : ℕ
  pub paddr : ℕ
  pub flags : ℕ

abbrev pub page_size : ℕ
page_size = 4096

abbrev pub entries_per_table : ℕ
entries_per_table = 512

abbrev pub invalid_phys : ℕ
invalid_phys = 2 ^ 64 - 1

-- Bit n, as 0 or 1.
abbrev pub bit : ℕ → ℕ → ℕ
bit n value = value / 2 ^ n % 2

-- `entry & VMM_PTE_PRESENT`, `entry & VMM_PTE_HUGE` and `entry & VMM_PTE_ADDR_MASK`
abbrev pub is_present : ℕ → Bool
is_present entry = bit 0 entry != 0

abbrev pub is_huge : ℕ → Bool
is_huge entry = bit 7 entry != 0

abbrev pub addr_of : ℕ → ℕ
addr_of entry = entry / 4096 % 2 ^ 40 * 4096

-- `flags & allowed`
unfoldable pub allowed_flags : ℕ → ℕ
allowed_flags flags =
    bit 1 flags * 2
    + bit 2 flags * 4
    + bit 3 flags * 8
    + bit 4 flags * 16
    + bit 8 flags * 256
    + bit 63 flags * 2 ^ 63

unfoldable pub is_aligned_4k : ℕ → Bool
is_aligned_4k value = value % page_size == 0

unfoldable pub is_canonical : ℕ → Bool
is_canonical vaddr = if bit 47 vaddr != 0 then vaddr / 2 ^ 48 == 0xFFFF else vaddr / 2 ^ 48 == 0

unfoldable pub idx_pml4 : ℕ → ℕ
idx_pml4 vaddr = vaddr / 2 ^ 39 % 512

unfoldable pub idx_pdpt : ℕ → ℕ
idx_pdpt vaddr = vaddr / 2 ^ 30 % 512

unfoldable pub idx_pd : ℕ → ℕ
idx_pd vaddr = vaddr / 2 ^ 21 % 512

unfoldable pub idx_pt : ℕ → ℕ
idx_pt vaddr = vaddr / 2 ^ 12 % 512

-- `table[index] = value`
unfoldable pub put : {W : Type 0} → ℕ → ℕ → ℕ → Machine W → Machine W
put table index value m = record m {
  tables = λ p i. if p == table && i == index then value else m.tables p i;
}

-- The loop of `vmm_zero_page`, by the rounds left.
unfoldable pub zero_from : {W : Type 0} → ℕ → ℕ → ℕ → Machine W → Machine W
zero_from zero i page m = m
zero_from (suc n) i page m = zero_from n (i + 1) page (put page i 0 m)

unfoldable pub zero_page : {W : Type 0} → ℕ → Machine W → Machine W
zero_page page m = zero_from entries_per_table 0 page m

unfoldable pub table_from_phys : {W : Type 0} → VmmSpace W → ℕ → Option ℕ
table_from_phys space paddr = elim space.phys_to_virt [
  | none ↦ none
  | some phys_to_virt ↦ if is_aligned_4k paddr then phys_to_virt paddr else none
]

-- `if (table == 0) return VMM_ERR_INVAL;`
abbrev pub non_null : Option ℕ → Walk ℕ
non_null none = stop einval
non_null (some table) = found table

unfoldable pub root_table : {W : Type 0} → VmmSpace W → Walk ℕ
root_table space = non_null (table_from_phys space space.root_paddr)

abbrev pub freed : {W : Type 0} → VmmSpace W → Machine W → ℕ → Machine W
freed space m paddr = elim space.free_frame [ none ↦ m | some free_frame ↦ free_frame m paddr ]

abbrev pub table_entry : ℕ → ℕ
table_entry paddr = addr_of paddr + 1 + 2

-- The new frame as a table, linked from the entry at index.
unfoldable pub link_table : {W : Type 0} → VmmSpace W → ℕ → ℕ → Machine W × ℕ → Machine W × Walk ℕ
link_table space table index (m, new_paddr) =
    if new_paddr == invalid_phys || not (is_aligned_4k new_paddr)
    then (m, stop enomem)
    else elim (table_from_phys space new_paddr) [
      | none ↦ (freed space m new_paddr, stop einval)
      | some new_table ↦
          (put table index (table_entry new_paddr) (zero_page new_table m), found new_table)
    ]

unfoldable pub get_or_alloc_next_table :
    {W : Type 0} → VmmSpace W → ℕ → ℕ → Machine W → Machine W × Walk ℕ
get_or_alloc_next_table space table index m =
    let entry = m.tables table index in
    if is_present entry
    then (if is_huge entry
        then (m, stop eexists)
        else (m, non_null (table_from_phys space (addr_of entry))))
    else elim space.alloc_frame [
      | none ↦ (m, stop enomem)
      | some alloc_frame ↦ link_table space table index (alloc_frame m)
    ]

unfoldable pub space_init :
    {W : Type 0}
    → Option (VmmSpace W)
    → ℕ
    → Option (Machine W → Machine W × ℕ)
    → Option (Machine W → ℕ → Machine W)
    → Option (ℕ → Option ℕ)
    → Option (VmmSpace W) × Status
space_init none root_paddr alloc_frame free_frame phys_to_virt = (none, einval)
space_init (some space) root_paddr alloc_frame free_frame none = (some space, einval)
space_init (some space) root_paddr alloc_frame free_frame (some phys_to_virt) =
    if is_aligned_4k root_paddr
    then (
      some (record {
        root_paddr = root_paddr;
        alloc_frame = alloc_frame;
        free_frame = free_frame;
        phys_to_virt = some phys_to_virt;
      }),
      ok,
    )
    else (some space, einval)

-- `if (rc != VMM_MAP_OK) return rc;`
abbrev pub continued :
    {W : Type 0} → Machine W × Walk ℕ → (ℕ → Machine W → Machine W × Status) → Machine W × Status
continued (m, found table) f = f table m
continued (m, stop s) f = (m, s)

abbrev pub page_entry : ℕ → ℕ → ℕ
page_entry paddr flags = addr_of paddr + 1 + allowed_flags flags

-- The end of `vmm_map_page`, at the last table.
unfoldable pub map_entry : {W : Type 0} → ℕ → ℕ → ℕ → ℕ → Machine W → Machine W × Status
map_entry index paddr flags pt m =
    if is_present (m.tables pt index)
    then (m, eexists)
    else (put pt index (page_entry paddr flags) m, ok)

unfoldable pub map_page :
    {W : Type 0} → Option (VmmSpace W) → ℕ → ℕ → ℕ → Machine W → Machine W × Status
map_page none vaddr paddr flags m = (m, einval)
map_page (some space) vaddr paddr flags m =
    if not (is_canonical vaddr) || not (is_aligned_4k vaddr) || not (is_aligned_4k paddr)
    then (m, einval)
    else continued (m, root_table space)
        (λ pml4 m1. continued (get_or_alloc_next_table space pml4 (idx_pml4 vaddr) m1) (λ pdpt m2.
          continued (get_or_alloc_next_table space pdpt (idx_pdpt vaddr) m2) (λ pd m3.
            continued (get_or_alloc_next_table space pd (idx_pd vaddr) m3)
              (map_entry (idx_pt vaddr) paddr flags))))

-- One level of the walk of `vmm_query_page` and of `vmm_unmap_page`.
unfoldable pub next_table : {W : Type 0} → VmmSpace W → Machine W → ℕ → ℕ → Walk ℕ
next_table space m index table =
    let entry = m.tables table index in
    if not (is_present entry) || is_huge entry
    then stop enot_found
    else non_null (table_from_phys space (addr_of entry))

-- The walk to the last table.
unfoldable pub last_table : {W : Type 0} → VmmSpace W → Machine W → ℕ → Walk ℕ
last_table space m vaddr = do
  pml4 ← root_table space
  pdpt ← next_table space m (idx_pml4 vaddr) pml4
  pd ← next_table space m (idx_pdpt vaddr) pdpt
  next_table space m (idx_pd vaddr) pd

abbrev pub mapping_of : ℕ → ℕ → VmmMapping
mapping_of vaddr entry = record {
  vaddr = vaddr;
  paddr = addr_of entry;
  flags = entry - addr_of entry;
}

unfoldable pub query_entry : {W : Type 0} → Machine W → ℕ → ℕ → Walk VmmMapping
query_entry m vaddr pt =
    if not (is_present (m.tables pt (idx_pt vaddr)))
    then stop enot_found
    else found (mapping_of vaddr (m.tables pt (idx_pt vaddr)))

-- `out` is not null.
unfoldable pub query_page : {W : Type 0} → Option (VmmSpace W) → ℕ → Machine W → Walk VmmMapping
query_page none vaddr m = stop einval
query_page (some space) vaddr m =
    if not (is_canonical vaddr) || not (is_aligned_4k vaddr)
    then stop einval
    else last_table space m vaddr >>= query_entry m vaddr

-- The end of `vmm_unmap_page`; `vmm_invalidate_page` does not act on the memory.
unfoldable pub unmap_entry : {W : Type 0} → ℕ → ℕ → Machine W → Machine W × Status
unmap_entry index pt m =
    if not (is_present (m.tables pt index)) then (m, enot_found) else (put pt index 0 m, ok)

unfoldable pub unmap_page : {W : Type 0} → Option (VmmSpace W) → ℕ → Machine W → Machine W × Status
unmap_page none vaddr m = (m, einval)
unmap_page (some space) vaddr m =
    if not (is_canonical vaddr) || not (is_aligned_4k vaddr)
    then (m, einval)
    else continued (m, last_table space m vaddr) (unmap_entry (idx_pt vaddr))
