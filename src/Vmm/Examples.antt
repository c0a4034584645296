-- ===== src/Vmm/Examples.antt =====
-- A space whose allocator gives out one frame after the other: runs, and the theorems at this space.
use mcsos.Common.{
  ◌-◌, sym, ◌∙◌, ℕ, ◌+◌, ◌*◌, ◌^◌, ◌<◌, ◌≡◌, ◌≢◌, refl, subst, Bool, true, false, Option, none,
  some, arith, ltb, if◌then◌else◌, ◌⊎◌, inl, inr, Bool-cases,
}
use mcsos.Vmm.Table.{
  Status, ok, enomem, enot_found, found, stop, Machine, VmmSpace, VmmMapping, invalid_phys,
  table_from_phys, root_table, is_aligned_4k, is_canonical, map_page, query_page, unmap_page,
  get_or_alloc_next_table, link_table, zero_page, zero_from, put, map_entry, idx_pml4, idx_pdpt,
  idx_pd, idx_pt, query_entry, last_table, next_table, allowed_flags,
}
use mcsos.Vmm.Words.{IsPage}
use mcsos.Vmm.Paths.{IsTree, Frames}
use mcsos.Vmm.Pages.{
  map_page-query_page, map_page-refused, map_page-IsTree, unmap_page-query_page,
  unmap_page-map_page,
}
use mcsos.Vmm.Blank.{blank-query_page}

-- The state is the number of the next frame.
abbrev next_frame : Machine ℕ → Machine ℕ × ℕ
next_frame m =
    if ltb m.world (2 ^ 40)
    then (record m { world = m.world + 1 }, m.world * 4096)
    else (m, invalid_phys)

abbrev high_half : ℕ → Option ℕ
high_half paddr = some (paddr + 2 ^ 63)

abbrev space : VmmSpace ℕ
space = record {
  root_paddr = 4096;
  alloc_frame = some next_frame;
  free_frame = none;
  phys_to_virt = some high_half;
}

abbrev IsGiven : ℕ → ℕ → Type 0
IsGiven next table = table < next * 4096 + 2 ^ 63

abbrev fresh : Machine ℕ
fresh = record { tables = λ p i. 0; world = 2 }

is_ok : Status → Bool
is_ok ok = true
is_ok s = false

maps : (map_page (some space) 0x600000 0x700000 2 fresh).1 ≡ ok
unfolding map_page is_canonical is_aligned_4k root_table table_from_phys get_or_alloc_next_table
    link_table zero_page zero_from put map_entry idx_pml4 idx_pdpt idx_pd idx_pt
maps = refl

next_frame-keeps :
    (m : Machine ℕ) (t : ℕ)
    → IsGiven m.world t
    → IsGiven (next_frame m).0.world t × ((j : ℕ) → (next_frame m).0.tables t j ≡ m.tables t j)
next_frame-keeps m t h = elim (Bool-cases (ltb m.world (2 ^ 40))) [
  | inl e ↦ rw e (omega (arith, h), λ j. refl)
  | inr e ↦ rw e (h, λ j. refl)
]

next_frame-fresh :
    (m : Machine ℕ) (t : ℕ)
    → table_from_phys space (next_frame m).1 ≡ some t
    → (IsGiven m.world t → ⊥) × IsGiven (next_frame m).0.world t × ((next_frame m).1 < 2 ^ 52)
unfolding table_from_phys is_aligned_4k
next_frame-fresh m t e = ground (arith, e)

some_inj : {A : Type 0} {a b : A} → some a ≡ some b → a ≡ b
some_inj e = cc

none_ne : {A : Type 0} {a : A} → none ≡ some a → ⊥
none_ne e = cc

space-Frames : Frames space IsGiven
space-Frames = record {
  alloc_keeps = λ f m t e h.
      subst (λ g. IsGiven (g m).0.world t × ((j : ℕ) → (g m).0.tables t j ≡ m.tables t j))
        (some_inj e) (next_frame-keeps m t h);
  alloc_fresh = λ f m t e.
      subst
        (λ g.
          table_from_phys space (g m).1 ≡ some t
          → (IsGiven m.world t → ⊥) × IsGiven (g m).0.world t × ((g m).1 < 2 ^ 52))
        (some_inj e) (next_frame-fresh m t);
  free_keeps = λ f m paddr t e h g. absurd (none_ne e);
}

page : IsPage 0x600000
unfolding is_canonical is_aligned_4k
page = record { canonical = refl; aligned = refl; wide = omega arith }

fresh-root : root_table space ≡ found (2 ^ 63 + 4096)
unfolding root_table table_from_phys is_aligned_4k
fresh-root = refl

-- The space after the page 0x600000 was mapped to the frame 0x700000.
abbrev mapped : Machine ℕ
mapped = (map_page (some space) 0x600000 0x700000 2 fresh).0

-- One frame is left, for the first of three tables.
abbrev nearly_full : Machine ℕ
nearly_full = record { tables = λ p i. 0; world = 2 ^ 40 - 1 }

-- The mapping that fails after a table was added.
abbrev half_way : Machine ℕ
half_way = (map_page (some space) 0x600000 0x700000 2 nearly_full).0

runs_out :
    ((map_page (some space) 0x600000 0x700000 2 nearly_full).1 ≡ enomem)
    × (half_way.tables (2 ^ 63 + 4096) 0 ≢ 0)
unfolding map_page is_canonical is_aligned_4k root_table table_from_phys get_or_alloc_next_table
    link_table zero_page zero_from put map_entry idx_pml4 idx_pdpt idx_pd idx_pt
runs_out = (refl, λ e. ground (arith, e))

refuses : (map_page (some space) 0x600000 0x700000 2 nearly_full).1 ≢ ok
refuses e = absurd (fails (sym runs_out.0 ∙ e))
  where
    fails : enomem ≢ ok
    fails q = cc

-- The smoke test of `m7_vmm_init`.
finds :
    query_page (some space) 0x600000 mapped
    ≡ found (record { vaddr = 0x600000; paddr = 0x700000; flags = 3 })
unfolding map_page query_page is_canonical is_aligned_4k root_table table_from_phys
    get_or_alloc_next_table link_table zero_page zero_from put map_entry query_entry last_table
    next_table idx_pml4 idx_pdpt idx_pd idx_pt allowed_flags
finds = refl

tree : IsTree space IsGiven fresh
tree =
    (blank-query_page space IsGiven fresh (2 ^ 63 + 4096) fresh-root (omega arith) (λ j h. refl)).0

full_tree : IsTree space IsGiven nearly_full
full_tree =
    (blank-query_page space IsGiven nearly_full (2 ^ 63 + 4096) fresh-root (omega arith)
      (λ j h. refl)).0

mapped-IsTree : IsTree space IsGiven mapped
mapped-IsTree = map_page-IsTree space IsGiven space-Frames fresh 0x600000 0x700000 2 page tree

blank-query_page_example :
    IsTree space IsGiven fresh
    × ((vaddr : ℕ) → IsPage vaddr → query_page (some space) vaddr fresh ≡ stop enot_found)
blank-query_page_example =
    blank-query_page space IsGiven fresh (2 ^ 63 + 4096) fresh-root (omega arith) (λ j h. refl)

map_page-query_page_example :
    (query_page (some space) 0x600000 fresh ≡ stop enot_found)
    × (query_page (some space) 0x600000 mapped
        ≡ found (record { vaddr = 0x600000; paddr = 0x700000; flags = 1 + allowed_flags 2 }))
    × ((w : ℕ)
        → w < 2 ^ 64
        → w ≢ 0x600000
        → query_page (some space) w mapped ≡ query_page (some space) w fresh)
map_page-query_page_example =
    map_page-query_page space IsGiven space-Frames fresh 0x600000 0x700000 2 tree page refl
      (omega arith) maps

map_page-refused_example :
    query_page (some space) 0x600000 half_way ≡ query_page (some space) 0x600000 nearly_full
map_page-refused_example =
    map_page-refused space IsGiven space-Frames nearly_full 0x600000 0x700000 2 full_tree refuses
      0x600000

map_page-IsTree_example : IsTree space IsGiven mapped
map_page-IsTree_example =
    map_page-IsTree space IsGiven space-Frames fresh 0x600000 0x700000 2 page tree

unmap_page-query_page_example :
    ((s : Status) × (query_page (some space) 0x600000 mapped ≡ stop s)
      × (unmap_page (some space) 0x600000 mapped ≡ (mapped, s)))
    ⊎ ((x : VmmMapping) × (query_page (some space) 0x600000 mapped ≡ found x)
        × ((unmap_page (some space) 0x600000 mapped).1 ≡ ok)
        × (query_page (some space) 0x600000 (unmap_page (some space) 0x600000 mapped).0
            ≡ stop enot_found)
        × ((w : ℕ)
            → w < 2 ^ 64
            → w ≢ 0x600000
            → query_page (some space) w (unmap_page (some space) 0x600000 mapped).0
              ≡ query_page (some space) w mapped)
        × IsTree space IsGiven (unmap_page (some space) 0x600000 mapped).0)
unmap_page-query_page_example =
    unmap_page-query_page space IsGiven mapped 0x600000 mapped-IsTree page

unmap_page-map_page_example :
    ((unmap_page (some space) 0x600000 mapped).1 ≡ ok)
    × ((w : ℕ)
        → w < 2 ^ 64
        → query_page (some space) w (unmap_page (some space) 0x600000 mapped).0
          ≡ query_page (some space) w fresh)
unmap_page-map_page_example =
    unmap_page-map_page space IsGiven space-Frames fresh 0x600000 0x700000 2 tree page refl
      (omega arith) maps
