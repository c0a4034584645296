-- ===== src/Vmm/Map.antt =====
-- `vmm_map_page` as steps that leave every query as it was, and the entry that it writes at the end.
use mcsos.Common.{
  ℕ, ◌<◌, ◌≡◌, ◌≢◌, refl, ap, false, not, ◌||◌, List, [], ◌∷◌, some, ◌⊎◌, inl, inr, Bool-cases,
}
use mcsos.Vmm.Table.{
  Status, ok, Walk, found, stop, Machine, VmmSpace, is_present, put, root_table, continued,
  page_entry, map_entry, map_page, get_or_alloc_next_table, idx_pt, idx_pd, idx_pdpt, idx_pml4,
  is_canonical, is_aligned_4k, table_from_phys,
}
use mcsos.Vmm.Paths.{IsPath, reach, IsTree, Frames, path, path-IsPath}
use mcsos.Vmm.Extend.{Extends, Extends-refl, Extends-trans}
use mcsos.Vmm.Grow.{Grown, get_or_alloc_next_table-Grown, non_null-fails}

module _ {W : Type 0} (space : VmmSpace W) (owned : W → ℕ → Type 0) (frames : Frames space owned)
    (vaddr paddr flags : ℕ) where
  -- The page is mapped, in tables that had no entry for it.
  pub record IsMapped (m : Machine W) (r : Machine W × Status) : Type 0 where
    pub grown : Machine W
    pub extends : Extends space owned m grown
    pub pt : ℕ
    pub at : reach space grown (path space vaddr) ≡ found pt
    pub absent : is_present (grown.tables pt (idx_pt vaddr)) ≡ false
    pub result : r ≡ (put pt (idx_pt vaddr) (page_entry paddr flags) grown, ok)

  abbrev pub Outcome : Machine W → Machine W × Status → Type 0
  Outcome m r = ((r.1 ≢ ok) × Extends space owned m r.0) ⊎ IsMapped m r

  Outcome-after :
      (m k : Machine W) (r : Machine W × Status)
      → Extends space owned m k
      → Outcome k r
      → Outcome m r
  Outcome-after m k r e (inl (ne, f)) = inl (ne, Extends-trans space owned m k r.0 e f)
  Outcome-after m k r e (inr h) = inr (record {
    grown = h.grown;
    extends = Extends-trans space owned m k h.grown e h.extends;
    pt = h.pt;
    at = h.at;
    absent = h.absent;
    result = h.result;
  })

  -- A step of the walk, and what follows it.
  Outcome-continued :
      (m k : Machine W) (q : List ℕ) (x : Walk ℕ) (f : ℕ → Machine W → Machine W × Status)
      → Grown space owned m q (k, x)
      → ((t : ℕ) → reach space k q ≡ found t → Outcome k (f t k))
      → Outcome m (continued (k, x) f)
  Outcome-continued m k q (found t) f g h =
      Outcome-after m k (f t k) g.extends (h t (g.reaches t refl))
  Outcome-continued m k q (stop s) f g h = inl (λ e. g.fails (ap stop e), g.extends)

  map_entry-Outcome :
      (m : Machine W) (t : ℕ)
      → IsTree space owned m
      → reach space m (path space vaddr) ≡ found t
      → Outcome m (map_entry (idx_pt vaddr) paddr flags t m)
  unfolding map_entry
  map_entry-Outcome m t tree at = elim (Bool-cases (is_present (m.tables t (idx_pt vaddr)))) [
    | inl e ↦ rw e (inl (λ x. cc, Extends-refl space owned m tree))
    | inr e ↦ rw e (
        inr (record {
          grown = m;
          extends = Extends-refl space owned m tree;
          pt = t;
          at = at;
          absent = e;
          result = refl;
        }))
  ]

  step-Outcome :
      (m : Machine W) (p : List ℕ) (t i : ℕ) (f : ℕ → Machine W → Machine W × Status)
      → IsTree space owned m
      → reach space m p ≡ found t
      → IsPath 2 p
      → i < 512
      → ((s : ℕ) (k : Machine W)
          → IsTree space owned k
          → reach space k (i ∷ p) ≡ found s
          → Outcome k (f s k))
      → Outcome m (continued (get_or_alloc_next_table space t i m) f)
  step-Outcome m p t i f tree at hp hi h =
      let g = get_or_alloc_next_table-Grown space owned frames m tree p t i at hp hi in
      Outcome-continued m (get_or_alloc_next_table space t i m).0 (i ∷ p)
        (get_or_alloc_next_table space t i m).1 f g
        (λ s. h s (get_or_alloc_next_table space t i m).0 g.extends.tree)

  root-Grown : (m : Machine W) → IsTree space owned m → Grown space owned m [] (m, root_table space)
  unfolding reach root_table
  root-Grown m tree = record {
    extends = Extends-refl space owned m tree;
    reaches = λ t e. e;
    fails = non_null-fails (table_from_phys space space.root_paddr);
  }

  -- The three steps from the root to the last table.
  walk-Outcome :
      (m : Machine W) (pml4 : ℕ)
      → IsTree space owned m
      → reach space m [] ≡ found pml4
      → Outcome m (
          continued (get_or_alloc_next_table space pml4 (idx_pml4 vaddr) m) (λ pdpt m2.
            continued (get_or_alloc_next_table space pdpt (idx_pdpt vaddr) m2) (λ pd m3.
              continued
                (get_or_alloc_next_table space pd (idx_pd vaddr) m3)
                (map_entry (idx_pt vaddr) paddr flags))))
  walk-Outcome m pml4 tree at =
      let h = path-IsPath space vaddr in
      step-Outcome m [] pml4 (idx_pml4 vaddr) _ tree at tt h.1.1.0 (λ pdpt m2 tree2 at2.
        step-Outcome m2 (idx_pml4 vaddr ∷ []) pdpt (idx_pdpt vaddr) _ tree2 at2 (h.1.1.0, tt) h.1.0
          (λ pd m3 tree3 at3.
            step-Outcome m3 (idx_pdpt vaddr ∷ idx_pml4 vaddr ∷ []) pd (idx_pd vaddr) _ tree3 at3
              (h.1.0, (h.1.1.0, tt)) h.0 (λ pt m4 tree4 at4. map_entry-Outcome m4 pt tree4 at4)))

  pub map_page-Outcome :
      (m : Machine W) → IsTree space owned m → Outcome m (map_page (some space) vaddr paddr flags m)
  unfolding map_page
  map_page-Outcome m tree =
      elim (Bool-cases
        (not (is_canonical vaddr) || not (is_aligned_4k vaddr) || not (is_aligned_4k paddr))) [
          | inl e ↦ rw e (inl (λ x. cc, Extends-refl space owned m tree))
          | inr e ↦ rw e (
              Outcome-continued m m [] (root_table space) _ (root-Grown m tree)
                (λ t at. walk-Outcome m t tree at))
        ]
