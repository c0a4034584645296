-- ===== src/Vmm/Blank.antt =====
-- A space with a cleared root table, as `m7_vmm_init` of kernel/core/kmain.c sets it up.
use mcsos.Common.{ℕ, ◌<◌, ◌≡◌, refl, sym, ap, ◌∙◌, subst, List, [], ◌∷◌, some}
use mcsos.Vmm.Table.{
  enot_found, found, stop, ◌>>=◌, Machine, VmmSpace, is_present, root_table, query_page,
  query_entry, next_table, idx_pd, idx_pdpt, idx_pml4,
}
use mcsos.Vmm.Words.{IsPage}
use mcsos.Vmm.Paths.{
  IsPath, IsPath-weaken, reach, reach-cons, IsTree, path-IsPath, query_page-reach,
}
use mcsos.Vmm.Change.{next_table-absent}
use mcsos.Vmm.Link.{found_inj, stop≢found}

module _ {W : Type 0} (space : VmmSpace W) (owned : W → ℕ → Type 0) (m : Machine W) (root : ℕ)
    (at : root_table space ≡ found root) (given : owned m.world root)
    (clear : (j : ℕ) → j < 512 → m.tables root j ≡ 0) where
  reach-root : reach space m [] ≡ found root
  unfolding reach
  reach-root = at

  reach-blank : (i : ℕ) (is : List ℕ) → IsPath 3 (i ∷ is) → reach space m (i ∷ is) ≡ stop enot_found
  reach-blank i [] h =
      reach-cons space m i []
      ∙ ap (λ x. x >>= next_table space m i) reach-root
      ∙ next_table-absent space m i root (ap is_present (clear i h.0))
  reach-blank i (j ∷ is) h =
      reach-cons space m i (j ∷ is)
      ∙ ap (λ x. x >>= next_table space m i) (reach-blank j is (IsPath-weaken 2 (j ∷ is) h.1))

  -- The root is the only table.
  only_root : (is : List ℕ) (t : ℕ) → IsPath 3 is → reach space m is ≡ found t → is ≡ []
  only_root [] t h e = refl
  only_root (i ∷ is) t h e = absurd (stop≢found (sym (reach-blank i is h) ∙ e))

  blank-IsTree : IsTree space owned m
  blank-IsTree = record {
    owns = λ is t h e.
        let r = sym reach-root ∙ ap (reach space m) (sym (only_root is t h e)) ∙ e in
        subst (owned m.world) (found_inj r) given;
    one_path = λ is js t h g e f. only_root is t h e ∙ sym (only_root js t g f);
  }

  -- With a root table that is given out and holds 512 zeros, the tables form a tree, and no page is
  -- mapped.
  pub blank-query_page :
      IsTree space owned m
      × ((vaddr : ℕ) → IsPage vaddr → query_page (some space) vaddr m ≡ stop enot_found)
  blank-query_page = (
    blank-IsTree,
    λ vaddr page.
        query_page-reach space m vaddr page
        ∙ ap (λ x. x >>= query_entry m vaddr)
            (reach-blank (idx_pd vaddr) (idx_pdpt vaddr ∷ idx_pml4 vaddr ∷ [])
              (path-IsPath space vaddr)),
  )
