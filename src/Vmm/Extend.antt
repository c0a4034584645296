-- ===== src/Vmm/Extend.antt =====
-- `get_or_alloc_next_table`: the tables grow, and every query answers as before.
use mcsos.Common.{ℕ, ◌≡◌, refl, sym, ap, ◌∙◌, false, not, some, if◌then◌else◌, inl, inr}
use mcsos.Vmm.Table.{
  enot_found, found, stop, ◌>>=◌, Machine, VmmSpace, is_present, query_page, query_entry,
  mapping_of, idx_pt,
}
use mcsos.Vmm.Paths.{
  Walk_cases, reach, IsTree, IsTree-agree, reach-agree, path, path-IsPath, query_page-cases,
}

pub query_entry-same :
    {W : Type 0} (m k : Machine W) (vaddr t : ℕ)
    → m.tables t (idx_pt vaddr) ≡ k.tables t (idx_pt vaddr)
    → query_entry m vaddr t ≡ query_entry k vaddr t
unfolding query_entry
query_entry-same m k vaddr t e =
    ap (λ entry. if not (is_present entry) then stop enot_found else found (mapping_of vaddr entry))
      e

pub query_entry-absent :
    {W : Type 0} (m : Machine W) (vaddr t : ℕ)
    → is_present (m.tables t (idx_pt vaddr)) ≡ false
    → query_entry m vaddr t ≡ stop enot_found
unfolding query_entry
query_entry-absent m vaddr t e = rw e refl

module _ {W : Type 0} (space : VmmSpace W) (owned : W → ℕ → Type 0) where
  -- Nothing that a query answers has changed.
  pub record Extends (m k : Machine W) : Type 0 where
    pub tree : IsTree space owned k
    pub same : (w : ℕ) → query_page (some space) w k ≡ query_page (some space) w m

  pub Extends-refl : (m : Machine W) → IsTree space owned m → Extends m m
  Extends-refl m tree = record { tree = tree; same = λ w. refl }

  pub Extends-trans : (m k l : Machine W) → Extends m k → Extends k l → Extends m l
  Extends-trans m k l a b = record { tree = b.tree; same = λ w. b.same w ∙ a.same w }

  -- It is enough to look at the entry at the end of each path.
  pub query_page-same :
      (m k : Machine W)
      → ((w : ℕ)
          → reach space k (path space w) >>= query_entry k w
            ≡ reach space m (path space w) >>= query_entry m w)
      → (w : ℕ) → query_page (some space) w k ≡ query_page (some space) w m
  query_page-same m k h w = elim (query_page-cases space w) [
    | inl e ↦ e k ∙ sym (e m)
    | inr e ↦ e.1 k ∙ h w ∙ sym (e.1 m)
  ]

  pub Extends-agree :
      (m k : Machine W)
      → IsTree space owned m
      → ((t : ℕ) → owned m.world t → owned k.world t × ((j : ℕ) → k.tables t j ≡ m.tables t j))
      → Extends m k
  Extends-agree m k tree keeps = record {
    tree = IsTree-agree space owned m k tree agree (λ t h. (keeps t h).0);
    same = query_page-same m k at_end;
  }
    where
      agree : (t j : ℕ) → owned m.world t → k.tables t j ≡ m.tables t j
      agree t j h = (keeps t h).1 j

      at_end :
          (w : ℕ)
          → reach space k (path space w) >>= query_entry k w
            ≡ reach space m (path space w) >>= query_entry m w
      at_end w =
          let e = reach-agree space owned m k tree agree (path space w) (path-IsPath space w) in
          elim (Walk_cases (reach space m (path space w))) [
            | inl (t, f) ↦
                ap (λ x. x >>= query_entry k w) (e ∙ f)
                ∙ query_entry-same k m w t
                    (agree t (idx_pt w) (tree.owns (path space w) t (path-IsPath space w) f))
                ∙ sym (ap (λ x. x >>= query_entry m w) f)
            | inr (s, f) ↦
                ap (λ x. x >>= query_entry k w) (e ∙ f) ∙ sym (ap (λ x. x >>= query_entry m w) f)
          ]
