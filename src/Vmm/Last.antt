-- ===== src/Vmm/Last.antt =====
-- A change of an entry of a last table.
use mcsos.Common.{
  ℕ, ◌^◌, ◌<◌, ◌≡◌, ◌≢◌, refl, sym, ap, ◌∙◌, subst, true, false, List, some, ◌⊎◌, inl, inr,
  ℕ_discrete,
}
use mcsos.Vmm.Table.{
  enot_found, found, stop, ◌>>=◌, Machine, VmmSpace, is_present, put, query_page, query_entry,
  mapping_of, idx_pt, idx_pd, idx_pdpt, idx_pml4,
}
use mcsos.Vmm.Words.{IsPage, same_page}
use mcsos.Vmm.Paths.{
  IsPath, Walk_cases, reach, IsTree, path, path-IsPath, query_page-cases, query_page-reach,
}
use mcsos.Vmm.Change.{put-same, put-other, put-world, reach-put_last}
use mcsos.Vmm.Extend.{query_entry-same, query_entry-absent}

pub query_entry-there :
    {W : Type 0} (m : Machine W) (vaddr t : ℕ)
    → is_present (m.tables t (idx_pt vaddr)) ≡ true
    → query_entry m vaddr t ≡ found (mapping_of vaddr (m.tables t (idx_pt vaddr)))
unfolding query_entry
query_entry-there m vaddr t e = rw e refl

path-inj :
    {W : Type 0} (space : VmmSpace W) (v w : ℕ)
    → path space v ≡ path space w
    → (idx_pml4 v ≡ idx_pml4 w) × (idx_pdpt v ≡ idx_pdpt w) × (idx_pd v ≡ idx_pd w)
path-inj space v w e = (cc, cc, cc)

module _ {W : Type 0} (space : VmmSpace W) (owned : W → ℕ → Type 0) (m : Machine W)
    (tree : IsTree space owned m) (vaddr t v : ℕ) (page : IsPage vaddr)
    (at : reach space m (path space vaddr) ≡ found t) where
  abbrev after : Machine W
  after = put t (idx_pt vaddr) v m

  same_reach : (q : List ℕ) → IsPath 3 q → reach space after q ≡ reach space m q
  same_reach =
      reach-put_last space owned m tree (path space vaddr) t (idx_pt vaddr) v at (λ h. h.1.1)
        (path-IsPath space vaddr)

  pub IsTree-put_last : IsTree space owned (put t (idx_pt vaddr) v m)
  IsTree-put_last = record {
    owns = λ q s h e.
        subst (λ w. owned w s) (sym (put-world m t (idx_pt vaddr) v))
          (tree.owns q s h (sym (same_reach q h) ∙ e));
    one_path = λ q r s h g e f.
        tree.one_path q r s h g (sym (same_reach q h) ∙ e) (sym (same_reach r g) ∙ f);
  }

  after_at : reach space after (path space vaddr) ≡ found t
  after_at = same_reach (path space vaddr) (path-IsPath space vaddr) ∙ at

  -- The query of the page itself sees the new entry.
  pub query-put_last :
      is_present v ≡ true
      → query_page (some space) vaddr (put t (idx_pt vaddr) v m) ≡ found (mapping_of vaddr v)
  query-put_last e =
      let same = put-same m t (idx_pt vaddr) v in
      query_page-reach space after vaddr page
      ∙ ap (λ x. x >>= query_entry after vaddr) after_at
      ∙ query_entry-there after vaddr t (ap is_present same ∙ e)
      ∙ ap (λ x. found (mapping_of vaddr x)) same

  pub query-put_absent :
      is_present v ≡ false
      → query_page (some space) vaddr (put t (idx_pt vaddr) v m) ≡ stop enot_found
  query-put_absent e =
      query_page-reach space after vaddr page
      ∙ ap (λ x. x >>= query_entry after vaddr) after_at
      ∙ query_entry-absent after vaddr t (ap is_present (put-same m t (idx_pt vaddr) v) ∙ e)

  -- The entry of another page is another one.
  other_entry :
      (w s : ℕ)
      → IsPage w
      → w ≢ vaddr
      → reach space m (path space w) ≡ found s
      → (s ≢ t) ⊎ (idx_pt w ≢ idx_pt vaddr)
  other_entry w s hw ne f = elim (ℕ_discrete s t) [
    | no h ↦ inl h
    | yes e ↦ inr (λ e1.
        let paths = path-inj space w vaddr (
          tree.one_path (path space w) (path space vaddr) s (path-IsPath space w)
            (path-IsPath space vaddr) f (at ∙ ap found (sym e))) in
        ne (same_page w vaddr hw page paths.0 paths.1 paths.2 e1))
  ]

  -- The query of another page does not.
  pub query-put_other :
      (w : ℕ)
      → w < 2 ^ 64
      → w ≢ vaddr
      → query_page (some space) w (put t (idx_pt vaddr) v m) ≡ query_page (some space) w m
  query-put_other w hw ne = elim (query_page-cases space w) [
    | inl e ↦ e after ∙ sym (e m)
    | inr (valid, e) ↦
        let q = path space w in
        let same = same_reach q (path-IsPath space w) in
        e after
        ∙ elim (Walk_cases (reach space m q)) [
          | inl (s, f) ↦
              let entry =
                other_entry w s (record { canonical = valid.0; aligned = valid.1; wide = hw }) ne
                  f in
              ap (λ x. x >>= query_entry after w) (same ∙ f)
              ∙ query_entry-same after m w s (put-other m t (idx_pt vaddr) v s (idx_pt w) entry)
              ∙ sym (ap (λ x. x >>= query_entry m w) f)
          | inr (s, f) ↦
              ap (λ x. x >>= query_entry after w) (same ∙ f)
              ∙ sym (ap (λ x. x >>= query_entry m w) f)
        ]
        ∙ sym (e m)
  ]
