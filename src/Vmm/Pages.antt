-- ===== src/Vmm/Pages.antt =====
-- The page tables as a map from pages to mappings: what map, unmap and query are to it.
use mcsos.Common.{
  ℕ, ◌+◌, ◌%◌, ◌^◌, ◌<◌, ◌≡◌, ◌≢◌, refl, sym, ap, ◌∙◌, subst, true, false, some, ◌⊎◌, inl, inr,
  Bool-cases, ℕ_discrete,
}
use mcsos.Vmm.Table.{
  Status, ok, enot_found, found, stop, ◌>>=◌, Machine, VmmSpace, VmmMapping, is_present, put,
  continued, page_entry, map_page, query_page, query_entry, unmap_page, unmap_entry, mapping_of,
  allowed_flags, idx_pt,
}
use mcsos.Vmm.Words.{
  IsPage, addr_of-frame, is_present-page_entry, addr_of-page_entry, flags-page_entry,
}
use mcsos.Vmm.Paths.{Walk_cases, reach, IsTree, Frames, path, last_table-reach, query_page-reach}
use mcsos.Vmm.Extend.{query_entry-absent}
use mcsos.Vmm.Link.{stop≢found}
use mcsos.Vmm.Last.{
  query_entry-there, IsTree-put_last, query-put_last, query-put_absent, query-put_other,
}
use mcsos.Vmm.Map.{IsMapped, map_page-Outcome}

mapping-page_entry :
    (vaddr paddr flags : ℕ)
    → paddr % 4096 ≡ 0
    → paddr < 2 ^ 52
    → mapping_of vaddr (page_entry paddr flags)
      ≡ record { vaddr = vaddr; paddr = paddr; flags = 1 + allowed_flags flags }
mapping-page_entry vaddr paddr flags a h =
    rw (flags-page_entry paddr flags, addr_of-page_entry paddr flags, addr_of-frame paddr a h) refl

module _ {W : Type 0} (space : VmmSpace W) (owned : W → ℕ → Type 0)
    (frames : Frames space owned) where
  module _ (vaddr paddr flags : ℕ) (m : Machine W) (r : Machine W × Status)
      (h : IsMapped space owned frames vaddr paddr flags m r) (page : IsPage vaddr) where
    abbrev after : Machine W
    after = put h.pt (idx_pt vaddr) (page_entry paddr flags) h.grown

    before : query_page (some space) vaddr h.grown ≡ stop enot_found
    before =
        query_page-reach space h.grown vaddr page
        ∙ ap (λ x. x >>= query_entry h.grown vaddr) h.at
        ∙ query_entry-absent h.grown vaddr h.pt h.absent

    seen : query_page (some space) vaddr after ≡ found (mapping_of vaddr (page_entry paddr flags))
    seen =
        query-put_last space owned h.grown h.extends.tree vaddr h.pt (page_entry paddr flags) page
          h.at (is_present-page_entry paddr flags)

    unseen :
        (w : ℕ)
        → w < 2 ^ 64
        → w ≢ vaddr
        → query_page (some space) w after ≡ query_page (some space) w h.grown
    unseen =
        query-put_other space owned h.grown h.extends.tree vaddr h.pt (page_entry paddr flags) page
          h.at

  -- When `vmm_map_page` succeeds for a frame below 2 ^ 52, the page was not mapped before; afterwards
  -- a query finds it with that frame and with the present bit and the allowed flags, and a query of
  -- any other address answers as before. This holds for tables that form a tree, and an allocator
  -- whose frames are new and leaves the tables in use alone.
  pub map_page-query_page :
      (m : Machine W) (vaddr paddr flags : ℕ)
      → IsTree space owned m
      → IsPage vaddr
      → paddr % 4096 ≡ 0
      → paddr < 2 ^ 52
      → (map_page (some space) vaddr paddr flags m).1 ≡ ok
      → (query_page (some space) vaddr m ≡ stop enot_found)
        × (query_page (some space) vaddr (map_page (some space) vaddr paddr flags m).0
            ≡ found (record { vaddr = vaddr; paddr = paddr; flags = 1 + allowed_flags flags }))
        × ((w : ℕ)
            → w < 2 ^ 64
            → w ≢ vaddr
            → query_page (some space) w (map_page (some space) vaddr paddr flags m).0
              ≡ query_page (some space) w m)
  map_page-query_page m vaddr paddr flags tree page a h e =
      elim (map_page-Outcome space owned frames vaddr paddr flags m tree) [
        | inl (ne, f) ↦ absurd (ne e)
        | inr r ↦
            let at_end : (map_page (some space) vaddr paddr flags m).0
                ≡ after vaddr paddr flags m _ r page =
              ap (λ x. x.0) r.result in
            (
              sym (r.extends.same vaddr) ∙ before vaddr paddr flags m _ r page,
              ap (query_page (some space) vaddr) at_end
                  ∙ seen vaddr paddr flags m _ r page
                  ∙ ap found (mapping-page_entry vaddr paddr flags a h),
              λ w hw other.
                  ap (query_page (some space) w) at_end
                  ∙ unseen vaddr paddr flags m _ r page w hw other
                  ∙ r.extends.same w,
            )
      ]

  -- Let the tables of the space form a tree, and let its allocator give only new frames and leave the
  -- tables in use alone. When `vmm_map_page` fails, every query then answers as before, also if tables
  -- were added on the way.
  pub map_page-refused :
      (m : Machine W) (vaddr paddr flags : ℕ)
      → IsTree space owned m
      → (map_page (some space) vaddr paddr flags m).1 ≢ ok
      → (w : ℕ)
      → query_page (some space) w (map_page (some space) vaddr paddr flags m).0
        ≡ query_page (some space) w m
  map_page-refused m vaddr paddr flags tree ne w =
      elim (map_page-Outcome space owned frames vaddr paddr flags m tree) [
        | inl (n, f) ↦ f.same w
        | inr r ↦ absurd (ne (ap (λ x. x.1) r.result))
      ]

  -- If the tables of a space form a tree, and its allocator gives only new frames and leaves the
  -- tables in use alone, then `vmm_map_page` keeps the tables a tree, whatever it returns, for an
  -- address of a page.
  pub map_page-IsTree :
      (m : Machine W) (vaddr paddr flags : ℕ)
      → IsPage vaddr
      → IsTree space owned m
      → IsTree space owned (map_page (some space) vaddr paddr flags m).0
  map_page-IsTree m vaddr paddr flags page tree =
      elim (map_page-Outcome space owned frames vaddr paddr flags m tree) [
        | inl (n, f) ↦ f.tree
        | inr r ↦
            subst (λ x. IsTree space owned x.0) (sym r.result)
              (IsTree-put_last space owned r.grown r.extends.tree vaddr r.pt
                (page_entry paddr flags) page r.at)
      ]

unmap_entry-absent :
    {W : Type 0} (i t : ℕ) (m : Machine W)
    → is_present (m.tables t i) ≡ false
    → unmap_entry i t m ≡ (m, enot_found)
unfolding unmap_entry
unmap_entry-absent i t m e = rw e refl

unmap_entry-there :
    {W : Type 0} (i t : ℕ) (m : Machine W)
    → is_present (m.tables t i) ≡ true
    → unmap_entry i t m ≡ (put t i 0 m, ok)
unfolding unmap_entry
unmap_entry-there i t m e = rw e refl

-- `vmm_unmap_page` by what a query of the page finds.
module _ {W : Type 0} (space : VmmSpace W) (owned : W → ℕ → Type 0) where
  unmap_page-reach :
      (m : Machine W) (vaddr : ℕ)
      → IsPage vaddr
      → unmap_page (some space) vaddr m
        ≡ continued (m, reach space m (path space vaddr)) (unmap_entry (idx_pt vaddr))
  unfolding unmap_page
  unmap_page-reach m vaddr h =
      rw (h.canonical, h.aligned)
        (ap (λ x. continued (m, x) (unmap_entry (idx_pt vaddr))) (last_table-reach space m vaddr))

  -- For tables that form a tree and an address of a page: where a query fails, `vmm_unmap_page`
  -- returns the same code and changes nothing; where a query finds the page, it succeeds, the page is
  -- no longer found, any other query answers as before, and the tables still form a tree.
  pub unmap_page-query_page :
      (m : Machine W) (vaddr : ℕ)
      → IsTree space owned m
      → IsPage vaddr
      → ((s : Status) × (query_page (some space) vaddr m ≡ stop s)
          × (unmap_page (some space) vaddr m ≡ (m, s)))
        ⊎ ((x : VmmMapping) × (query_page (some space) vaddr m ≡ found x)
            × ((unmap_page (some space) vaddr m).1 ≡ ok)
            × (query_page (some space) vaddr (unmap_page (some space) vaddr m).0 ≡ stop enot_found)
            × ((w : ℕ)
                → w < 2 ^ 64
                → w ≢ vaddr
                → query_page (some space) w (unmap_page (some space) vaddr m).0
                  ≡ query_page (some space) w m)
            × IsTree space owned (unmap_page (some space) vaddr m).0)
  unmap_page-query_page m vaddr tree page =
      let query = query_page-reach space m vaddr page in
      let unmap = unmap_page-reach m vaddr page in
      let q = path space vaddr in
      elim (Walk_cases (reach space m q)) [
        | inr (s, f) ↦ inl (
          s,
          query ∙ ap (λ x. x >>= query_entry m vaddr) f,
          unmap ∙ ap (λ x. continued (m, x) (unmap_entry (idx_pt vaddr))) f,
        )
        | inl (t, f) ↦
            let query_t = query ∙ ap (λ x. x >>= query_entry m vaddr) f in
            let unmap_t = unmap ∙ ap (λ x. continued (m, x) (unmap_entry (idx_pt vaddr))) f in
            elim (Bool-cases (is_present (m.tables t (idx_pt vaddr)))) [
              | inr e ↦ inl (
                enot_found,
                query_t ∙ query_entry-absent m vaddr t e,
                unmap_t ∙ unmap_entry-absent (idx_pt vaddr) t m e,
              )
              | inl e ↦
                  let done = unmap_t ∙ unmap_entry-there (idx_pt vaddr) t m e in
                  let at_end : (unmap_page (some space) vaddr m).0 ≡ put t (idx_pt vaddr) 0 m =
                    ap (λ x. x.0) done in
                  inr (
                    mapping_of vaddr (m.tables t (idx_pt vaddr)),
                    query_t ∙ query_entry-there m vaddr t e,
                    ap (λ x. x.1) done,
                    ap (query_page (some space) vaddr) at_end
                        ∙ query-put_absent space owned m tree vaddr t 0 page f refl,
                    (λ w hw ne.
                        ap (query_page (some space) w) at_end
                        ∙ query-put_other space owned m tree vaddr t 0 page f w hw ne),
                    subst (IsTree space owned) (sym at_end)
                        (IsTree-put_last space owned m tree vaddr t 0 page f),
                  )
            ]
      ]

module _ {W : Type 0} (space : VmmSpace W) (owned : W → ℕ → Type 0)
    (frames : Frames space owned) where
  -- After a successful `vmm_map_page` of a frame below 2 ^ 52, `vmm_unmap_page` of the same page
  -- succeeds, and every query answers as before both, for tables that form a tree and an allocator
  -- whose frames are new and leaves the tables in use alone.
  pub unmap_page-map_page :
      (m : Machine W) (vaddr paddr flags : ℕ)
      → IsTree space owned m
      → IsPage vaddr
      → paddr % 4096 ≡ 0
      → paddr < 2 ^ 52
      → (map_page (some space) vaddr paddr flags m).1 ≡ ok
      → ((unmap_page (some space) vaddr (map_page (some space) vaddr paddr flags m).0).1 ≡ ok)
        × ((w : ℕ)
            → w < 2 ^ 64
            → query_page
                (some space)
                w
                (unmap_page (some space) vaddr (map_page (some space) vaddr paddr flags m).0).0
              ≡ query_page (some space) w m)
  unmap_page-map_page m vaddr paddr flags tree page a h e =
      let k = (map_page (some space) vaddr paddr flags m).0 in
      let r = map_page-query_page space owned frames m vaddr paddr flags tree page a h e in
      let t = map_page-IsTree space owned frames m vaddr paddr flags page tree in
      elim (unmap_page-query_page space owned k vaddr t page) [
        | inl (s, f, g) ↦ absurd (stop≢found (sym f ∙ r.1))
        | inr (x, f, g, gone, same, t1) ↦ (
          g,
          λ w hw. elim (ℕ_discrete w vaddr) [
            | yes eq ↦
                subst
                  (λ y.
                    query_page (some space) y (unmap_page (some space) vaddr k).0
                    ≡ query_page (some space) y m)
                  (sym eq) (gone ∙ sym r.0)
            | no ne ↦ same w hw ne ∙ r.2 w hw ne
          ],
        )
      ]
