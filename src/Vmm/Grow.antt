-- ===== src/Vmm/Grow.antt =====
-- `get_or_alloc_next_table` as a whole.
use mcsos.Common.{
  ℕ, ◌%◌, ◌^◌, ◌<◌, ◌≡◌, ◌≢◌, refl, sym, ap, ◌∙◌, subst, true, false, not, ◌||◌, List, ◌∷◌, Option,
  none, some, length, arith, ◌==◌, inl, inr, Bool-cases, Option-cases,
}
use mcsos.Vmm.Table.{
  Status, ok, einval, eexists, enomem, Walk, found, stop, ◌>>=◌, Machine, VmmSpace, is_present,
  is_huge, addr_of, put, zero_page, table_from_phys, next_table, non_null, table_entry,
  get_or_alloc_next_table, link_table, freed, is_aligned_4k, invalid_phys,
}
use mcsos.Vmm.Words.{
  addr_of-frame, addr_of-table_entry, is_present-table_entry, is_huge-table_entry,
}
use mcsos.Vmm.Paths.{IsPath, IsPath-weaken, reach, reach-cons, IsTree, reach-agree, Frames}
use mcsos.Vmm.Change.{put-same, zero_page-zero, zero_page-other, zero_page-world, reach-put_link}
use mcsos.Vmm.Extend.{Extends, Extends-refl, Extends-trans, Extends-agree}
use mcsos.Vmm.Link.{stop_inj, stop≢found, Extends-link}

aligned_frame : (paddr : ℕ) → is_aligned_4k paddr ≡ true → paddr % 4096 ≡ 0
unfolding is_aligned_4k
aligned_frame paddr e = ground (arith, e)

unrefused :
    (paddr : ℕ)
    → (paddr == invalid_phys || not (is_aligned_4k paddr)) ≡ false
    → is_aligned_4k paddr ≡ true
unrefused paddr e = ground (arith, e)

pub non_null-fails : (o : Option ℕ) → non_null o ≢ stop ok
non_null-fails none e = cc
non_null-fails (some t) e = cc

next_table-there :
    {W : Type 0} (space : VmmSpace W) (m : Machine W) (i t : ℕ)
    → is_present (m.tables t i) ≡ true
    → is_huge (m.tables t i) ≡ false
    → next_table space m i t ≡ non_null (table_from_phys space (addr_of (m.tables t i)))
unfolding next_table
next_table-there space m i t e h = rw (e, h) refl

-- What a step of `vmm_map_page` leaves: the queries as they were, and, with a table, the path to it.
pub record Grown {W : Type 0} (space : VmmSpace W) (owned : W → ℕ → Type 0) (m : Machine W)
    (q : List ℕ) (r : Machine W × Walk ℕ) : Type 0 where
  pub extends : Extends space owned m r.0
  pub reaches : (t : ℕ) → r.1 ≡ found t → reach space r.0 q ≡ found t
  pub fails : r.1 ≢ stop ok

module _ {W : Type 0} (space : VmmSpace W) (owned : W → ℕ → Type 0)
    (frames : Frames space owned) where
  Grown-stop :
      (m k : Machine W) (q : List ℕ) (s : Status)
      → s ≢ ok
      → Extends space owned m k
      → Grown space owned m q (k, stop s)
  Grown-stop m k q s ne e = record {
    extends = e;
    reaches = λ t h. absurd (stop≢found h);
    fails = λ h. ne (stop_inj (stop s) refl h);
  }

  freed-keeps :
      (m : Machine W) (paddr t : ℕ)
      → table_from_phys space paddr ≡ none
      → owned m.world t
      → owned (freed space m paddr).world t
        × ((j : ℕ) → (freed space m paddr).tables t j ≡ m.tables t j)
  freed-keeps m paddr t e h = elim (Option-cases space.free_frame) [
    | inl e1 ↦ rw e1 (h, λ j. refl)
    | inr (f, e1) ↦ rw e1 (frames.free_keeps f m paddr t e1 e h)
  ]

  module _ (m : Machine W) (tree : IsTree space owned m) (p : List ℕ) (t i : ℕ)
      (at : reach space m p ≡ found t) (hp : IsPath 2 p) (hi : i < 512) where
    get-present :
        is_present (m.tables t i) ≡ true
        → Grown space owned m (i ∷ p) (get_or_alloc_next_table space t i m)
    unfolding get_or_alloc_next_table
    get-present e = elim (Bool-cases (is_huge (m.tables t i))) [
      | inl h ↦
          rw (e, h) (Grown-stop m m (i ∷ p) eexists (λ x. cc) (Extends-refl space owned m tree))
      | inr h ↦
          rw (e, h)
            (record {
              extends = Extends-refl space owned m tree;
              reaches = λ t' f.
                  reach-cons space m i p
                  ∙ ap (λ x. x >>= next_table space m i) at
                  ∙ next_table-there space m i t e h
                  ∙ f;
              fails = non_null-fails (table_from_phys space (addr_of (m.tables t i)));
            })
    ]

    -- The frame that the allocator gave, at paddr, leaving m1.
    module _ (m1 : Machine W) (paddr : ℕ)
        (keeps : (s : ℕ)
          → owned m.world s
          → owned m1.world s × ((j : ℕ) → m1.tables s j ≡ m.tables s j))
        (fresh : (s : ℕ)
          → table_from_phys space paddr ≡ some s
          → (owned m.world s → ⊥) × owned m1.world s × (paddr < 2 ^ 52))
        (absent : is_present (m.tables t i) ≡ false) where
      -- The new table, cleared.
      cleared-keeps :
          (t' : ℕ)
          → table_from_phys space paddr ≡ some t'
          → (s : ℕ) → owned m.world s
          → owned (zero_page t' m1).world s
            × ((j : ℕ) → (zero_page t' m1).tables s j ≡ m.tables s j)
      cleared-keeps t' e s h = (
        subst (λ w. owned w s) (sym (zero_page-world t' m1)) (keeps s h).0,
        λ j.
            zero_page-other t' m1 s j (λ x. (fresh t' e).0 (subst (owned m.world) x h))
            ∙ (keeps s h).1 j,
      )

      module _ (t' : ℕ) (aligned : is_aligned_4k paddr ≡ true)
          (new : table_from_phys space paddr ≡ some t') where
        abbrev cleared : Machine W
        cleared = zero_page t' m1

        abbrev v : ℕ
        v = table_entry paddr

        same_reach : (q : List ℕ) → IsPath 3 q → reach space cleared q ≡ reach space m q
        same_reach =
            reach-agree space owned m cleared tree (λ s j h. (cleared-keeps t' new s h).1 j)

        still_at : reach space cleared p ≡ found t
        still_at = same_reach p (IsPath-weaken 2 p hp) ∙ at

        unreached : (q : List ℕ) → IsPath 3 q → reach space cleared q ≡ found t' → ⊥
        unreached q h f = (fresh t' new).0 (tree.owns q t' h (sym (same_reach q h) ∙ f))

        still_absent : is_present (cleared.tables t i) ≡ false
        still_absent =
            ap is_present ((cleared-keeps t' new t (tree.owns p t (IsPath-weaken 2 p hp) at)).1 i)
            ∙ absent

        links_new : next_table space (put t i v cleared) i t ≡ found t'
        links_new =
            let same = put-same cleared t i v in
            let frame =
              addr_of-table_entry paddr
              ∙ addr_of-frame paddr (aligned_frame paddr aligned) (fresh t' new).2 in
            next_table-there space (put t i v cleared) i t
              (ap is_present same ∙ is_present-table_entry paddr)
              (ap is_huge same ∙ is_huge-table_entry paddr)
            ∙ ap (λ x. non_null (table_from_phys space x)) (ap addr_of same ∙ frame)
            ∙ ap non_null new

        extends : Extends space owned m cleared
        extends = Extends-agree space owned m cleared tree (cleared-keeps t' new)

        owned_new : owned cleared.world t'
        owned_new = subst (λ w. owned w t') (sym (zero_page-world t' m1)) (fresh t' new).1

        reaches_new : reach space (put t i v cleared) (i ∷ p) ≡ found t'
        reaches_new =
            elim (reach-put_link space owned cleared extends.tree p t i v still_at t' unreached
              (zero_page-zero t' m1) still_absent links_new hp hi p (IsPath-weaken 2 p hp)) [
                | inl a ↦
                    reach-cons space (put t i v cleared) i p
                    ∙ ap (λ x. x >>= next_table space (put t i v cleared) i) (a ∙ still_at)
                    ∙ links_new
                | inr (b, c) ↦ absurd (omega (arith, ap length b))
              ]

        linked : Grown space owned m (i ∷ p) (put t i v cleared, found t')
        linked = record {
          extends = Extends-trans space owned m cleared (put t i v cleared) extends (
              Extends-link space owned cleared extends.tree p t i v still_at t' unreached
                (zero_page-zero t' m1) still_absent links_new hp hi owned_new);
          reaches = λ s f. reaches_new ∙ f;
          fails = λ x. cc;
        }

      freed_after :
          table_from_phys space paddr ≡ none
          → (s : ℕ) → owned m.world s
          → owned (freed space m1 paddr).world s
            × ((j : ℕ) → (freed space m1 paddr).tables s j ≡ m.tables s j)
      freed_after e s h =
          let k = keeps s h in let f = freed-keeps m1 paddr s e k.0 in (f.0, λ j. f.1 j ∙ k.1 j)

      link-Grown : Grown space owned m (i ∷ p) (link_table space t i (m1, paddr))
      unfolding link_table
      link-Grown = elim (Bool-cases (paddr == invalid_phys || not (is_aligned_4k paddr))) [
        | inl e ↦
            rw e
              (Grown-stop m m1 (i ∷ p) enomem (λ x. cc) (Extends-agree space owned m m1 tree keeps))
        | inr e ↦ elim (Option-cases (table_from_phys space paddr)) [
          | inl e1 ↦
              rw (e, e1)
                (Grown-stop m (freed space m1 paddr) (i ∷ p) einval (λ x. cc)
                  (Extends-agree space owned m (freed space m1 paddr) tree (freed_after e1)))
          | inr (t', e1) ↦ rw (e, e1) (linked t' (unrefused paddr e) e1)
        ]
      ]

    abbrev on_alloc : Option (Machine W → Machine W × ℕ) → Machine W × Walk ℕ
    on_alloc none = (m, stop enomem)
    on_alloc (some f) = link_table space t i (f m)

    get_absent :
        (r : Machine W × Walk ℕ)
        → is_present (m.tables t i) ≡ false
        → on_alloc space.alloc_frame ≡ r
        → Grown space owned m (i ∷ p) r
        → Grown space owned m (i ∷ p) (get_or_alloc_next_table space t i m)
    unfolding get_or_alloc_next_table
    get_absent r e e1 g = rw e (subst (Grown space owned m (i ∷ p)) (sym e1) g)

    pub get_or_alloc_next_table-Grown :
        Grown space owned m (i ∷ p) (get_or_alloc_next_table space t i m)
    get_or_alloc_next_table-Grown = elim (Bool-cases (is_present (m.tables t i))) [
      | inl e ↦ get-present e
      | inr e ↦ elim (Option-cases space.alloc_frame) [
        | inl e1 ↦
            get_absent (m, stop enomem) e (ap on_alloc e1)
              (Grown-stop m m (i ∷ p) enomem (λ x. cc) (Extends-refl space owned m tree))
        | inr (f, e1) ↦ get_absent (link_table space t i (f m)) e (ap on_alloc e1) (
            link-Grown (f m).0 (f m).1 (λ s h. frames.alloc_keeps f m s e1 h)
              (λ s h. frames.alloc_fresh f m s e1 h) e)
      ]
    ]
