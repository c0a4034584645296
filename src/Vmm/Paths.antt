-- ===== src/Vmm/Paths.antt =====
-- The tables of a space by the entries that lead to them, and what the operations rely on.
use mcsos.Common.{
  ℕ, zero, suc, ◌^◌, ◌<◌, ◌≡◌, refl, sym, ap, ◌∙◌, true, not, ◌||◌, List, [], ◌∷◌, none, some,
  arith, if◌then◌else◌, ◌⊎◌, inl, inr, Bool-cases,
}
use mcsos.Vmm.Table.{
  Status, enot_found, einval, Walk, found, stop, ◌>>=◌, Machine, VmmSpace, is_present, is_huge,
  addr_of, table_from_phys, root_table, next_table, last_table, query_entry, query_page, non_null,
  is_canonical, is_aligned_4k, idx_pml4, idx_pdpt, idx_pd,
}
use mcsos.Vmm.Words.{IsPage}

-- At most n indices, each of an entry.
abbrev pub IsPath : ℕ → List ℕ → Type 0
IsPath n [] = Unit
IsPath zero (i ∷ is) = ⊥
IsPath (suc n) (i ∷ is) = (i < 512) × IsPath n is

pub IsPath-weaken : (n : ℕ) (is : List ℕ) → IsPath n is → IsPath (suc n) is
IsPath-weaken n [] h = tt
IsPath-weaken zero (i ∷ is) h = absurd h
IsPath-weaken (suc n) (i ∷ is) h = (h.0, IsPath-weaken n is h.1)

pub Walk_cases :
    {A : Type 0} (x : Walk A) → ((a : A) × (x ≡ found a)) ⊎ ((s : Status) × (x ≡ stop s))
Walk_cases (found a) = inl (a, refl)
Walk_cases (stop s) = inr (s, refl)

bind_assoc :
    {A B C : Type 0} (x : Walk A) (f : A → Walk B) (g : B → Walk C)
    → x >>= (λ a. f a >>= g) ≡ x >>= f >>= g
bind_assoc (found a) f g = refl
bind_assoc (stop s) f g = refl

module _ {W : Type 0} (space : VmmSpace W) where
  -- The table behind a path; the last index stands first.
  unfoldable pub reach : Machine W → List ℕ → Walk ℕ
  reach m [] = root_table space
  reach m (i ∷ is) = reach m is >>= next_table space m i

  pub reach-cons :
      (m : Machine W) (i : ℕ) (is : List ℕ) → reach m (i ∷ is) ≡ reach m is >>= next_table space m i
  unfolding reach
  reach-cons m i is = refl

  -- Every table that the space reaches belongs to it, and one path leads to it.
  pub record IsTree (owned : W → ℕ → Type 0) (m : Machine W) : Type 0 where
    pub owns : (is : List ℕ) (t : ℕ) → IsPath 3 is → reach m is ≡ found t → owned m.world t
    pub one_path :
        (is js : List ℕ) (t : ℕ)
        → IsPath 3 is
        → IsPath 3 js
        → reach m is ≡ found t
        → reach m js ≡ found t
        → is ≡ js

  -- What the functions of the space promise, where `owned` tells which tables the allocator has given
  -- out: a frame that it gives is below 2 ^ 52 and new, and the tables in use stay as they are.
  pub record Frames (owned : W → ℕ → Type 0) : Type 0 where
    pub alloc_keeps :
        (f : Machine W → Machine W × ℕ) (m : Machine W) (t : ℕ)
        → space.alloc_frame ≡ some f
        → owned m.world t
        → owned (f m).0.world t × ((j : ℕ) → (f m).0.tables t j ≡ m.tables t j)
    pub alloc_fresh :
        (f : Machine W → Machine W × ℕ) (m : Machine W) (t : ℕ)
        → space.alloc_frame ≡ some f
        → table_from_phys space (f m).1 ≡ some t
        → (owned m.world t → ⊥) × owned (f m).0.world t × ((f m).1 < 2 ^ 52)
    pub free_keeps :
        (f : Machine W → ℕ → Machine W) (m : Machine W) (paddr t : ℕ)
        → space.free_frame ≡ some f
        → table_from_phys space paddr ≡ none
        → owned m.world t
        → owned (f m paddr).world t × ((j : ℕ) → (f m paddr).tables t j ≡ m.tables t j)

  -- The last table of an address, and its path.
  abbrev pub path : ℕ → List ℕ
  path vaddr = idx_pd vaddr ∷ idx_pdpt vaddr ∷ idx_pml4 vaddr ∷ []

  pub last_table-reach :
      (m : Machine W) (vaddr : ℕ) → last_table space m vaddr ≡ reach m (path vaddr)
  unfolding last_table reach
  last_table-reach m vaddr =
      bind_assoc (root_table space) (next_table space m (idx_pml4 vaddr))
        (λ pdpt. next_table space m (idx_pdpt vaddr) pdpt >>= next_table space m (idx_pd vaddr))
      ∙ bind_assoc (root_table space >>= next_table space m (idx_pml4 vaddr))
          (next_table space m (idx_pdpt vaddr)) (next_table space m (idx_pd vaddr))

  -- A query is refused for its address, or reads the entry at the end of its path.
  pub query_page-cases :
      (vaddr : ℕ)
      → ((m : Machine W) → query_page (some space) vaddr m ≡ stop einval)
        ⊎ (((is_canonical vaddr ≡ true) × (is_aligned_4k vaddr ≡ true))
            × ((m : Machine W)
                → query_page (some space) vaddr m ≡ reach m (path vaddr) >>= query_entry m vaddr))
  unfolding query_page
  query_page-cases vaddr =
      elim (Bool-cases (not (is_canonical vaddr) || not (is_aligned_4k vaddr))) [
        | inl e ↦ inl (λ m. rw e refl)
        | inr e ↦ inr (
          ground (arith, e),
          λ m. rw e (ap (λ x. x >>= query_entry m vaddr) (last_table-reach m vaddr)),
        )
      ]

  -- A query of an address that the operations accept.
  pub query_page-reach :
      (m : Machine W) (vaddr : ℕ)
      → IsPage vaddr
      → query_page (some space) vaddr m ≡ reach m (path vaddr) >>= query_entry m vaddr
  unfolding query_page
  query_page-reach m vaddr h =
      rw (h.canonical, h.aligned) (ap (λ x. x >>= query_entry m vaddr) (last_table-reach m vaddr))

  pub path-IsPath : (vaddr : ℕ) → IsPath 3 (path vaddr)
  unfolding idx_pml4 idx_pdpt idx_pd
  path-IsPath vaddr = (omega arith, (omega arith, (omega arith, tt)))

  pub next_table-entry :
      (m k : Machine W) (i t : ℕ)
      → m.tables t i ≡ k.tables t i
      → next_table space m i t ≡ next_table space k i t
  unfolding next_table
  next_table-entry m k i t e =
      ap
        (λ entry.
          if not (is_present entry) || is_huge entry
          then stop enot_found
          else non_null (table_from_phys space (addr_of entry)))
        e

  -- Tables that agree on what a space owns have the same paths.
  pub reach-agree :
      (owned : W → ℕ → Type 0) (m k : Machine W)
      → IsTree owned m
      → ((t j : ℕ) → owned m.world t → k.tables t j ≡ m.tables t j)
      → (is : List ℕ) → IsPath 3 is
      → reach k is ≡ reach m is
  unfolding reach
  reach-agree owned m k tree agree [] h = refl
  reach-agree owned m k tree agree (i ∷ is) h =
      let before = IsPath-weaken 2 is h.1 in
      let rest = reach-agree owned m k tree agree is before in
      rest-agree rest (Walk_cases (reach m is))
    where
      rest-agree :
          reach k is ≡ reach m is
          → ((t : ℕ) × (reach m is ≡ found t)) ⊎ ((s : Status) × (reach m is ≡ stop s))
          → reach k is >>= next_table space k i ≡ reach m is >>= next_table space m i
      rest-agree e (inl (t, f)) =
          rw (e, f)
            (next_table-entry k m i t (agree t i (tree.owns is t (IsPath-weaken 2 is h.1) f)))
      rest-agree e (inr (s, f)) = rw (e, f) refl

  pub IsTree-agree :
      (owned : W → ℕ → Type 0) (m k : Machine W)
      → IsTree owned m
      → ((t j : ℕ) → owned m.world t → k.tables t j ≡ m.tables t j)
      → ((t : ℕ) → owned m.world t → owned k.world t)
      → IsTree owned k
  IsTree-agree owned m k tree agree keeps = record {
    owns = λ is t h e. keeps t (tree.owns is t h (sym (same is h) ∙ e));
    one_path =
        λ is js t h g e f. tree.one_path is js t h g (sym (same is h) ∙ e) (sym (same js g) ∙ f);
  }
    where
      same : (is : List ℕ) → IsPath 3 is → reach k is ≡ reach m is
      same = reach-agree owned m k tree agree
