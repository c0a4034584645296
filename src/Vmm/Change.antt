-- ===== src/Vmm/Change.antt =====
-- What a change of one entry, or of one page, does to the tables that a space reaches.
use mcsos.Common.{
  ℕ, zero, suc, ◌+◌, ◌≤◌, ◌<◌, ◌≡◌, ◌≢◌, refl, sym, ap, ◌∙◌, subst, Bool, true, false, ◌&&◌, List,
  [], ◌∷◌, arith, ◌==◌, eq→==, ne→==, if◌then◌else◌, ◌⊎◌, inl, inr, ℕ_discrete,
}
use mcsos.Vmm.Table.{
  Status, enot_found, found, stop, ◌>>=◌, Machine, VmmSpace, is_present, put, zero_from, zero_page,
  entries_per_table, next_table,
}
use mcsos.Vmm.Paths.{IsPath, IsPath-weaken, Walk_cases, reach, reach-cons, IsTree, next_table-entry}

pub put-same : {W : Type 0} (m : Machine W) (t i v : ℕ) → (put t i v m).tables t i ≡ v
unfolding put
put-same m t i v = rw (eq→== t t refl, eq→== i i refl) refl

neither : (b : Bool) (x y : ℕ) → (if b && false then x else y) ≡ y
neither true x y = refl
neither false x y = refl

pub put-other :
    {W : Type 0} (m : Machine W) (t i v p j : ℕ)
    → (p ≢ t) ⊎ (j ≢ i)
    → (put t i v m).tables p j ≡ m.tables p j
unfolding put
put-other m t i v p j (inl h) = rw (ne→== p t h) refl
put-other m t i v p j (inr h) = rw (ne→== j i h) (neither (p == t) v (m.tables p j))

pub put-world : {W : Type 0} (m : Machine W) (t i v : ℕ) → (put t i v m).world ≡ m.world
unfolding put
put-world m t i v = refl

zero_from-other :
    {W : Type 0} (n i page : ℕ) (m : Machine W) (p j : ℕ)
    → (p ≢ page) ⊎ (j < i)
    → (zero_from n i page m).tables p j ≡ m.tables p j
unfolding zero_from
zero_from-other zero i page m p j h = refl
zero_from-other (suc n) i page m p j (inl h) =
    zero_from-other n (i + 1) page (put page i 0 m) p j (inl h) ∙ put-other m page i 0 p j (inl h)
zero_from-other (suc n) i page m p j (inr h) =
    zero_from-other n (i + 1) page (put page i 0 m) p j (inr (omega (arith, h)))
    ∙ put-other m page i 0 p j (inr (λ e. omega (arith, h, e)))

zero_from-zero :
    {W : Type 0} (n i page : ℕ) (m : Machine W) (j : ℕ)
    → i ≤ j
    → j < i + n
    → (zero_from n i page m).tables page j ≡ 0
unfolding zero_from
zero_from-zero zero i page m j h g = absurd (omega (arith, h, g))
zero_from-zero (suc n) i page m j h g = elim (ℕ_discrete j i) [
  | yes e ↦
      zero_from-other n (i + 1) page (put page i 0 m) page j (inr (omega (arith, e)))
      ∙ ap (λ x. (put page i 0 m).tables page x) e
      ∙ put-same m page i 0
  | no ne ↦
      zero_from-zero n (i + 1) page (put page i 0 m) j (omega (arith, h, ne)) (omega (arith, g))
]

zero_from-world :
    {W : Type 0} (n i page : ℕ) (m : Machine W) → (zero_from n i page m).world ≡ m.world
unfolding zero_from
zero_from-world zero i page m = refl
zero_from-world (suc n) i page m =
    zero_from-world n (i + 1) page (put page i 0 m) ∙ put-world m page i 0

pub zero_page-zero :
    {W : Type 0} (page : ℕ) (m : Machine W) (j : ℕ) → j < 512 → (zero_page page m).tables page j ≡ 0
unfolding zero_page
zero_page-zero page m j h =
    zero_from-zero entries_per_table 0 page m j (omega arith) (omega (arith, h))

pub zero_page-other :
    {W : Type 0} (page : ℕ) (m : Machine W) (p j : ℕ)
    → p ≢ page
    → (zero_page page m).tables p j ≡ m.tables p j
unfolding zero_page
zero_page-other page m p j h = zero_from-other entries_per_table 0 page m p j (inl h)

pub zero_page-world : {W : Type 0} (page : ℕ) (m : Machine W) → (zero_page page m).world ≡ m.world
unfolding zero_page
zero_page-world page m = zero_from-world entries_per_table 0 page m

pub next_table-absent :
    {W : Type 0} (space : VmmSpace W) (m : Machine W) (i t : ℕ)
    → is_present (m.tables t i) ≡ false
    → next_table space m i t ≡ stop enot_found
unfolding next_table
next_table-absent space m i t e = rw e refl

-- An entry at (t , i) changes to v, where the path p leads to t.
module _ {W : Type 0} (space : VmmSpace W) (owned : W → ℕ → Type 0) (m : Machine W)
    (tree : IsTree space owned m) (p : List ℕ) (t i v : ℕ) (at : reach space m p ≡ found t) where
  abbrev pub changed : Machine W
  changed = put t i v m

  -- Whatever stands before a path that ends elsewhere.
  step-elsewhere :
      (q : List ℕ) (j s : ℕ)
      → reach space m q ≡ found s
      → (s ≢ t) ⊎ (j ≢ i)
      → reach space changed q ≡ reach space m q
      → reach space changed (j ∷ q) ≡ reach space m (j ∷ q)
  unfolding reach
  step-elsewhere q j s f d e =
      rw (e, f) (next_table-entry space (put t i v m) m j s (put-other m t i v s j d))

  step-stopped :
      (q : List ℕ) (j : ℕ) (s : Status)
      → reach space m q ≡ stop s
      → reach space changed q ≡ reach space m q
      → reach space changed (j ∷ q) ≡ reach space m (j ∷ q)
  unfolding reach
  step-stopped q j s f e = rw (e, f) refl

  -- The entry of a last table leads nowhere.
  pub reach-put_last :
      (IsPath 2 p → ⊥)
      → IsPath 3 p
      → (q : List ℕ) → IsPath 3 q
      → reach space (put t i v m) q ≡ reach space m q
  unfolding put reach
  reach-put_last last hp [] h = refl
  reach-put_last last hp (j ∷ q) h =
      let hq = IsPath-weaken 2 q h.1 in
      let rest = reach-put_last last hp q hq in
      elim (Walk_cases (reach space m q)) [
        | inl (s, f) ↦
            step-elsewhere q j s f
              (inl (λ e.
                last (subst (IsPath 2) (tree.one_path q p s hq hp f (at ∙ ap found (sym e))) h.1)))
              rest
        | inr (s, f) ↦ step-stopped q j s f rest
      ]

  -- The entry was not present, and now links the cleared page t'.
  module _ (t' : ℕ) (unreached : (q : List ℕ) → IsPath 3 q → reach space m q ≡ found t' → ⊥)
      (clear : (j : ℕ) → j < 512 → m.tables t' j ≡ 0) (absent : is_present (m.tables t i) ≡ false)
      (links : next_table space (put t i v m) i t ≡ found t') (hp : IsPath 2 p) (hi : i < 512) where
    -- As before, or the new table.
    abbrev pub Linked : List ℕ → Type 0
    Linked q =
        (reach space changed q ≡ reach space m q)
        ⊎ ((q ≡ i ∷ p) × (reach space changed q ≡ found t'))

    pub before-linked : reach space m (i ∷ p) ≡ stop enot_found
    unfolding reach
    before-linked = rw at (next_table-absent space m i t absent)

    pub new-not_t : t' ≢ t
    new-not_t e = unreached p (IsPath-weaken 2 p hp) (at ∙ ap found (sym e))

    linked-here : reach space changed p ≡ reach space m p → reach space changed (i ∷ p) ≡ found t'
    unfolding reach
    linked-here e = rw (e, at) links

    linked-beyond :
        (j : ℕ)
        → j < 512
        → reach space changed (i ∷ p) ≡ found t'
        → reach space changed (j ∷ i ∷ p) ≡ reach space m (j ∷ i ∷ p)
    linked-beyond j hj e =
        let empty : is_present (changed.tables t' j) ≡ false =
          ap is_present (put-other m t i v t' j (inl new-not_t) ∙ clear j hj) in
        reach-cons space changed j (i ∷ p)
        ∙ ap (λ x. x >>= next_table space changed j) e
        ∙ next_table-absent space changed j t' empty
        ∙ sym (reach-cons space m j (i ∷ p) ∙ ap (λ x. x >>= next_table space m j) before-linked)

    -- A path one step longer than q, which ends at a table that stays.
    Linked-step :
        (q : List ℕ) (j s : ℕ)
        → IsPath 3 q
        → reach space m q ≡ found s
        → reach space changed q ≡ reach space m q
        → Linked (j ∷ q)
    Linked-step q j s hq f e = elim (ℕ_discrete s t) [
      | no ne ↦ inl (step-elsewhere q j s f (inl ne) e)
      | yes same ↦ elim (ℕ_discrete j i) [
        | no ne ↦ inl (step-elsewhere q j s f (inr ne) e)
        | yes eq ↦
            let to_p : q ≡ p =
              tree.one_path q p s hq (IsPath-weaken 2 p hp) f (at ∙ ap found (sym same)) in
            let here : j ∷ q ≡ i ∷ p = rw (eq, to_p) refl in
            inr (
              here,
              ap (reach space changed) here
                  ∙ linked-here (subst (λ x. reach space changed x ≡ reach space m x) to_p e),
            )
      ]
    ]

    pub reach-put_link : (q : List ℕ) → IsPath 3 q → Linked q
    unfolding put reach
    reach-put_link [] h = inl refl
    reach-put_link (j ∷ q) h =
        let hq = IsPath-weaken 2 q h.1 in
        elim (reach-put_link q hq) [
          | inl e ↦ elim (Walk_cases (reach space m q)) [
            | inl (s, f) ↦ Linked-step q j s hq f e
            | inr (s, f) ↦ inl (step-stopped q j s f e)
          ]
          | inr (e, f) ↦ inl (
              subst (λ x. reach space changed (j ∷ x) ≡ reach space m (j ∷ x)) (sym e)
                (linked-beyond j h.0 (subst (λ x. reach space changed x ≡ found t') e f)))
        ]
