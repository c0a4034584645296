-- ===== src/Kmem/Free.antt =====
-- `kmem_free_checked` on the list of blocks.
use mcsos.Common.{
  ℕ, suc, ◌-◌, ◌%◌, ◌^◌, ◌≤◌, ◌<◌, ◌≡◌, refl, sym, ap, ◌∙◌, subst, true, List, [], ◌∷◌, ◌++◌,
  Option, none, some, arith, if◌then◌else◌, inl, inr, Bool-cases, length,
}
use mcsos.Kmem.Heap.{
  Kmem, KmemBlock, kmem_magic, put, ◌>>=◌, coalesce_forward, coalesce_back, released, validate,
}
use mcsos.Kmem.Tiles.{
  Extent, head_at, behind, header, Tiles, Tiles-agree, Tiles-end, put-here, put-else, put-SameFrame,
}
use mcsos.Kmem.Alloc.{Carved}
use mcsos.Kmem.Merge.{merge, joined, coalesce_forward-merge, Carved-after, whenever, otherwise}

-- The block u freed, between v and the blocks behind.
abbrev pub unused : Extent → Extent
unused u = record { size = u.size; free = true }

abbrev with_free : KmemBlock → KmemBlock
with_free h = record h { free = true }

abbrev pub release : Extent → Extent → List Extent → List Extent
release v u post = if v.free then merge v (merge (unused u) post) else v ∷ merge (unused u) post

-- The address behind some blocks.
abbrev pub address : ℕ → List Extent → ℕ
address c [] = c
address c (x ∷ xs) = address (behind c x) xs

head_at-merge : (c : ℕ) (x : Extent) (xs : List Extent) → head_at (merge x xs) c ≡ some c
head_at-merge c x [] = refl
head_at-merge c x (y ∷ ys) = elim (Bool-cases y.free) [
  | inl e ↦
      subst (λ zs. head_at zs c ≡ some c)
        (sym (whenever y.free (merge (joined x y) ys) (x ∷ y ∷ ys) e))
        (head_at-merge c (joined x y) ys)
  | inr e ↦
      subst (λ zs. head_at zs c ≡ some c)
        (sym (otherwise y.free (merge (joined x y) ys) (x ∷ y ∷ ys) e)) refl
]

pub length-merge : (x : Extent) (xs : List Extent) → length (merge x xs) ≤ suc (length xs)
length-merge x [] = omega arith
length-merge x (y ∷ ys) = elim (Bool-cases y.free) [
  | inl e ↦
      subst (λ zs. length zs ≤ suc (suc (length ys)))
        (sym (whenever y.free (merge (joined x y) ys) (x ∷ y ∷ ys) e))
        (omega (arith, length-merge (joined x y) ys))
  | inr e ↦
      subst (λ zs. length zs ≤ suc (suc (length ys)))
        (sym (otherwise y.free (merge (joined x y) ys) (x ∷ y ∷ ys) e)) (omega arith)
]

-- The first block of a list is the one at its start.
prev-Tiles :
    (b : ℕ → KmemBlock) (prev : Option ℕ) (c : ℕ) (xs : List Extent) (end : ℕ)
    → Tiles b prev c xs end
    → head_at xs c ≡ some c
    → (b c).prev ≡ prev
prev-Tiles b prev c [] end tiles e = absurd (nothing e)
  where
    nothing : none ≡ some c → ⊥
    nothing h = cc
prev-Tiles b prev c (x ∷ xs) end tiles e = ap (λ h. h.prev) tiles.0

-- A change behind the block v.
Carved-behind :
    (k l : Kmem) (prev : Option ℕ) (c : ℕ) (v : Extent) (xs ys : List Extent)
    → Tiles k.blocks prev c (v ∷ xs) k.heap_end
    → head_at ys (behind c v) ≡ head_at xs (behind c v)
    → Carved k (some c) (behind c v) ys l
    → Carved k prev c (v ∷ ys) l
Carved-behind k l prev c v xs ys tiles first a = record {
  tiles = (a.before c (omega arith) ∙ tiles.0 ∙ ap (header v prev) (sym first), tiles.1, a.tiles);
  before = λ x h. a.before x (omega (arith, h));
  frame = a.frame;
}

abbrev at_prev_block : ℕ → Kmem → Option ℕ → Option Kmem
at_prev_block fuel k none = some k
at_prev_block fuel k (some prev) =
    let merged = coalesce_forward fuel prev k in if (k.blocks prev).free then merged else some k

coalesce_back-prev :
    (fuel block : ℕ) (k : Kmem)
    → coalesce_back fuel block k ≡ at_prev_block fuel k (k.blocks block).prev
unfolding coalesce_back
coalesce_back-prev fuel block k = refl

module _ (k : Kmem) (prev : Option ℕ) (c : ℕ) (v u : Extent) (post : List Extent)
    (tiles : Tiles k.blocks prev c (v ∷ u ∷ post) k.heap_end) (aligned : c % 16 ≡ 0)
    (room : k.heap_end < 2 ^ 64 - 15) (fuel : ℕ) (more : suc (length post) < fuel) where
  abbrev block : ℕ
  block = behind c v

  abbrev k0 : Kmem
  k0 = put block (with_free (k.blocks block)) k

  freed : Carved k (some c) block (unused u ∷ post) k0
  freed = record {
    tiles = (
      put-here k block _ ∙ ap (with_free) tiles.2.0,
      tiles.2.1,
      Tiles-agree k.blocks k0.blocks (some block) (behind block u) post k.heap_end tiles.2.2
          (λ a h. put-else k block a _ (λ e. omega (arith, e, h))),
    );
    before = λ a h. put-else k block a _ (λ e. omega (arith, e, h));
    frame = put-SameFrame block _ k;
  }

  forward :
      (l : Kmem) × (coalesce_forward fuel block k0 ≡ some l)
      × Carved k (some c) block (merge (unused u) post) l
  forward =
      let m =
        coalesce_forward-merge fuel k0 (some c) block (unused u) post
          (subst (Tiles k0.blocks (some c) block (unused u ∷ post)) (sym freed.frame.same_end)
            freed.tiles)
          (omega (arith, aligned, tiles.1)) (omega (arith, freed.frame.same_end, room))
          (omega (arith, more)) in
      (
        m.0,
        m.1,
        Carved-after k k0 m.0 (some c) block (unused u ∷ post) (merge (unused u) post) freed m.2,
      )

  abbrev l : Kmem
  l = forward.0

  kept : Carved k prev c (v ∷ merge (unused u) post) l
  kept =
      Carved-behind k l prev c v (u ∷ post) (merge (unused u) post) tiles
        (head_at-merge block (unused u) post) forward.2

  length-kept : length (merge (unused u) post) < fuel
  length-kept = omega (arith, length-merge (unused u) post, more)

  backward :
      (m : Kmem) × (coalesce_back fuel block l ≡ some m) × Carved k prev c (release v u post) m
  backward =
      let xs = merge (unused u) post in
      let before =
        prev-Tiles l.blocks (some c) block xs k.heap_end forward.2.tiles
          (head_at-merge block (unused u) post) in
      let start = coalesce_back-prev fuel block l ∙ ap (at_prev_block fuel l) before in
      let same : (l.blocks c).free ≡ v.free = ap (λ h. h.free) kept.tiles.0 in
      elim (Bool-cases v.free) [
        | inl e ↦
            let m =
              coalesce_forward-merge fuel l prev c v xs
                (subst (Tiles l.blocks prev c (v ∷ xs)) (sym kept.frame.same_end) kept.tiles)
                aligned (omega (arith, kept.frame.same_end, room)) length-kept in
            (
              m.0,
              start
                  ∙ whenever (l.blocks c).free (coalesce_forward fuel c l) (some l) (same ∙ e)
                  ∙ m.1,
              subst (λ zs. Carved k prev c zs m.0) (sym (whenever v.free (merge v xs) (v ∷ xs) e))
                  (Carved-after k l m.0 prev c (v ∷ xs) (merge v xs) kept m.2),
            )
        | inr e ↦ (
          l,
          start ∙ otherwise (l.blocks c).free (coalesce_forward fuel c l) (some l) (same ∙ e),
          subst (λ zs. Carved k prev c zs l) (sym (otherwise v.free (merge v xs) (v ∷ xs) e)) kept,
        )
      ]

  released-carved :
      (m : Kmem) × (released fuel block k ≡ some (m, validate m))
      × Carved k prev c (release v u post) m
  unfolding released
  released-carved =
      let finish : Kmem → Option (Kmem × ℕ) = λ k2. some (k2, validate k2) in
      (
        backward.0,
        ap (λ o. o >>= λ k1. coalesce_back fuel block k1 >>= finish) forward.1
            ∙ ap (λ o. o >>= finish) backward.1,
        backward.2,
      )

pub head_at-release :
    (c : ℕ) (pre : List Extent) (v u : Extent) (post : List Extent)
    → head_at (pre ++ release v u post) c ≡ head_at (pre ++ v ∷ u ∷ post) c
head_at-release c [] v u post = elim (Bool-cases v.free) [
  | inl e ↦
      ap (λ zs. head_at zs c)
        (whenever v.free (merge v (merge (unused u) post)) (v ∷ merge (unused u) post) e)
      ∙ head_at-merge c v (merge (unused u) post)
  | inr e ↦
      ap (λ zs. head_at zs c)
        (otherwise v.free (merge v (merge (unused u) post)) (v ∷ merge (unused u) post) e)
]
head_at-release c (x ∷ pre) v u post = refl

-- What freeing the block u behind pre and v comes to.
pub record Freed (k : Kmem) (prev : Option ℕ) (c : ℕ) (pre : List Extent) (v u : Extent)
    (post : List Extent) (fuel : ℕ) : Type 0 where
  pub state : Kmem
  pub result : released fuel (behind (address c pre) v) k ≡ some (state, validate state)
  pub carved : Carved k prev c (pre ++ release v u post) state
  pub magic : (k.blocks (behind (address c pre) v)).magic ≡ kmem_magic
  pub used : (k.blocks (behind (address c pre) v)).free ≡ u.free
  pub above : c ≤ address c pre
  pub below : behind (behind (address c pre) v) u ≤ k.heap_end
  pub aligned : behind (address c pre) v % 16 ≡ 0

pub released-Freed :
    (k : Kmem) (prev : Option ℕ) (c : ℕ) (pre : List Extent) (v u : Extent) (post : List Extent)
    (fuel : ℕ)
    → Tiles k.blocks prev c (pre ++ v ∷ u ∷ post) k.heap_end
    → c % 16 ≡ 0
    → k.heap_end < 2 ^ 64 - 15
    → suc (length post) < fuel
    → Freed k prev c pre v u post fuel
released-Freed k prev c [] v u post fuel tiles aligned room more =
    let r = released-carved k prev c v u post tiles aligned room fuel more in
    record {
      state = r.0;
      result = r.1;
      carved = r.2;
      magic = ap (λ h. h.magic) tiles.2.0;
      used = ap (λ h. h.free) tiles.2.0;
      above = omega arith;
      below =
          Tiles-end k.blocks (some (behind c v)) (behind (behind c v) u) post k.heap_end tiles.2.2;
      aligned = omega (arith, aligned, tiles.1);
    }
released-Freed k prev c (x ∷ pre) v u post fuel tiles aligned room more =
    let r =
      released-Freed k (some c) (behind c x) pre v u post fuel tiles.2
        (omega (arith, aligned, tiles.1)) room more in
    record {
      state = r.state;
      result = r.result;
      carved =
          Carved-behind k r.state prev c x (pre ++ v ∷ u ∷ post) (pre ++ release v u post) tiles
            (head_at-release (behind c x) pre v u post) r.carved;
      magic = r.magic;
      used = r.used;
      above = omega (arith, r.above);
      below = r.below;
      aligned = r.aligned;
    }
