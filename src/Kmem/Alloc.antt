-- ===== src/Kmem/Alloc.antt =====
-- `kmem_alloc` on a heap whose blocks lie one behind the other: the first free block that is large
-- enough is carved.
use mcsos.Common.{
  ℕ, zero, suc, ◌+◌, ◌-◌, ◌%◌, ◌^◌, ◌≤◌, ◌<◌, ◌≡◌, ◌≢◌, refl, sym, ap, ◌∙◌, subst, true, false,
  List, [], ◌∷◌, Option, none, some, arith, if◌then◌else◌, ltb, leb, ◌&&◌, ◌⊎◌, inl, inr,
  Bool-cases, length, ltb→lt,
}
use mcsos.Kmem.Heap.{
  Kmem, KmemBlock, header_size, put, link_back, align_up_ptr, align_up_size, kmem_align,
  kmem_min_split, split_at, split_if_useful, alloc_from, payload,
}
use mcsos.Kmem.Tiles.{
  Extent, head_at, behind, header, Tiles, Tiles-agree, Tiles-relink, Tiles-end, put-here, put-else,
  SameFrame, put-SameFrame, link_back-SameFrame, SameFrame-trans, link_back-here, link_back-else,
  with_prev, align_up_ptr-aligned,
}

-- A block of which wanted bytes are given out; what is left becomes a free block if it is large enough.
abbrev pub carve : ℕ → Extent → List Extent → List Extent
carve wanted x xs =
    if ltb (wanted + header_size + kmem_min_split) x.size
    then record { size = wanted; free = false }
      ∷ record { size = x.size - wanted - header_size; free = true }
      ∷ xs
    else record { size = x.size; free = false } ∷ xs

-- The given block, and the changed heap, with no change before c.
pub record Carved (k : Kmem) (prev : Option ℕ) (c : ℕ) (ys : List Extent) (k' : Kmem) : Type 0 where
  pub tiles : Tiles k'.blocks prev c ys k.heap_end
  pub before : (a : ℕ) → a < c → k'.blocks a ≡ k.blocks a
  pub frame : SameFrame k k'

abbrev given : KmemBlock → KmemBlock
given h = record h { free = false }

abbrev taken : ℕ → Kmem → Kmem
taken c k = put c (given (k.blocks c)) k

module _ (k : Kmem) (prev : Option ℕ) (c : ℕ) (x : Extent) (xs : List Extent) (wanted : ℕ)
    (tiles : Tiles k.blocks prev c (x ∷ xs) k.heap_end) (aligned : c % 16 ≡ 0)
    (room : k.heap_end < 2 ^ 64 - 15) (even : wanted % 16 ≡ 0) (fits : wanted ≤ x.size) where
  size-here : (k.blocks c).size ≡ x.size
  size-here = ap (λ h. h.size) tiles.0

  inside : behind c x ≤ k.heap_end
  inside = Tiles-end k.blocks (some c) (behind c x) xs k.heap_end tiles.2

  -- When the block is given out whole.
  whole : Carved k prev c (record { size = x.size; free = false } ∷ xs) (taken c k)
  whole = record {
    tiles = (
      put-here k c _ ∙ ap given tiles.0,
      tiles.1,
      Tiles-agree k.blocks (taken c k).blocks (some c) (behind c x) xs k.heap_end tiles.2
          (λ a h. put-else k c a _ (λ e. omega (arith, h, e))),
    );
    before = λ a h. put-else k c a _ (λ e. omega (arith, h, e));
    frame = put-SameFrame c _ k;
  }

  aligned_rest : align_up_ptr (c + header_size + wanted) kmem_align ≡ c + header_size + wanted
  aligned_rest =
      align_up_ptr-aligned (c + header_size + wanted) (omega (arith, aligned, even))
        (omega (arith, inside, fits, room))

  useless :
      ltb (wanted + header_size + kmem_min_split) x.size ≡ false → split_if_useful c wanted k ≡ k
  unfolding split_if_useful align_up_size
  useless e =
      rw (align_up_ptr-aligned 48 (omega arith) (omega arith), aligned_rest, size-here)
        (ground (arith, e, inside))

  useful :
      ltb (wanted + header_size + kmem_min_split) x.size ≡ true
      → split_if_useful c wanted k ≡ split_at c (c + header_size + wanted) wanted k
  unfolding split_if_useful align_up_size
  useful e =
      rw (align_up_ptr-aligned 48 (omega arith) (omega arith), aligned_rest, size-here)
        (ground (arith, e, inside))

abbrev resized : ℕ → ℕ → KmemBlock → KmemBlock
resized n wanted h = record h { next = some n; size = wanted }

module _ (k : Kmem) (prev : Option ℕ) (c : ℕ) (x : Extent) (xs : List Extent) (wanted : ℕ)
    (tiles : Tiles k.blocks prev c (x ∷ xs) k.heap_end) (even : wanted % 16 ≡ 0)
    (large : wanted + header_size + kmem_min_split < x.size) where
  abbrev n : ℕ
  n = c + header_size + wanted

  abbrev c1 : ℕ
  c1 = behind c x

  abbrev left : Extent
  left = record { size = x.size - wanted - header_size; free = true }

  abbrev k1 : Kmem
  k1 = put n (header left (some c) (head_at xs c1)) k

  abbrev k2 : Kmem
  k2 = link_back (head_at xs c1) n k1

  abbrev k3 : Kmem
  k3 = put c (resized n wanted (k2.blocks c)) k2

  split_at-carved : split_at c n wanted k ≡ k3
  unfolding split_at
  split_at-carved =
      let size = ap (λ h. h.size) tiles.0 in
      let next = ap (λ h. h.next) tiles.0 in
      let offset : n - payload c ≡ wanted = omega arith in rw (size, next, offset) refl

  elsewhere : (a : ℕ) → a ≢ c → a ≢ n → a ≢ c1 → (taken c k3).blocks a ≡ k.blocks a
  elsewhere a hc hn h1 =
      put-else k3 c a _ hc
      ∙ put-else k2 c a _ hc
      ∙ link_back-else k1 xs c1 n a h1
      ∙ put-else k n a _ hn

  at_block : (taken c k3).blocks c ≡ header (record { size = wanted; free = false }) prev (some n)
  at_block =
      put-here k3 c _
      ∙ ap given (
          put-here k2 c _
          ∙ ap (resized n wanted) (
              link_back-else k1 xs c1 n c (λ e. omega (arith, e))
              ∙ put-else k n c _ (λ e. omega (arith, e))
              ∙ tiles.0))

  at_left : (taken c k3).blocks n ≡ header left (some c) (head_at xs c1)
  at_left =
      put-else k3 c n _ (λ e. omega (arith, e))
      ∙ put-else k2 c n _ (λ e. omega (arith, e))
      ∙ link_back-else k1 xs c1 n n (λ e. omega (arith, e, large))
      ∙ put-here k n _

  at_next :
      (y : Extent) (rest : List Extent)
      → xs ≡ y ∷ rest
      → (taken c k3).blocks c1 ≡ with_prev (some n) (k.blocks c1)
  at_next y rest e =
      put-else k3 c c1 _ (λ e. omega (arith, e))
      ∙ put-else k2 c c1 _ (λ e. omega (arith, e))
      ∙ link_back-here k1 xs c1 n y rest e
      ∙ ap (with_prev (some n)) (put-else k n c1 _ (λ e. omega (arith, e, large)))

  end_left : c1 ≡ behind n left
  end_left = omega (arith, large)

  carved-SameFrame : SameFrame k (taken c k3)
  carved-SameFrame = SameFrame-trans k k1 (taken c k3) (put-SameFrame n _ k) (
      SameFrame-trans k1 k2 (taken c k3) (link_back-SameFrame (head_at xs c1) n k1)
        (SameFrame-trans k2 k3 (taken c k3) (put-SameFrame c _ k2) (put-SameFrame c _ k3)))

  split : Carved k prev c (record { size = wanted; free = false } ∷ left ∷ xs) (taken c k3)
  split =
      let after =
        Tiles-relink k.blocks (taken c k3).blocks (some c) (some n) c1 xs k.heap_end tiles.2 at_next
          (λ a h.
            elsewhere a (λ e. omega (arith, e, h)) (λ e. omega (arith, e, h, large))
              (λ e. omega (arith, e, h))) in
      record {
        tiles = (
          at_block,
          even,
          (
            at_left ∙ ap (λ y. header left (some c) (head_at xs y)) end_left,
            omega (arith, tiles.1, even, large),
            subst (λ y. Tiles (taken c k3).blocks (some n) y xs k.heap_end) end_left after,
          ),
        );
        before = λ a h.
            elsewhere a (λ e. omega (arith, e, h)) (λ e. omega (arith, e, h))
              (λ e. omega (arith, e, h));
        frame = carved-SameFrame;
      }

-- First fit: the list with the block carved, and the address of the payload that is given out.
abbrev pub fit : ℕ → ℕ → List Extent → Option (List Extent × ℕ)
fit wanted c [] = none
fit wanted c (x ∷ xs) =
    let rest = fit wanted (behind c x) xs in
    if x.free && leb wanted x.size
    then some (carve wanted x xs, payload c)
    else elim rest [ none ↦ none | some (ys, p) ↦ some (x ∷ ys, p) ]

-- What the loop leaves, when the blocks xs start at c.
abbrev pub Fitted : Kmem → Option ℕ → ℕ → List Extent → ℕ → Option (Kmem × Option ℕ) → Type 0
Fitted k prev c xs wanted r =
    ((fit wanted c xs ≡ none) × (r ≡ some (k, none)))
    ⊎ ((ys : List Extent) × (p : ℕ) × (k' : Kmem) × (fit wanted c xs ≡ some (ys, p))
        × (r ≡ some (k', some p))
        × (head_at ys c ≡ head_at xs c)
        × Carved k prev c ys k')

head_at-carve :
    (wanted c : ℕ) (x : Extent) (xs : List Extent) → head_at (carve wanted x xs) c ≡ some c
head_at-carve wanted c x xs =
    elim (Bool-cases (ltb (wanted + header_size + kmem_min_split) x.size)) [
      | inl e ↦ rw e refl
      | inr e ↦ rw e refl
    ]

-- The block that fits.
carved-at :
    (k : Kmem) (prev : Option ℕ) (c : ℕ) (x : Extent) (xs : List Extent) (wanted : ℕ)
    → Tiles k.blocks prev c (x ∷ xs) k.heap_end
    → c % 16 ≡ 0
    → k.heap_end < 2 ^ 64 - 15
    → wanted % 16 ≡ 0
    → wanted ≤ x.size
    → Carved k prev c (carve wanted x xs) (taken c (split_if_useful c wanted k))
carved-at k prev c x xs wanted tiles aligned room even fits =
    elim (Bool-cases (ltb (wanted + header_size + kmem_min_split) x.size)) [
      | inl e ↦
          let same =
            useful k prev c x xs wanted tiles aligned room even fits e
            ∙ split_at-carved k prev c x xs wanted tiles even (ltb→lt _ _ e) in
          rw (e, same) (split k prev c x xs wanted tiles even (ltb→lt _ _ e))
      | inr e ↦
          rw (e, useless k prev c x xs wanted tiles aligned room even fits e)
            (whole k prev c x xs wanted tiles aligned room even fits)
    ]

-- A block that does not fit stays as it is.
Fitted-behind :
    (k : Kmem) (prev : Option ℕ) (c : ℕ) (x : Extent) (xs : List Extent) (wanted : ℕ)
    (r : Option (Kmem × Option ℕ))
    → Tiles k.blocks prev c (x ∷ xs) k.heap_end
    → (x.free && leb wanted x.size) ≡ false
    → Fitted k (some c) (behind c x) xs wanted r
    → Fitted k prev c (x ∷ xs) wanted r
Fitted-behind k prev c x xs wanted r tiles e (inl (f, g)) = inl (rw (e, f) refl, g)
Fitted-behind k prev c x xs wanted r tiles e (inr (ys, p, k', f, g, hd, carved)) = inr (
  x ∷ ys,
  p,
  k',
  rw (e, f) refl,
  g,
  refl,
  record {
    tiles = (
      carved.before c (omega arith) ∙ tiles.0 ∙ ap (header x prev) (sym hd),
      tiles.1,
      carved.tiles,
    );
    before = λ a h. carved.before a (omega (arith, h));
    frame = carved.frame;
  },
)

alloc_from-end :
    (fuel : ℕ) (k : Kmem) (wanted : ℕ) → alloc_from (suc fuel) wanted none k ≡ some (k, none)
unfolding alloc_from
alloc_from-end fuel k wanted = refl

alloc_from-here :
    (fuel : ℕ) (k : Kmem) (prev : Option ℕ) (c : ℕ) (x : Extent) (xs : List Extent) (wanted : ℕ)
    → k.blocks c ≡ header x prev (head_at xs (behind c x))
    → (x.free && leb wanted x.size) ≡ true
    → alloc_from (suc fuel) wanted (some c) k
      ≡ some (taken c (split_if_useful c wanted k), some (payload c))
unfolding alloc_from
alloc_from-here fuel k prev c x xs wanted h e =
    let size = ap (λ b. b.size) h in
    let free = ap (λ b. b.free) h in
    let magic = ap (λ b. b.magic) h in rw (magic, free, size, e) refl

alloc_from-next :
    (fuel : ℕ) (k : Kmem) (prev : Option ℕ) (c : ℕ) (x : Extent) (xs : List Extent) (wanted : ℕ)
    → k.blocks c ≡ header x prev (head_at xs (behind c x))
    → (x.free && leb wanted x.size) ≡ false
    → alloc_from (suc fuel) wanted (some c) k ≡ alloc_from fuel wanted (head_at xs (behind c x)) k
unfolding alloc_from
alloc_from-next fuel k prev c x xs wanted h e = rw (h, e) refl

pub alloc_from-Fitted :
    (fuel : ℕ) (k : Kmem) (prev : Option ℕ) (c : ℕ) (xs : List Extent) (wanted : ℕ)
    → Tiles k.blocks prev c xs k.heap_end
    → c % 16 ≡ 0
    → k.heap_end < 2 ^ 64 - 15
    → wanted % 16 ≡ 0
    → length xs < fuel
    → Fitted k prev c xs wanted (alloc_from fuel wanted (head_at xs c) k)
alloc_from-Fitted zero k prev c xs wanted tiles aligned room even more =
    absurd (omega (arith, more))
alloc_from-Fitted (suc fuel) k prev c [] wanted tiles aligned room even more =
    inl (refl, alloc_from-end fuel k wanted)
alloc_from-Fitted (suc fuel) k prev c (x ∷ xs) wanted tiles aligned room even more =
    elim (Bool-cases (x.free && leb wanted x.size)) [
      | inl e ↦
          let fits : wanted ≤ x.size = ground (arith, e) in
          inr (
            carve wanted x xs,
            payload c,
            taken c (split_if_useful c wanted k),
            rw e refl,
            alloc_from-here fuel k prev c x xs wanted tiles.0 e,
            head_at-carve wanted c x xs,
            carved-at k prev c x xs wanted tiles aligned room even fits,
          )
      | inr e ↦
          let rest =
            alloc_from-Fitted fuel k (some c) (behind c x) xs wanted tiles.2
              (omega (arith, aligned, tiles.1)) room even (omega (arith, more)) in
          subst (Fitted k prev c (x ∷ xs) wanted)
            (sym (alloc_from-next fuel k prev c x xs wanted tiles.0 e))
            (Fitted-behind k prev c x xs wanted (alloc_from fuel wanted (head_at xs (behind c x)) k)
              tiles e rest)
    ]
