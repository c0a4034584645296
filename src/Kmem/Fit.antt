-- ===== src/Kmem/Fit.antt =====
-- `kmem_alloc` as first fit on the list of blocks.
use mcsos.Common.{
  ℕ, ◌+◌, ◌-◌, ◌*◌, ◌/◌, ◌%◌, ◌^◌, ◌≤◌, ◌<◌, ◌≡◌, refl, sym, ap, ◌∙◌, subst, Bool, true, false,
  List, [], ◌∷◌, Option, none, some, arith, if◌then◌else◌, leb, ◌==◌, not, ◌&&◌, ◌||◌, ◌⊎◌, inl,
  inr, Bool-cases, Option-cases, length,
}
use mcsos.Kmem.Heap.{
  Kmem, KmemBlock, header_size, align_up_ptr, align_up_size, kmem_align, alloc_from, alloc, payload,
}
use mcsos.Kmem.Tiles.{Extent, head_at, behind, Tiles, Tiles-end}
use mcsos.Kmem.Alloc.{carve, Carved, fit, alloc_from-Fitted}

-- A heap that `kmem_init` has set up, with the blocks xs.
pub record IsHeap (k : Kmem) (xs : List Extent) : Type 0 where
  pub ready : k.initialized ≡ true
  pub aligned : k.heap_base % 16 ≡ 0
  pub room : k.heap_end < 2 ^ 64 - 15
  pub head : k.head ≡ head_at xs k.heap_base
  pub tiles : Tiles k.blocks none k.heap_base xs k.heap_end

abbrev pub rounded : ℕ → ℕ
rounded size = (size + 15) / 16 * 16

align_up_size-rounded :
    (size : ℕ) → size ≤ 2 ^ 64 - 16 → align_up_size size kmem_align ≡ rounded size
unfolding align_up_size align_up_ptr
align_up_size-rounded size h = ground (arith, h)

some_inj : {A : Type 0} {a b : A} → some a ≡ some b → a ≡ b
some_inj e = cc

none_ne : {A : Type 0} {a : A} → none ≡ some a → ⊥
none_ne e = cc

fit-first :
    (wanted c : ℕ) (x : Extent) (xs : List Extent)
    → (x.free && leb wanted x.size) ≡ true
    → fit wanted c (x ∷ xs) ≡ some (carve wanted x xs, payload c)
fit-first wanted c x xs t = rw t refl

fit-here :
    (wanted c : ℕ) (x : Extent) (xs ys : List Extent) (p : ℕ)
    → (x.free && leb wanted x.size) ≡ true
    → fit wanted c (x ∷ xs) ≡ some (ys, p)
    → payload c ≡ p
fit-here wanted c x xs ys p t e = ap (λ y. y.1) (some_inj (sym (fit-first wanted c x xs t) ∙ e))

fit-none :
    (wanted c : ℕ) (x : Extent) (xs : List Extent)
    → (x.free && leb wanted x.size) ≡ false
    → fit wanted (behind c x) xs ≡ none
    → fit wanted c (x ∷ xs) ≡ none
fit-none wanted c x xs t e = rw (t, e) refl

fit-next :
    (wanted c : ℕ) (x : Extent) (xs ys : List Extent) (p : ℕ)
    → (x.free && leb wanted x.size) ≡ false
    → fit wanted (behind c x) xs ≡ some (ys, p)
    → fit wanted c (x ∷ xs) ≡ some (x ∷ ys, p)
fit-next wanted c x xs ys p t e = rw (t, e) refl

-- The payload lies behind a header, inside the heap.
pub fit-inside :
    (b : ℕ → KmemBlock) (prev : Option ℕ) (c end wanted : ℕ) (xs ys : List Extent) (p : ℕ)
    → Tiles b prev c xs end
    → c % 16 ≡ 0
    → fit wanted c xs ≡ some (ys, p)
    → (p % 16 ≡ 0) × (c + header_size ≤ p) × (p + wanted ≤ end)
fit-inside b prev c end wanted [] ys p tiles aligned e = absurd (none_ne e)
fit-inside b prev c end wanted (x ∷ xs) ys p tiles aligned e =
    elim (Bool-cases (x.free && leb wanted x.size)) [
      | inl t ↦
          let at = fit-here wanted c x xs ys p t e in
          let fits : wanted ≤ x.size = ground (arith, t) in
          let last = Tiles-end b (some c) (behind c x) xs end tiles.2 in
          (omega (arith, at, aligned), omega (arith, at), omega (arith, at, fits, last))
      | inr t ↦ elim (Option-cases (fit wanted (behind c x) xs)) [
        | inl none_left ↦ absurd (none_ne (sym (fit-none wanted c x xs t none_left) ∙ e))
        | inr (r, some_left) ↦
            let at =
              ap (λ y. y.1) (some_inj (sym (fit-next wanted c x xs r.0 r.1 t some_left) ∙ e)) in
            let rest =
              fit-inside b (some c) (behind c x) end wanted xs r.0 r.1 tiles.2
                (omega (arith, aligned, tiles.1)) some_left in
            (omega (arith, at, rest.0), omega (arith, at, rest.1), omega (arith, at, rest.2))
      ]
    ]

pub Carved-IsHeap :
    (k k' : Kmem) (xs ys : List Extent)
    → IsHeap k xs
    → Carved k none k.heap_base ys k'
    → head_at ys k.heap_base ≡ head_at xs k.heap_base
    → IsHeap k' ys
Carved-IsHeap k k' xs ys heap carved first =
    let f = carved.frame in
    record {
      ready = f.same_init ∙ heap.ready;
      aligned = ap (λ y. y % 16) f.same_base ∙ heap.aligned;
      room = omega (arith, f.same_end, heap.room);
      head = f.same_head ∙ heap.head ∙ sym first ∙ ap (head_at ys) (sym f.same_base);
      tiles =
          subst (λ y. Tiles k'.blocks none y ys k'.heap_end) (sym f.same_base)
            (subst (Tiles k'.blocks none k.heap_base ys) (sym f.same_end) carved.tiles);
    }

guarded :
    {A : Type 0} (a b d : Bool) (x y : A)
    → a ≡ true
    → b ≡ false
    → d ≡ false
    → (if not a || b then x else if d then x else y) ≡ y
guarded a b d x y ea eb ed = rw (ea, eb, ed) refl

alloc-from :
    (fuel size : ℕ) (k : Kmem) (xs : List Extent)
    → IsHeap k xs
    → 0 < size
    → size ≤ 2 ^ 64 - 16
    → alloc fuel size k ≡ alloc_from fuel (rounded size) (head_at xs k.heap_base) k
unfolding alloc
alloc-from fuel size k xs heap h0 h =
    let r = align_up_size-rounded size h in
    let some_bytes : (rounded size == 0) ≡ false = ground (arith, h0) in
    let asked : (size == 0) ≡ false = ground (arith, h0) in
    guarded k.initialized (size == 0) (align_up_size size kmem_align == 0) (some (k, none))
      (alloc_from fuel (align_up_size size kmem_align) k.head k) heap.ready asked
      (ap (λ w. w == 0) r ∙ some_bytes)
    ∙ ap (λ w. alloc_from fuel w k.head k) r
    ∙ ap (λ q. alloc_from fuel (rounded size) q k) heap.head

-- On a heap of the blocks xs, `kmem_alloc` of a size that can be rounded up ends within as many rounds
-- as there are blocks and one more. Either no free block is large enough, and the heap is as it was;
-- or the first one that is large enough was carved: the blocks of the heap are then those of the
-- specification `fit`, and the address given out is a multiple of 16, behind a header, with size bytes
-- before the end of the heap.
pub alloc-fit :
    (fuel size : ℕ) (k : Kmem) (xs : List Extent)
    → IsHeap k xs
    → 0 < size
    → size ≤ 2 ^ 64 - 16
    → length xs < fuel
    → ((fit (rounded size) k.heap_base xs ≡ none) × (alloc fuel size k ≡ some (k, none)))
      ⊎ ((ys : List Extent) × (p : ℕ) × (k' : Kmem) × (fit (rounded size) k.heap_base xs
            ≡ some (ys, p))
          × (alloc fuel size k ≡ some (k', some p))
          × IsHeap k' ys
          × (p % 16 ≡ 0)
          × (k.heap_base + header_size ≤ p)
          × (p + size ≤ k.heap_end))
alloc-fit fuel size k xs heap h0 h more =
    let step = alloc-from fuel size k xs heap h0 h in
    elim (alloc_from-Fitted fuel k none k.heap_base xs (rounded size) heap.tiles heap.aligned
      heap.room (omega arith) more) [
        | inl (e, f) ↦ inl (e, step ∙ f)
        | inr (ys, p, k', e, f, first, carved) ↦
            let inside =
              fit-inside k.blocks none k.heap_base k.heap_end (rounded size) xs ys p heap.tiles
                heap.aligned e in
            inr (
              ys,
              p,
              k',
              e,
              step ∙ f,
              Carved-IsHeap k k' xs ys heap carved first,
              inside.0,
              inside.1,
              omega (arith, inside.2),
            )
      ]
