-- ===== src/Kmem/Merge.antt =====
-- `kmem_coalesce_forward`: a block takes in the free blocks behind it.
use mcsos.Common.{
  ℕ, zero, suc, ◌+◌, ◌-◌, ◌%◌, ◌^◌, ◌≤◌, ◌<◌, ◌≡◌, ◌≢◌, refl, sym, ap, ◌∙◌, subst, Bool, true,
  false, List, [], ◌∷◌, Option, none, some, arith, ◌!=◌, if◌then◌else◌, not, inl, inr, add_u64,
  Bool-cases, length,
}
use mcsos.Kmem.Heap.{
  Kmem, KmemBlock, header_size, payload, kmem_align, put, link_back, align_up_ptr, absorb_next,
  coalesce_forward,
}
use mcsos.Kmem.Tiles.{
  Extent, head_at, behind, header, Tiles, Tiles-relink, Tiles-end, put-here, put-else,
  link_back-here, link_back-else, with_prev, align_up_ptr-aligned, put-SameFrame, SameFrame-trans,
  link_back-SameFrame,
}
use mcsos.Kmem.Alloc.{Carved}

abbrev pub joined : Extent → Extent → Extent
joined x y = record { size = x.size + header_size + y.size; free = x.free }

-- The block x with the free blocks at the front of xs, and the blocks that are left.
abbrev pub merge : Extent → List Extent → List Extent
merge x [] = x ∷ []
merge x (y ∷ ys) = let rest = merge (joined x y) ys in if y.free then rest else x ∷ y ∷ ys

abbrev gone : KmemBlock → KmemBlock
gone h = record h { magic = 0; size = 0; prev = none; next = none }

abbrev at_next_block : ℕ → ℕ → Kmem → Option ℕ → Option Kmem
at_next_block fuel block k none = some k
at_next_block fuel block k (some next) =
    if not (k.blocks next).free
    then some k
    else if align_up_ptr (payload block + (k.blocks block).size) kmem_align != next
    then some k
    else coalesce_forward fuel block (absorb_next block next k)

coalesce_forward-next :
    (fuel block : ℕ) (k : Kmem)
    → coalesce_forward (suc fuel) block k ≡ at_next_block fuel block k (k.blocks block).next
unfolding coalesce_forward
coalesce_forward-next fuel block k = at_cases (k.blocks block).next
  where
    at_cases : (o : Option ℕ) → at_next_block fuel block k o ≡ at_next_block fuel block k o
    at_cases o = refl

takes_in :
    {A : Type 0} (free : Bool) (found next : ℕ) (a b : A)
    → free ≡ true
    → found ≡ next
    → (if not free then a else if found != next then a else b) ≡ b
takes_in free found next a b e1 e2 =
    let same : (next != next) ≡ false = ground arith in rw (e1, e2, same) refl

used_stays : {A : Type 0} (free : Bool) (a b : A) → free ≡ false → (if not free then a else b) ≡ a
used_stays free a b e = rw e refl

pub otherwise : {A : Type 0} (b : Bool) (p q : A) → b ≡ false → (if b then p else q) ≡ q
otherwise b p q e = rw e refl

pub whenever : {A : Type 0} (b : Bool) (p q : A) → b ≡ true → (if b then p else q) ≡ p
whenever b p q e = rw e refl

pub Carved-after :
    (k l m : Kmem) (prev : Option ℕ) (c : ℕ) (ys zs : List Extent)
    → Carved k prev c ys l
    → Carved l prev c zs m
    → Carved k prev c zs m
Carved-after k l m prev c ys zs a b = record {
  tiles = subst (Tiles m.blocks prev c zs) a.frame.same_end b.tiles;
  before = λ x h. b.before x h ∙ a.before x h;
  frame = SameFrame-trans k l m a.frame b.frame;
}

pub unchanged :
    (k : Kmem) (prev : Option ℕ) (c : ℕ) (xs : List Extent)
    → Tiles k.blocks prev c xs k.heap_end
    → Carved k prev c xs k
unchanged k prev c xs tiles = record {
  tiles = tiles;
  before = λ a h. refl;
  frame = record { same_base = refl; same_end = refl; same_head = refl; same_init = refl };
}

module _ (k : Kmem) (prev : Option ℕ) (c : ℕ) (x y : Extent) (ys : List Extent)
    (tiles : Tiles k.blocks prev c (x ∷ y ∷ ys) k.heap_end) (aligned : c % 16 ≡ 0)
    (room : k.heap_end < 2 ^ 64 - 15) where
  abbrev c1 : ℕ
  c1 = behind c x

  abbrev c2 : ℕ
  c2 = behind c1 y

  abbrev k1 : Kmem
  k1 = put c (header (joined x y) prev (head_at ys c2)) k

  abbrev k2 : Kmem
  k2 = link_back (head_at ys c2) c k1

  abbrev k3 : Kmem
  k3 = put c1 (gone (k2.blocks c1)) k2

  last : c2 ≤ k.heap_end
  last = Tiles-end k.blocks (some c1) c2 ys k.heap_end tiles.2.2

  absorb_next-joined : absorb_next c c1 k ≡ k3
  unfolding absorb_next
  absorb_next-joined =
      let size : add_u64 x.size (add_u64 header_size y.size) ≡ x.size + header_size + y.size =
        omega (arith, last, room) in
      rw (tiles.0, tiles.2.0, size) refl

  elsewhere : (a : ℕ) → a ≢ c → a ≢ c1 → a ≢ c2 → k3.blocks a ≡ k.blocks a
  elsewhere a hc h1 h2 =
      put-else k2 c1 a _ h1 ∙ link_back-else k1 ys c2 c a h2 ∙ put-else k c a _ hc

  at_block : k3.blocks c ≡ header (joined x y) prev (head_at ys c2)
  at_block =
      put-else k2 c1 c _ (λ e. omega (arith, e))
      ∙ link_back-else k1 ys c2 c c (λ e. omega (arith, e))
      ∙ put-here k c _

  at_next :
      (z : Extent) (rest : List Extent)
      → ys ≡ z ∷ rest
      → k3.blocks c2 ≡ with_prev (some c) (k.blocks c2)
  at_next z rest e =
      put-else k2 c1 c2 _ (λ e. omega (arith, e))
      ∙ link_back-here k1 ys c2 c z rest e
      ∙ ap (with_prev (some c)) (put-else k c c2 _ (λ e. omega (arith, e)))

  end_joined : c2 ≡ behind c (joined x y)
  end_joined = omega arith

  absorbed : Carved k prev c (joined x y ∷ ys) k3
  absorbed =
      let after =
        Tiles-relink k.blocks k3.blocks (some c1) (some c) c2 ys k.heap_end tiles.2.2 at_next
          (λ a h.
            elsewhere a (λ e. omega (arith, e, h)) (λ e. omega (arith, e, h))
              (λ e. omega (arith, e, h))) in
      record {
        tiles = (
          at_block ∙ ap (λ n. header (joined x y) prev (head_at ys n)) end_joined,
          omega (arith, tiles.1, tiles.2.1),
          subst (λ n. Tiles k3.blocks (some c) n ys k.heap_end) end_joined after,
        );
        before = λ a h.
            elsewhere a (λ e. omega (arith, e, h)) (λ e. omega (arith, e, h))
              (λ e. omega (arith, e, h));
        frame = SameFrame-trans k k1 k3 (put-SameFrame c _ k) (
            SameFrame-trans k1 k2 k3 (link_back-SameFrame (head_at ys c2) c k1)
              (put-SameFrame c1 _ k2));
      }

  coalesce-step :
      (fuel : ℕ) → y.free ≡ true → coalesce_forward (suc fuel) c k ≡ coalesce_forward fuel c k3
  coalesce-step fuel e =
      let here : align_up_ptr (payload c + x.size) kmem_align ≡ c1 =
        align_up_ptr-aligned c1 (omega (arith, aligned, tiles.1)) (omega (arith, last, room)) in
      coalesce_forward-next fuel c k
      ∙ ap (at_next_block fuel c k) (ap (λ h. h.next) tiles.0)
      ∙ takes_in (k.blocks c1).free (align_up_ptr (payload c + (k.blocks c).size) kmem_align) c1
          (some k) (coalesce_forward fuel c (absorb_next c c1 k)) (ap (λ h. h.free) tiles.2.0 ∙ e)
          (ap (λ h. align_up_ptr (payload c + h.size) kmem_align) tiles.0 ∙ here)
      ∙ ap (coalesce_forward fuel c) absorb_next-joined

  coalesce-used : (fuel : ℕ) → y.free ≡ false → coalesce_forward (suc fuel) c k ≡ some k
  coalesce-used fuel e =
      coalesce_forward-next fuel c k
      ∙ ap (at_next_block fuel c k) (ap (λ h. h.next) tiles.0)
      ∙ used_stays (k.blocks c1).free (some k) _ (ap (λ h. h.free) tiles.2.0 ∙ e)

-- A block takes in the free blocks that follow it, and no other; the loop ends within as many rounds
-- as there are blocks behind it and one more, and changes nothing before the block.
pub coalesce_forward-merge :
    (fuel : ℕ) (k : Kmem) (prev : Option ℕ) (c : ℕ) (x : Extent) (xs : List Extent)
    → Tiles k.blocks prev c (x ∷ xs) k.heap_end
    → c % 16 ≡ 0
    → k.heap_end < 2 ^ 64 - 15
    → length xs < fuel
    → (k' : Kmem) × (coalesce_forward fuel c k ≡ some k') × Carved k prev c (merge x xs) k'
coalesce_forward-merge zero k prev c x xs tiles aligned room more = absurd (omega (arith, more))
coalesce_forward-merge (suc fuel) k prev c x [] tiles aligned room more = (
  k,
  coalesce_forward-next fuel c k ∙ ap (at_next_block fuel c k) (ap (λ h. h.next) tiles.0),
  unchanged k prev c (x ∷ []) tiles,
)
coalesce_forward-merge (suc fuel) k prev c x (y ∷ ys) tiles aligned room more =
    elim (Bool-cases y.free) [
      | inr e ↦ (
        k,
        coalesce-used k prev c x y ys tiles aligned room fuel e,
        subst (λ zs. Carved k prev c zs k)
            (sym (otherwise y.free (merge (joined x y) ys) (x ∷ y ∷ ys) e))
            (unchanged k prev c (x ∷ y ∷ ys) tiles),
      )
      | inl e ↦
          let l = k3 k prev c x y ys tiles aligned room in
          let done = absorbed k prev c x y ys tiles aligned room in
          let rest =
            coalesce_forward-merge fuel l prev c (joined x y) ys
              (subst (Tiles l.blocks prev c (joined x y ∷ ys)) (sym done.frame.same_end) done.tiles)
              aligned (omega (arith, done.frame.same_end, room)) (omega (arith, more)) in
          (
            rest.0,
            coalesce-step k prev c x y ys tiles aligned room fuel e ∙ rest.1,
            subst (λ zs. Carved k prev c zs rest.0)
                (sym (whenever y.free (merge (joined x y) ys) (x ∷ y ∷ ys) e))
                (Carved-after k l rest.0 prev c (joined x y ∷ ys) (merge (joined x y) ys) done
                  rest.2),
          )
    ]
