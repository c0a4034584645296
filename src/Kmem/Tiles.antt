-- ===== src/Kmem/Tiles.antt =====
-- A heap as the list of its blocks, which lie one behind the other from the base to the end.
use mcsos.Common.{
  ℕ, ◌+◌, ◌-◌, ◌%◌, ◌^◌, ◌≤◌, ◌<◌, ◌≡◌, ◌≢◌, refl, ap, ◌∙◌, Bool, List, [], ◌∷◌, Option, none, some,
  arith, eq→==, ne→==,
}
use mcsos.Kmem.Heap.{Kmem, KmemBlock, kmem_magic, header_size, put, link_back, align_up_ptr}

pub record Extent : Type 0 where
  pub size : ℕ
  pub free : Bool

-- The pointer to the first of the blocks that start at c.
abbrev pub head_at : List Extent → ℕ → Option ℕ
head_at [] c = none
head_at (x ∷ xs) c = some c

abbrev pub behind : ℕ → Extent → ℕ
behind c x = c + header_size + x.size

abbrev pub header : Extent → Option ℕ → Option ℕ → KmemBlock
header x prev next = record {
  magic = kmem_magic;
  size = x.size;
  free = x.free;
  prev = prev;
  next = next;
}

abbrev pub with_prev : Option ℕ → KmemBlock → KmemBlock
with_prev prev h = record h { prev = prev }

-- The headers from c on are those of the blocks, which end at the end of the heap.
abbrev pub Tiles : (ℕ → KmemBlock) → Option ℕ → ℕ → List Extent → ℕ → Type 0
Tiles b prev c [] end = c ≡ end
Tiles b prev c (x ∷ xs) end =
    (b c ≡ header x prev (head_at xs (behind c x)))
    × (x.size % 16 ≡ 0)
    × Tiles b (some c) (behind c x) xs end

pub put-here : (k : Kmem) (a : ℕ) (h : KmemBlock) → (put a h k).blocks a ≡ h
unfolding put
put-here k a h = rw (eq→== a a refl) refl

pub put-else : (k : Kmem) (a c : ℕ) (h : KmemBlock) → c ≢ a → (put a h k).blocks c ≡ k.blocks c
unfolding put
put-else k a c h ne = rw (ne→== c a ne) refl

-- Headers from c on are all that the blocks from c on depend on.
pub Tiles-agree :
    (b d : ℕ → KmemBlock) (prev : Option ℕ) (c : ℕ) (xs : List Extent) (end : ℕ)
    → Tiles b prev c xs end
    → ((a : ℕ) → c ≤ a → d a ≡ b a)
    → Tiles d prev c xs end
Tiles-agree b d prev c [] end h agree = h
Tiles-agree b d prev c (x ∷ xs) end h agree = (
  agree c (omega arith) ∙ h.0,
  h.1,
  Tiles-agree b d (some c) (behind c x) xs end h.2 (λ a g. agree a (omega (arith, g))),
)

-- The blocks from c on, with another block before them.
pub Tiles-relink :
    (b d : ℕ → KmemBlock) (prev before : Option ℕ) (c : ℕ) (xs : List Extent) (end : ℕ)
    → Tiles b prev c xs end
    → ((x : Extent) (rest : List Extent) → xs ≡ x ∷ rest → d c ≡ with_prev before (b c))
    → ((a : ℕ) → c < a → d a ≡ b a)
    → Tiles d before c xs end
Tiles-relink b d prev before c [] end h here agree = h
Tiles-relink b d prev before c (x ∷ xs) end h here agree = (
  here x xs refl ∙ ap (with_prev before) h.0,
  h.1,
  Tiles-agree b d (some c) (behind c x) xs end h.2 (λ a g. agree a (omega (arith, g))),
)

nil_ne : {x : Extent} {rest : List Extent} → [] ≡ x ∷ rest → ⊥
nil_ne e = cc

pub link_back-else :
    (k : Kmem) (xs : List Extent) (c block a : ℕ)
    → a ≢ c
    → (link_back (head_at xs c) block k).blocks a ≡ k.blocks a
unfolding link_back
link_back-else k [] c block a ne = refl
link_back-else k (x ∷ xs) c block a ne = put-else k c a _ ne

pub link_back-here :
    (k : Kmem) (xs : List Extent) (c block : ℕ) (x : Extent) (rest : List Extent)
    → xs ≡ x ∷ rest
    → (link_back (head_at xs c) block k).blocks c ≡ with_prev (some block) (k.blocks c)
unfolding link_back
link_back-here k [] c block x rest e = absurd (nil_ne e)
link_back-here k (y ∷ ys) c block x rest e = put-here k c _

pub Tiles-end :
    (b : ℕ → KmemBlock) (prev : Option ℕ) (c : ℕ) (xs : List Extent) (end : ℕ)
    → Tiles b prev c xs end
    → c ≤ end
Tiles-end b prev c [] end h = omega (arith, h)
Tiles-end b prev c (x ∷ xs) end h = omega (arith, Tiles-end b (some c) (behind c x) xs end h.2)

-- Rounding up, where it has room.
pub align_up_ptr-aligned : (n : ℕ) → n % 16 ≡ 0 → n < 2 ^ 64 - 15 → align_up_ptr n 16 ≡ n
unfolding align_up_ptr
align_up_ptr-aligned n a h = ground (arith, a, h)

-- Only the headers and the bytes of the heap have changed.
pub record SameFrame (k k' : Kmem) : Type 0 where
  pub same_base : k'.heap_base ≡ k.heap_base
  pub same_end : k'.heap_end ≡ k.heap_end
  pub same_head : k'.head ≡ k.head
  pub same_init : k'.initialized ≡ k.initialized

pub put-SameFrame : (a : ℕ) (h : KmemBlock) (k : Kmem) → SameFrame k (put a h k)
unfolding put
put-SameFrame a h k = record {
  same_base = refl;
  same_end = refl;
  same_head = refl;
  same_init = refl;
}

pub SameFrame-trans : (k l m : Kmem) → SameFrame k l → SameFrame l m → SameFrame k m
SameFrame-trans k l m e f = record {
  same_base = f.same_base ∙ e.same_base;
  same_end = f.same_end ∙ e.same_end;
  same_head = f.same_head ∙ e.same_head;
  same_init = f.same_init ∙ e.same_init;
}

pub link_back-SameFrame :
    (next : Option ℕ) (block : ℕ) (k : Kmem) → SameFrame k (link_back next block k)
unfolding link_back
link_back-SameFrame none block k = record {
  same_base = refl;
  same_end = refl;
  same_head = refl;
  same_init = refl;
}
link_back-SameFrame (some next) block k = put-SameFrame next _ k
