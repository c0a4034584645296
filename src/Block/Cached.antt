-- ===== src/Block/Cached.antt =====
-- A block that was written to the cache is read back from it.
use mcsos.Common.{
  ℕ, zero, suc, ◌+◌, ◌≤◌, ◌<◌, ◌≡◌, refl, sym, ap, ◌∙◌, Bool, true, false, List, some, arith, ◌==◌,
  ◌!=◌, ◌&&◌, get_or, length, get_or-set_self, get_or-set_ne, inl, inr, Bool-cases, ℕ_discrete,
}
use mcsos.Block.Device.{ok, BlkDevice}
use mcsos.Block.Copy.{memcpy, memcpy-copied}
use mcsos.Block.Cache.{
  Bcache, no_entry, entry_at, put_entry, is_dev, find_from, find, deliver, bcache_read,
  bcache_write,
}

-- Whether an entry holds block `lba` of the device.
abbrev hit : Bcache → ℕ → ℕ → ℕ → Bool
hit cache dev lba i =
    (entry_at cache i).valid && is_dev (entry_at cache i).dev dev && (entry_at cache i).lba == lba

module _ (cache : Bcache) (dev lba : ℕ) where
  find_from-here :
      (n k : ℕ) → hit cache dev lba k ≡ true → find_from (suc n) k cache dev lba ≡ some k
  unfolding find_from
  find_from-here n k h = rw h refl

  find_from-later :
      (n k : ℕ)
      → hit cache dev lba k ≡ false
      → find_from (suc n) k cache dev lba ≡ find_from n (k + 1) cache dev lba
  unfolding find_from
  find_from-later n k h = rw h refl

  none-some : (k i : ℕ) → ¬ (find_from zero k cache dev lba ≡ some i)
  unfolding find_from
  none-some k i e = ground (arith, e)

  -- An index that was found is a hit, and no index before it is.
  Found : ℕ → ℕ → ℕ → Type 0
  Found n k i =
      (k ≤ i)
      × (i < k + n)
      × (hit cache dev lba i ≡ true)
      × ((j : ℕ) → k ≤ j → j < i → hit cache dev lba j ≡ false)

  some-eq : (a b : ℕ) → some a ≡ some b → a ≡ b
  some-eq a b e = ground (arith, e)

  find_from-Found : (n k i : ℕ) → find_from n k cache dev lba ≡ some i → Found n k i
  unfolding Found
  find_from-Found zero k i e = absurd (none-some k i e)
  find_from-Found (suc n) k i e = elim (Bool-cases (hit cache dev lba k)) [
    | inl h ↦
        let ei = some-eq k i (sym (find_from-here n k h) ∙ e) in
        (
          omega (arith, ei),
          omega (arith, ei),
          rw (← ei) h,
          λ j a b. absurd (omega (arith, ei, a, b)),
        )
    | inr h ↦
        let f = find_from-Found n (k + 1) i (sym (find_from-later n k h) ∙ e) in
        (
          omega (arith, f.0),
          omega (arith, f.1),
          f.2,
          λ j a b. elim (ℕ_discrete j k) [
            | yes ej ↦ rw ej h
            | no ne ↦ f.3 j (omega (arith, a, ne)) b
          ],
        )
  ]

  find_from-first :
      (n k i : ℕ)
      → k ≤ i
      → i < k + n
      → hit cache dev lba i ≡ true
      → ((j : ℕ) → k ≤ j → j < i → hit cache dev lba j ≡ false)
      → find_from n k cache dev lba ≡ some i
  unfolding find_from
  find_from-first zero k i le lt h below = absurd (omega arith)
  find_from-first (suc n) k i le lt h below = elim (ℕ_discrete k i) [
    | yes e ↦ rw e (rw h refl)
    | no ne ↦ rw (below k (omega arith) (omega (arith, ne))) (
        find_from-first n (k + 1) i (omega (arith, ne)) (omega arith) h
          (λ j a b. below j (omega (arith, a)) b))
  ]

-- The cache after `buffer` was written to its entry `i`.
abbrev written : Bcache → ℕ → List ℕ → Bcache
written cache i buffer = put_entry cache i (record (entry_at cache i) {
  bytes = memcpy cache.block_size 0 (entry_at cache i).bytes 0 buffer 0;
  dirty = true;
})

module _ (cache : Bcache) (dev lba i : ℕ) (buffer : List ℕ)
    (inside : i < length cache.entries) where
  entry-written : entry_at (written cache i buffer) i ≡ record (entry_at cache i) {
    bytes = memcpy cache.block_size 0 (entry_at cache i).bytes 0 buffer 0;
    dirty = true;
  }
  entry-written = get_or-set_self cache.entries i _ no_entry inside

  hit-written : (j : ℕ) → hit (written cache i buffer) dev lba j ≡ hit cache dev lba j
  hit-written j = elim (ℕ_discrete j i) [
    | yes e ↦ rw e (ap (λ x. x.valid && is_dev x.dev dev && x.lba == lba) entry-written)
    | no ne ↦
        ap (λ x. x.valid && is_dev x.dev dev && x.lba == lba)
          (get_or-set_ne cache.entries i j _ no_entry (λ e. ne (sym e)))
  ]

  find-written : find cache dev lba ≡ some i → find (written cache i buffer) dev lba ≡ some i
  unfolding find Found
  find-written e =
      let f = find_from-Found cache dev lba cache.entry_count 0 i e in
      find_from-first (written cache i buffer) dev lba cache.entry_count 0 i f.0 f.1
        (hit-written i ∙ f.2) (λ j a b. hit-written j ∙ f.3 j a b)

module _ {d : Type 0} (devices : ℕ → BlkDevice d) (drives : ℕ → d) (cache : Bcache) (dev lba i : ℕ)
    (buffer : List ℕ) (found : find cache dev lba ≡ some i)
    (same_size : cache.block_size ≡ (devices dev).block_size) where
  write-hit :
      bcache_write devices cache drives dev lba buffer ≡ (written cache i buffer, drives, ok)
  unfolding bcache_write
  write-hit =
      let e : (cache.block_size != (devices dev).block_size) ≡ false = ground (arith, same_size) in
      rw (e, found) refl

  read-hit : bcache_read devices cache drives dev lba buffer ≡ deliver devices cache drives i buffer
  unfolding bcache_read
  read-hit =
      let e : (cache.block_size != (devices dev).block_size) ≡ false = ground (arith, same_size) in
      rw (e, found) refl

-- If the cache holds a block of a device of its block size, in an entry with room for a block, a
-- write of the block succeeds without a call of any driver, and a read that follows, into a buffer
-- with room for a block, gives the bytes that were written, again without a call of any driver.
pub bcache_read-bcache_write :
    {d : Type 0} (devices : ℕ → BlkDevice d) (drives : ℕ → d) (cache : Bcache) (dev lba i : ℕ)
    (buffer into : List ℕ)
    → find cache dev lba ≡ some i
    → cache.block_size ≡ (devices dev).block_size
    → i < length cache.entries
    → cache.block_size ≤ length (entry_at cache i).bytes
    → cache.block_size ≤ length into
    → (after : Bcache) × (out : List ℕ) × (bcache_write devices cache drives dev lba buffer
        ≡ (after, drives, ok))
      × (bcache_read devices after drives dev lba into ≡ (after, drives, out, ok))
      × ((j : ℕ) → j < cache.block_size → get_or out j 0 ≡ get_or buffer j 0)
bcache_read-bcache_write devices drives cache dev lba i buffer into found same_size inside room
      large =
    let after = written cache i buffer in
    let size = cache.block_size in
    (
      after,
      memcpy size 0 into 0 (entry_at after i).bytes 0,
      write-hit devices drives cache dev lba i buffer found same_size,
      read-hit devices drives after dev lba i into
          (find-written cache dev lba i buffer inside found) same_size,
      λ j lt.
          memcpy-copied size into 0 (entry_at after i).bytes 0 j {b = j} (omega arith) (omega arith)
            lt (omega (arith, large))
          ∙ ap (λ x. get_or x.bytes j 0) (entry-written cache dev lba i buffer inside)
          ∙ memcpy-copied size (entry_at cache i).bytes 0 buffer 0 j (omega arith) (omega arith) lt
              (omega (arith, room)),
    )
