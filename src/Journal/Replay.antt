-- ===== src/Journal/Replay.antt =====
-- `m16_journal_recover` on a journal that holds a transaction.
use mcsos.Common.{
  ℕ, zero, suc, ◌+◌, ◌^◌, ◌≤◌, ◌<◌, ◌≡◌, refl, ap, ◌∙◌, true, List, [], none, arith, eq→==, set,
  length, length-set, get_or-set_self, get_or-set_ne, add_u64, inl, ℕ_discrete,
}
use mcsos.Journal.Device.{
  ok, BlockDev, followed, ◌>>◌, zero_block, block_at, max_blocks, read_block,
}
use mcsos.Journal.Bytes.{checksum}
use mcsos.Journal.Codec.{
  desc_of-desc_for, header_of-sealed, sealed-checksum, sealed-committed, sealed-not_empty,
  sealed-count,
}
use mcsos.Journal.Log.{
  Tx, record_at, desc_lba, desc_for, desc_bytes, header_bytes, header_of, sealed, is_empty,
  journal_start, journal_clear, replay, recover_from, journal_recover, max_records,
}
use mcsos.Journal.Writes.{apply, Within, Within-weaken, apply-outside, valid, write-free}
use mcsos.Journal.Commit.{record_writes, home_writes}

abbrev pub first_home : ℕ
first_home = 18

-- A transaction that fits the journal, with its homes behind the journal and inside the device.
pub record TxFits (total : ℕ) (tx : Tx) : Type 0 where
  pub few : tx.count ≤ max_records
  pub homes :
      (i : ℕ)
      → i < tx.count
      → (first_home ≤ (record_at tx i).target_lba) × ((record_at tx i).target_lba < total)

-- A device that does not fail.
abbrev pub free : ℕ → List (List ℕ) → ℕ → BlockDev
free total blocks writes = record {
  blocks = blocks;
  total_blocks = total;
  writes = writes;
  fail_after = none;
}

-- The journal's blocks hold the records of the transaction.
pub Logged : Tx → List (List ℕ) → Type 0
Logged tx b =
    (i : ℕ)
    → i < tx.count
    → (block_at b (desc_lba i) ≡ desc_bytes (desc_for (record_at tx i)))
      × (block_at b (desc_lba i + 1) ≡ (record_at tx i).payload)

pub record_writes-Within :
    (n i : ℕ) (tx : Tx)
    → i + n ≤ max_records
    → Within (desc_lba i) first_home (record_writes n i tx)
unfolding record_writes
record_writes-Within zero i tx h = tt
record_writes-Within (suc n) i tx h =
    let rest = record_writes-Within n (i + 1) tx (omega arith) in
    (
      omega arith,
      omega arith,
      (
        omega arith,
        omega arith,
        Within-weaken (desc_lba (i + 1)) first_home (desc_lba i) first_home
            (record_writes n (i + 1) tx) (omega arith) (omega arith) rest,
      ),
    )

pub home_writes-Within :
    {total : ℕ} (n i : ℕ) (tx : Tx)
    → TxFits total tx
    → i + n ≤ tx.count
    → Within first_home total (home_writes n i tx)
unfolding home_writes
home_writes-Within zero i tx f h = tt
home_writes-Within (suc n) i tx f h =
    let t = f.homes i (omega arith) in (t.0, t.1, home_writes-Within n (i + 1) tx f (omega arith))

-- The run of the record writes leaves the records where the recovery looks for them.
logged :
    (n i : ℕ) (tx : Tx) (b : List (List ℕ))
    → i + n ≤ max_records
    → first_home ≤ length b
    → (j : ℕ) → i ≤ j
    → j < i + n
    → (block_at (apply (record_writes n i tx) b) (desc_lba j)
        ≡ desc_bytes (desc_for (record_at tx j)))
      × (block_at (apply (record_writes n i tx) b) (desc_lba j + 1) ≡ (record_at tx j).payload)
unfolding record_writes apply
logged zero i tx b h hb j h1 h2 = absurd (omega arith)
logged (suc n) i tx b h hb j h1 h2 =
    let r = record_at tx i in
    let b1 = set b (desc_lba i) (desc_bytes (desc_for r)) in
    let b2 = set b1 (desc_lba i + 1) r.payload in
    let l1 = length-set b (desc_lba i) (desc_bytes (desc_for r)) in
    let later = record_writes-Within n (i + 1) tx (omega arith) in
    elim (ℕ_discrete j i) [
      | yes e ↦
          let after = λ (k : ℕ) (below : k < desc_lba (i + 1)).
            apply-outside (desc_lba (i + 1)) first_home (record_writes n (i + 1) tx) b2 k later
              (inl below) in
          rw e (
            after (desc_lba i) (omega arith)
                ∙ get_or-set_ne b1 (desc_lba i + 1) (desc_lba i) r.payload zero_block
                    (λ z. absurd (omega (arith, z)))
                ∙ get_or-set_self b (desc_lba i) (desc_bytes (desc_for r)) zero_block
                    (omega (arith, h, hb)),
            after (desc_lba i + 1) (omega arith)
                ∙ get_or-set_self b1 (desc_lba i + 1) r.payload zero_block
                    (omega (arith, h, hb, l1)),
          )
      | no ne ↦
          logged n (i + 1) tx b2 (omega arith)
            (omega (arith, hb, l1, length-set b1 (desc_lba i + 1) r.payload)) j (omega (arith, ne))
            (omega arith)
    ]

pub record_writes-Logged :
    (tx : Tx) (b : List (List ℕ))
    → tx.count ≤ max_records
    → first_home ≤ length b
    → Logged tx (apply (record_writes tx.count 0 tx) b)
unfolding Logged
record_writes-Logged tx b few hb i lt =
    logged tx.count 0 tx b (omega (arith, few)) hb i (omega arith) (omega (arith, lt))

-- Writes beside the journal, or to its header, leave its records as they are.
pub Logged-agree :
    (tx : Tx) (b c : List (List ℕ))
    → tx.count ≤ max_records
    → ((k : ℕ) → journal_start < k → k < first_home → block_at c k ≡ block_at b k)
    → Logged tx b
    → Logged tx c
unfolding Logged
Logged-agree tx b c few same lg i lt = (
  same (desc_lba i) (omega arith) (omega (arith, few, lt)) ∙ (lg i lt).0,
  same (desc_lba i + 1) (omega arith) (omega (arith, few, lt)) ∙ (lg i lt).1,
)

module _ (total : ℕ) (ht : total ≤ max_blocks) (hj : first_home ≤ total) where
  read-ok :
      (b : List (List ℕ)) (w l : ℕ)
      → l < total
      → read_block l (free total b w) ≡ (free total b w, ok (block_at b l))
  unfolding read_block
  read-ok b w l h = rw (valid (free total b w) l [] h ht) refl

  replay-step :
      (tx : Tx) (n i : ℕ) (b : List (List ℕ)) (w : ℕ)
      → TxFits total tx
      → Logged tx b
      → i < tx.count
      → replay (suc n) i (free total b w)
        ≡ replay n
            (i + 1)
            (free total (set b (record_at tx i).target_lba (record_at tx i).payload) (add_u64 w 1))
  unfolding replay Logged
  replay-step tx n i b w f lg lt =
      let r = record_at tx i in
      let t = f.homes i lt in
      rw
        (
          read-ok b w (desc_lba i) (omega (arith, f.few, lt, hj)),
          (lg i lt).0,
          desc_of-desc_for r (omega (arith, t.1, ht)),
          valid (free total b w) r.target_lba [] t.1 ht,
          read-ok b w (desc_lba i + 1) (omega (arith, f.few, lt, hj)),
          (lg i lt).1,
          eq→== (checksum r.payload) (checksum r.payload) refl,
          write-free (free total b w) r.target_lba r.payload t.1 ht refl,
        )
        refl

  replay-none :
      (i : ℕ) (b : List (List ℕ)) (w : ℕ) → replay zero i (free total b w) ≡ (free total b w, ok tt)
  unfolding replay
  replay-none i b w = refl

  replay-homes :
      (tx : Tx) (n i : ℕ) (b : List (List ℕ)) (w : ℕ)
      → TxFits total tx
      → Logged tx b
      → i + n ≤ tx.count
      → (v : ℕ) × (replay n i (free total b w)
          ≡ (free total (apply (home_writes n i tx) b) v, ok tt))
  unfolding home_writes apply
  replay-homes tx zero i b w f lg h = (w, replay-none i b w)
  replay-homes tx (suc n) i b w f lg h =
      let r = record_at tx i in
      let rest =
        replay-homes tx n (i + 1) (set b r.target_lba r.payload) (add_u64 w 1) f
          (Logged-agree tx b (set b r.target_lba r.payload) f.few
            (λ k _ below.
              get_or-set_ne b r.target_lba k r.payload zero_block
                (λ e. absurd (omega (arith, e, below, (f.homes i (omega arith)).0))))
            lg)
          (omega arith) in
      (rest.0, replay-step tx n i b w f lg (omega arith) ∙ rest.1)

  -- The recovery does nothing if the header of the journal is that of an empty one.
  pub recover-empty :
      (b : List (List ℕ)) (w : ℕ)
      → is_empty (header_of (block_at b journal_start)) ≡ true
      → journal_recover (free total b w) ≡ (free total b w, ok tt)
  unfolding journal_recover recover_from
  recover-empty b w e = rw (read-ok b w journal_start (omega arith), e) refl

  recover_from-sealed :
      (tx : Tx) (seq : ℕ) (b : List (List ℕ)) (w : ℕ)
      → tx.count ≤ max_records
      → recover_from (sealed tx.count seq) (free total b w)
        ≡ (replay tx.count 0 >> journal_clear) (free total b w)
  unfolding recover_from
  recover_from-sealed tx seq b w few =
      rw
        (
          sealed-not_empty tx.count seq,
          sealed-committed tx.count seq few,
          sealed-checksum tx.count seq,
        )
        (ap (λ n. (replay n 0 >> journal_clear) (free total b w)) (sealed-count tx.count seq))

  recover-reads :
      (b : List (List ℕ)) (w : ℕ)
      → journal_recover (free total b w)
        ≡ recover_from (header_of (block_at b journal_start)) (free total b w)
  unfolding journal_recover
  recover-reads b w = rw (read-ok b w journal_start (omega arith)) refl

  clear-ok :
      (b : List (List ℕ)) (w : ℕ)
      → journal_clear (free total b w)
        ≡ (free total (set b journal_start zero_block) (add_u64 w 1), ok tt)
  unfolding journal_clear
  clear-ok b w = write-free (free total b w) journal_start zero_block (omega arith) ht refl

  -- The recovery of a sealed transaction writes its homes and clears the header.
  pub recover-sealed :
      (tx : Tx) (seq : ℕ) (b : List (List ℕ)) (w : ℕ)
      → TxFits total tx
      → seq < 2 ^ 32
      → Logged tx b
      → block_at b journal_start ≡ header_bytes (sealed tx.count seq)
      → (v : ℕ) × (journal_recover (free total b w) ≡ (
        free total (set (apply (home_writes tx.count 0 tx) b) journal_start zero_block) v,
        ok tt,
      ))
  recover-sealed tx seq b w f hs lg e =
      let rest = replay-homes tx tx.count 0 b w f lg (omega arith) in
      (
        add_u64 rest.0 1,
        recover-reads b w
            ∙ ap (λ x. recover_from (header_of x) (free total b w)) e
            ∙ ap (λ x. recover_from x (free total b w)) (header_of-sealed tx.count seq f.few hs)
            ∙ recover_from-sealed tx seq b w f.few
            ∙ ap (λ r. followed r (λ _. journal_clear)) rest.1
            ∙ clear-ok (apply (home_writes tx.count 0 tx) b) rest.0,
      )
