-- ===== src/Journal/Stages.antt =====
-- What the recovery makes of a commit that stopped after its first n writes, stage by stage.
use mcsos.Common.{
  ℕ, zero, suc, ◌+◌, ◌-◌, ◌*◌, ◌^◌, ◌≤◌, ◌<◌, ◌≡◌, ◌≢◌, refl, sym, ap, ◌∙◌, subst, true, List, [],
  ◌∷◌, ◌++◌, arith, set, length, length-set, get_or-set_self, get_or-set_ne, ◌⊎◌, inl, inr, dec_le,
}
use mcsos.Journal.Device.{ok, zero_block, block_at, max_blocks}
use mcsos.Journal.Codec.{zero_block-empty}
use mcsos.Journal.Log.{
  Tx, header_of, header_bytes, sealed, is_empty, journal_start, journal_recover,
}
use mcsos.Journal.Writes.{
  Writes, apply, take, Within, Within-weaken, Within-take, apply-append, length-apply,
  apply-outside, apply-again, apply-agree, take-left, take-right, take-nil,
}
use mcsos.Journal.Commit.{
  record_writes, home_writes, after_seal, commit_writes, length-record_writes,
}
use mcsos.Journal.Replay.{
  TxFits, free, first_home, record_writes-Within, home_writes-Within, Logged, record_writes-Logged,
  Logged-agree, recover-empty, recover-sealed,
}

-- A block outside the journal.
abbrev pub IsHome : ℕ → Type 0
IsHome j = (j < journal_start) ⊎ (first_home ≤ j)

-- Two lists of blocks with the same contents outside the journal.
abbrev pub SameHomes : List (List ℕ) → List (List ℕ) → Type 0
SameHomes b c = (j : ℕ) → IsHome j → block_at b j ≡ block_at c j

-- The blocks once a transaction has reached its homes.
abbrev pub applied : Tx → List (List ℕ) → List (List ℕ)
applied tx b = apply (home_writes tx.count 0 tx) b

-- The recovery of the blocks b succeeds, with all of the transaction in its homes, or nothing.
pub record Recovers (total : ℕ) (tx : Tx) (old : List (List ℕ)) (n : ℕ) (b : List (List ℕ)) (w : ℕ)
    : Type 0 where
  pub after : List (List ℕ)
  pub writes : ℕ
  pub recovers : journal_recover (free total b w) ≡ (free total after writes, ok tt)
  pub all_or_nothing :
      ((n < 2 * tx.count + 2) × SameHomes after old)
      ⊎ ((2 * tx.count + 2 ≤ n) × SameHomes after (applied tx old))

home-ne : (j : ℕ) → IsHome j → journal_start ≢ j
home-ne j (inl h) e = absurd (omega (arith, h, e))
home-ne j (inr h) e = absurd (omega (arith, h, e))

home-outside : (j : ℕ) → IsHome j → (j < 2) ⊎ (first_home ≤ j)
home-outside j (inl h) = inl (omega (arith, h))
home-outside j (inr h) = inr h

module _ (total : ℕ) (ht : total ≤ max_blocks) (hj : first_home ≤ total) (tx : Tx)
    (fits : TxFits total tx) (seq : ℕ) (hs : seq < 2 ^ 32) (old : List (List ℕ))
    (backed : total ≤ length old) where
  records : Writes
  records = record_writes tx.count 0 tx

  homes : Writes
  homes = home_writes tx.count 0 tx

  -- The blocks with the header cleared.
  cleared : List (List ℕ)
  cleared = set old journal_start zero_block

  -- The blocks with the transaction sealed.
  durable : List (List ℕ)
  durable = set (apply records cleared) journal_start (header_bytes (sealed tx.count seq))

  records-Within : Within 2 first_home records
  unfolding records
  records-Within = record_writes-Within tx.count 0 tx (omega (arith, fits.few))

  homes-Within : Within first_home total homes
  unfolding homes
  homes-Within = home_writes-Within tx.count 0 tx fits (omega arith)

  length-cleared : length cleared ≡ length old
  unfolding cleared
  length-cleared = length-set old journal_start zero_block

  length-durable : length durable ≡ length old
  unfolding durable
  length-durable =
      length-set (apply records cleared) journal_start _
      ∙ length-apply records cleared
      ∙ length-cleared

  homes-length : (b : List (List ℕ)) → length b ≡ length old → Within 0 (length b) homes
  homes-length b e =
      Within-weaken first_home total 0 (length b) homes (omega arith) (omega (arith, e, backed))
        homes-Within

  cleared-home : SameHomes cleared old
  unfolding cleared
  cleared-home j h = get_or-set_ne old journal_start j zero_block zero_block (home-ne j h)

  -- Before the seal: some of the records are written, and the header is cleared.
  Recovers-early :
      (n k w : ℕ)
      → n < 2 * tx.count + 2
      → Recovers total tx old n (apply (take k records) cleared) w
  unfolding cleared
  Recovers-early n k w hn =
      let part = Within-take 2 first_home k records records-Within in
      record {
        after = apply (take k records) cleared;
        writes = w;
        recovers = recover-empty total ht hj (apply (take k records) cleared) w (
            ap (λ x. is_empty (header_of x))
              (apply-outside 2 first_home (take k records) cleared journal_start part
                  (inl (omega arith))
                ∙ get_or-set_self old journal_start zero_block zero_block
                    (omega (arith, backed, hj)))
            ∙ zero_block-empty);
        all_or_nothing = inl (
          hn,
          λ j h.
              apply-outside 2 first_home (take k records) cleared j part (home-outside j h)
              ∙ cleared-home j h,
        );
      }

  durable-home : SameHomes durable old
  unfolding durable
  durable-home j h =
      get_or-set_ne (apply records cleared) journal_start j _ zero_block (home-ne j h)
      ∙ apply-outside 2 first_home records cleared j records-Within (home-outside j h)
      ∙ cleared-home j h

  applied-durable : SameHomes (apply homes durable) (applied tx old)
  unfolding homes
  applied-durable j h =
      apply-agree homes durable old j (homes-length durable length-durable) (homes-length old refl)
        (durable-home j h)

  -- Once some homes are written, the journal still holds the sealed transaction.
  part_of_homes-Logged : (k : ℕ) → Logged tx (apply (take k homes) durable)
  unfolding durable records
  part_of_homes-Logged k =
      Logged-agree tx (apply records cleared) (apply (take k homes) durable) fits.few
        (λ j after below.
          apply-outside first_home total (take k homes) durable j
            (Within-take first_home total k homes homes-Within) (inl below)
          ∙ get_or-set_ne (apply records cleared) journal_start j _ zero_block
              (λ e. absurd (omega (arith, e, after))))
        (record_writes-Logged tx cleared fits.few (omega (arith, hj, backed, length-cleared)))

  part_of_homes-sealed :
      (k : ℕ)
      → block_at (apply (take k homes) durable) journal_start ≡ header_bytes (sealed tx.count seq)
  unfolding durable
  part_of_homes-sealed k =
      apply-outside first_home total (take k homes) durable journal_start
        (Within-take first_home total k homes homes-Within) (inl (omega arith))
      ∙ get_or-set_self (apply records cleared) journal_start _ zero_block
          (omega (arith, hj, backed, length-apply records cleared, length-cleared))

  -- After the seal: some of the homes are written.
  Recovers-late :
      (n k w : ℕ) → 2 * tx.count + 2 ≤ n → Recovers total tx old n (apply (take k homes) durable) w
  unfolding homes
  Recovers-late n k w hn =
      let r =
        recover-sealed total ht hj tx seq (apply (take k homes) durable) w fits hs
          (part_of_homes-Logged k) (part_of_homes-sealed k) in
      record {
        after = set (apply homes (apply (take k homes) durable)) journal_start zero_block;
        writes = r.0;
        recovers = r.1;
        all_or_nothing = inr (
          hn,
          λ j h.
              get_or-set_ne (apply homes (apply (take k homes) durable)) journal_start j zero_block
                zero_block (home-ne j h)
              ∙ apply-again k homes durable j (homes-length durable length-durable)
              ∙ applied-durable j h,
        );
      }

  -- At the end: all the homes are written, and the header is cleared again.
  Recovers-done :
      (n w : ℕ)
      → 2 * tx.count + 2 ≤ n
      → Recovers total tx old n (set (apply homes durable) journal_start zero_block) w
  Recovers-done n w hn =
      let b = set (apply homes durable) journal_start zero_block in
      record {
        after = b;
        writes = w;
        recovers = recover-empty total ht hj b w (
            ap (λ x. is_empty (header_of x))
              (get_or-set_self (apply homes durable) journal_start zero_block zero_block
                (omega (arith, hj, backed, length-apply homes durable, length-durable)))
            ∙ zero_block-empty);
        all_or_nothing = inr (
          hn,
          λ j h.
              get_or-set_ne (apply homes durable) journal_start j zero_block zero_block
                (home-ne j h)
              ∙ applied-durable j h,
        );
      }

  -- The header was not even cleared.
  Recovers-first :
      (w : ℕ)
      → is_empty (header_of (block_at old journal_start)) ≡ true
      → Recovers total tx old 0 old w
  Recovers-first w e = record {
    after = old;
    writes = w;
    recovers = recover-empty total ht hj old w e;
    all_or_nothing = inl (omega arith, λ j h. refl);
  }

  moved :
      (n w : ℕ) {b c : List (List ℕ)}
      → b ≡ c
      → Recovers total tx old n c w
      → Recovers total tx old n b w
  moved n w e r = subst (λ x. Recovers total tx old n x w) (sym e) r

  apply-none : (b : List (List ℕ)) → apply (take 0 (commit_writes tx seq)) b ≡ b
  unfolding apply
  apply-none b = refl

  before-seal :
      (m : ℕ)
      → m ≤ 2 * tx.count
      → apply (take (suc m) (commit_writes tx seq)) old ≡ apply (take m records) cleared
  unfolding records cleared apply
  before-seal m h =
      ap (λ ws. apply ws cleared)
        (take-left m records ((journal_start, header_bytes (sealed tx.count seq)) ∷ after_seal tx)
          (omega (arith, h, length-record_writes tx.count 0 tx)))

  last-take :
      (k : ℕ) → take (suc k) ((journal_start, zero_block) ∷ []) ≡ (journal_start, zero_block) ∷ []
  last-take k = ap (λ ws. (journal_start, zero_block) ∷ ws) (take-nil k)

  behind-homes :
      (k : ℕ)
      → length homes < k
      → apply (take k (after_seal tx)) durable ≡ set (apply homes durable) journal_start zero_block
  unfolding homes apply
  behind-homes k h =
      let left = k - length homes - 1 in
      ap (λ ws. apply ws durable)
        (take-right (suc left) k homes ((journal_start, zero_block) ∷ []) (omega (arith, h))
          ∙ ap (λ ws. homes ++ ws) (last-take left))
      ∙ apply-append homes ((journal_start, zero_block) ∷ []) durable

  among-homes :
      (k : ℕ)
      → k ≤ length homes
      → apply (take k (after_seal tx)) durable ≡ apply (take k homes) durable
  unfolding homes
  among-homes k h =
      ap (λ ws. apply ws durable) (take-left k homes ((journal_start, zero_block) ∷ []) h)

  Recovers-behind :
      (n k w : ℕ)
      → 2 * tx.count + 2 ≤ n
      → Recovers total tx old n (apply (take k (after_seal tx)) durable) w
  Recovers-behind n k w hn = elim (dec_le k (length homes)) [
    | yes h ↦ moved n w (among-homes k h) (Recovers-late n k w hn)
    | no h ↦ moved n w (behind-homes k (omega (arith, h))) (Recovers-done n w hn)
  ]

  -- The writes up to the seal, and those behind it.
  split-records :
      (k n : ℕ)
      → n ≡ suc (2 * tx.count + suc k)
      → apply (take n (commit_writes tx seq)) old ≡ apply (take k (after_seal tx)) durable
  unfolding durable records cleared apply
  split-records k zero e = absurd (omega (arith, e))
  split-records k (suc m) e =
      let rest = (journal_start, header_bytes (sealed tx.count seq)) ∷ after_seal tx in
      ap (λ ws. apply ws cleared)
        (take-right (suc k) m records rest (omega (arith, e, length-record_writes tx.count 0 tx)))
      ∙ apply-append records (take (suc k) rest) cleared

  pub Recovers-at :
      (n w : ℕ)
      → is_empty (header_of (block_at old journal_start)) ≡ true
      → Recovers total tx old n (apply (take n (commit_writes tx seq)) old) w
  Recovers-at zero w e = moved 0 w (apply-none old) (Recovers-first w e)
  Recovers-at (suc m) w e = elim (dec_le m (2 * tx.count)) [
    | yes early ↦ moved (suc m) w (before-seal m early) (Recovers-early (suc m) m w (omega arith))
    | no late ↦
        let k = m - 2 * tx.count - 1 in
        moved (suc m) w (split-records k (suc m) (omega (arith, late)))
          (Recovers-behind (suc m) k w (omega (arith, late)))
  ]
