-- ===== src/Journal/Commit.antt =====
-- `m16_journal_commit` as one run of block writes.
use mcsos.Common.{
  ℕ, zero, suc, ◌+◌, ◌*◌, ◌≤◌, ◌≡◌, refl, sym, ap, ◌∙◌, true, false, [], ◌∷◌, ◌++◌, arith, leb,
  length,
}
use mcsos.Journal.Device.{
  Result, ok, err, BlockDev, Action, pure, followed, ◌>>◌, zero_block, write_block,
}
use mcsos.Journal.Log.{
  Tx, record_at, desc_lba, desc_for, desc_bytes, header_bytes, sealed, journal_start, journal_clear,
  write_records, write_homes, journal_commit, max_records,
}
use mcsos.Journal.Writes.{Writes, run}

-- The descriptor and the payload of each of n records from the i-th on.
unfoldable pub record_writes : ℕ → ℕ → Tx → Writes
record_writes zero i tx = []
record_writes (suc n) i tx =
    (desc_lba i, desc_bytes (desc_for (record_at tx i)))
    ∷ (desc_lba i + 1, (record_at tx i).payload)
    ∷ record_writes n (i + 1) tx

unfoldable pub home_writes : ℕ → ℕ → Tx → Writes
home_writes zero i tx = []
home_writes (suc n) i tx =
    ((record_at tx i).target_lba, (record_at tx i).payload) ∷ home_writes n (i + 1) tx

-- What follows the record that makes the transaction durable.
abbrev pub after_seal : Tx → Writes
after_seal tx = home_writes tx.count 0 tx ++ ((journal_start, zero_block) ∷ [])

abbrev pub commit_writes : Tx → ℕ → Writes
commit_writes tx seq =
    (journal_start, zero_block)
    ∷ (record_writes tx.count 0 tx
        ++ ((journal_start, header_bytes (sealed tx.count seq)) ∷ after_seal tx))

followed_assoc :
    {A B C : Type 0} (r : BlockDev × Result A) (f : A → Action B) (g : B → Action C)
    → followed (followed r f) g ≡ followed r (λ a d. followed (f a d) g)
followed_assoc (d, ok a) f g = refl
followed_assoc (d, err e) f g = refl

followed-same :
    {B : Type 0} (r : BlockDev × Result (Unit {0})) (f g : Action B)
    → ((d : BlockDev) → f d ≡ g d)
    → followed r (λ _. f) ≡ followed r (λ _. g)
followed-same (d, ok a) f g h = h d
followed-same (d, err e) f g h = refl

run-append : (ws vs : Writes) (d : BlockDev) → run (ws ++ vs) d ≡ (run ws >> run vs) d
unfolding run
run-append [] vs d = refl
run-append (w ∷ ws) vs d =
    followed-same (write_block w.0 w.1 d) (run (ws ++ vs)) (run ws >> run vs) (run-append ws vs)
    ∙ sym (followed_assoc (write_block w.0 w.1 d) (λ _. run ws) (λ _. run vs))

followed-pure : (r : BlockDev × Result (Unit {0})) → r ≡ followed r (λ _. pure tt)
followed-pure (d, ok u) = refl
followed-pure (d, err e) = refl

write_records-run :
    (n i : ℕ) (tx : Tx) (d : BlockDev) → write_records n i tx d ≡ run (record_writes n i tx) d
unfolding write_records record_writes run
write_records-run zero i tx d = refl
write_records-run (suc n) i tx d =
    let r = record_at tx i in
    let next = record_writes n (i + 1) tx in
    followed-same (write_block (desc_lba i) (desc_bytes (desc_for r)) d)
      (write_block (desc_lba i + 1) r.payload >> write_records n (i + 1) tx)
      (write_block (desc_lba i + 1) r.payload >> run next)
      (λ e.
        followed-same (write_block (desc_lba i + 1) r.payload e) (write_records n (i + 1) tx)
          (run next) (write_records-run n (i + 1) tx))

write_homes-run :
    (n i : ℕ) (tx : Tx) (d : BlockDev) → write_homes n i tx d ≡ run (home_writes n i tx) d
unfolding write_homes home_writes run
write_homes-run zero i tx d = refl
write_homes-run (suc n) i tx d =
    followed-same (write_block (record_at tx i).target_lba (record_at tx i).payload d)
      (write_homes n (i + 1) tx) (run (home_writes n (i + 1) tx)) (write_homes-run n (i + 1) tx)

homes_and_clear : Tx → Action (Unit {0})
homes_and_clear tx = write_homes tx.count 0 tx >> journal_clear

homes_and_clear-run : (tx : Tx) (d : BlockDev) → homes_and_clear tx d ≡ run (after_seal tx) d
unfolding homes_and_clear journal_clear run
homes_and_clear-run tx d =
    ap (λ r. followed r (λ _. journal_clear)) (write_homes-run tx.count 0 tx d)
    ∙ followed-same (run (home_writes tx.count 0 tx) d) journal_clear
        (run ((journal_start, zero_block) ∷ []))
        (λ e. followed-pure (write_block journal_start zero_block e))
    ∙ sym (run-append (home_writes tx.count 0 tx) ((journal_start, zero_block) ∷ []) d)

sealing : Tx → ℕ → Action (Unit {0})
sealing tx seq =
    write_block journal_start (header_bytes (sealed tx.count seq)) >> homes_and_clear tx

sealing-run :
    (tx : Tx) (seq : ℕ) (d : BlockDev)
    → sealing tx seq d ≡ run ((journal_start, header_bytes (sealed tx.count seq)) ∷ after_seal tx) d
unfolding sealing run
sealing-run tx seq d =
    followed-same (write_block journal_start (header_bytes (sealed tx.count seq)) d)
      (homes_and_clear tx) (run (after_seal tx)) (homes_and_clear-run tx)

records_and_seal-run :
    (tx : Tx) (seq : ℕ) (d : BlockDev)
    → (write_records tx.count 0 tx >> sealing tx seq) d
      ≡ run
          (record_writes tx.count 0 tx
            ++ ((journal_start, header_bytes (sealed tx.count seq)) ∷ after_seal tx))
          d
records_and_seal-run tx seq d =
    let rest = (journal_start, header_bytes (sealed tx.count seq)) ∷ after_seal tx in
    ap (λ r. followed r (λ _. sealing tx seq)) (write_records-run tx.count 0 tx d)
    ∙ followed-same (run (record_writes tx.count 0 tx) d) (sealing tx seq) (run rest)
        (sealing-run tx seq)
    ∙ sym (run-append (record_writes tx.count 0 tx) rest d)

-- A commit of a transaction that fits the journal is the run of its writes, in this order: the
-- cleared header, the records, the sealed header, the homes, and the cleared header again.
pub journal_commit-run :
    (tx : Tx) (seq : ℕ) (d : BlockDev)
    → tx.count ≤ max_records
    → journal_commit tx seq false d ≡ run (commit_writes tx seq) d
unfolding journal_commit sealing homes_and_clear journal_clear run
journal_commit-run tx seq d h =
    let e : leb tx.count max_records ≡ true = ground arith in
    rw e (
      followed-same (write_block journal_start zero_block d)
        (write_records tx.count 0 tx >> sealing tx seq)
        (run (
          record_writes tx.count 0 tx
          ++ ((journal_start, header_bytes (sealed tx.count seq)) ∷ after_seal tx)))
        (records_and_seal-run tx seq))

pub length-record_writes : (n i : ℕ) (tx : Tx) → length (record_writes n i tx) ≡ 2 * n
unfolding record_writes
length-record_writes zero i tx = refl
length-record_writes (suc n) i tx = omega (arith, length-record_writes n (i + 1) tx)
