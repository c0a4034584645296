-- ===== src/Journal/Crash.antt =====
-- A commit on a device that fails after any number of writes, and the recovery that follows.
use mcsos.Common.{
  ℕ, ◌+◌, ◌*◌, ◌^◌, ◌≤◌, ◌<◌, ◌≡◌, ◌≢◌, sym, ap, ◌∙◌, subst, true, false, [], ◌∷◌, none, some,
  arith, length, length-append, ◌⊎◌, inl, inr,
}
use mcsos.Journal.Device.{ok, BlockDev, block_at, max_blocks, zero_block}
use mcsos.Journal.Log.{
  Tx, header_bytes, header_of, sealed, is_empty, journal_start, journal_commit, journal_recover,
}
use mcsos.Journal.Writes.{Ran, run-Ran, Within, Within-append, Within-weaken}
use mcsos.Journal.Commit.{
  record_writes, home_writes, after_seal, commit_writes, journal_commit-run, length-record_writes,
}
use mcsos.Journal.Replay.{TxFits, free, first_home, record_writes-Within, home_writes-Within}
use mcsos.Journal.Stages.{SameHomes, applied, Recovers-at}

-- A device with all its blocks, whose journal is empty.
pub record Ready (d : BlockDev) : Type 0 where
  pub most : d.total_blocks ≤ max_blocks
  pub least : first_home ≤ d.total_blocks
  pub backed : d.total_blocks ≤ length d.blocks
  pub empty : is_empty (header_of (block_at d.blocks journal_start)) ≡ true

commit_writes-Within :
    (total : ℕ) (tx : Tx) (seq : ℕ)
    → first_home ≤ total
    → TxFits total tx
    → Within 0 total (commit_writes tx seq)
commit_writes-Within total tx seq h f =
    let head : journal_start < total = omega (arith, h) in
    let behind =
      Within-append 0 total (home_writes tx.count 0 tx) ((journal_start, zero_block) ∷ [])
        (Within-weaken first_home total 0 total (home_writes tx.count 0 tx) (omega arith)
          (omega arith) (home_writes-Within tx.count 0 tx f (omega arith)))
        (omega arith, head, tt) in
    (
      omega arith,
      head,
      Within-append 0 total (record_writes tx.count 0 tx)
          ((journal_start, header_bytes (sealed tx.count seq)) ∷ after_seal tx)
          (Within-weaken 2 first_home 0 total (record_writes tx.count 0 tx) (omega arith) h
            (record_writes-Within tx.count 0 tx (omega (arith, f.few))))
          (omega arith, head, behind),
    )

length-commit_writes : (tx : Tx) (seq : ℕ) → 2 * tx.count + 2 ≤ length (commit_writes tx seq)
length-commit_writes tx seq = omega (
  arith,
  length-record_writes tx.count 0 tx,
  length-append (record_writes tx.count 0 tx)
      ((journal_start, header_bytes (sealed tx.count seq)) ∷ after_seal tx),
)

-- The commit as the recovery finds it, once the device works again.
abbrev pub restarted : BlockDev → BlockDev
restarted d = record d { fail_after = none }

committed-Ran :
    (d : BlockDev) (tx : Tx) (seq n : ℕ)
    → Ready d
    → TxFits d.total_blocks tx
    → d.fail_after ≡ some n
    → Ran (commit_writes tx seq) n d (journal_commit tx seq false d)
committed-Ran d tx seq n ready f e =
    subst (Ran (commit_writes tx seq) n d) (sym (journal_commit-run tx seq d f.few)) (
      run-Ran (commit_writes tx seq) n d e ready.most
        (commit_writes-Within d.total_blocks tx seq ready.least f))

-- On a device with an empty journal that fails after any number n of further writes, let a
-- transaction be committed whose homes lie behind the journal. Once the device works again, the
-- recovery succeeds, and either the commit had failed and no block outside the journal has changed,
-- or all the blocks of the transaction are in their homes and no other block outside the journal has
-- changed. The second holds exactly when the writes up to the sealed header went through.
pub journal_recover-journal_commit :
    (d : BlockDev) (tx : Tx) (seq n : ℕ)
    → Ready d
    → TxFits d.total_blocks tx
    → seq < 2 ^ 32
    → d.fail_after ≡ some n
    → (after : BlockDev) × (journal_recover (restarted (journal_commit tx seq false d).0)
        ≡ (after, ok tt))
      × (((n < 2 * tx.count + 2)
            × ((journal_commit tx seq false d).1 ≢ ok tt)
            × SameHomes after.blocks d.blocks)
          ⊎ ((2 * tx.count + 2 ≤ n) × SameHomes after.blocks (applied tx d.blocks)))
journal_recover-journal_commit d tx seq n ready f hs e =
    let ran = committed-Ran d tx seq n ready f e in
    let state = (journal_commit tx seq false d).0 in
    let r =
      Recovers-at d.total_blocks ready.most ready.least tx f seq hs d.blocks ready.backed n
        state.writes ready.empty in
    (
      free d.total_blocks r.after r.writes,
      ap (λ t. journal_recover (free t state.blocks state.writes)) ran.total
          ∙ ap (λ b. journal_recover (free d.total_blocks b state.writes)) ran.blocks
          ∙ r.recovers,
      elim r.all_or_nothing [
        | inl h ↦ inl (
          h.0,
          λ z. absurd (omega (arith, ran.complete z, length-commit_writes tx seq, h.0)),
          h.1,
        )
        | inr h ↦ inr h
      ],
    )
