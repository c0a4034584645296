-- ===== src/Journal/Log.antt =====
-- The journal of kernel/fs/mcsfs1j/m16_mcsfs_journal.c: its records, a transaction, the commit with
-- the writes to their homes, and the recovery. A structure is read from a block and written to one
-- as the bytes that it occupies.
use mcsos.Common.{
  ℕ, zero, suc, ◌+◌, ◌*◌, Bool, ◌&&◌, List, ◌++◌, leb, ◌==◌, if◌then◌else◌, get_or, set, replicate,
  u32,
}
use mcsos.Journal.Device.{
  einval, enospc, ecorrupt, Result, ok, err, Action, pure, ◌>>=◌, ◌>>◌, require, zero_block,
  valid_lba, read_block, write_block,
}
use mcsos.Journal.Bytes.{le, get_le, checksum}

abbrev pub jmagic : ℕ
jmagic = 0x4d43534a524e4c31

abbrev pub version : ℕ
version = 1

abbrev pub j_empty : ℕ
j_empty = 0

abbrev pub j_committed : ℕ
j_committed = 2

abbrev pub max_records : ℕ
max_records = 8

abbrev pub journal_start : ℕ
journal_start = 1

abbrev pub journal_blocks : ℕ
journal_blocks = 17

pub record JournalHeader : Type 0 where
  pub magic : ℕ
  pub version : ℕ
  pub state : ℕ
  pub seq : ℕ
  pub count : ℕ
  pub header_checksum : ℕ
  pub reserved : List ℕ

pub record JournalDesc : Type 0 where
  pub magic : ℕ
  pub target_lba : ℕ
  pub payload_checksum : ℕ
  pub reserved : List ℕ

pub record JournalRecord : Type 0 where
  pub target_lba : ℕ
  pub payload : List ℕ

-- `rec` is the array of eight records.
pub record Tx : Type 0 where
  pub count : ℕ
  pub rec : List JournalRecord

unfoldable pub header_bytes : JournalHeader → List ℕ
header_bytes h =
    le 8 h.magic
    ++ (le 4 h.version
        ++ (le 4 h.state
            ++ (le 4 h.seq ++ (le 4 h.count ++ (le 4 h.header_checksum ++ h.reserved)))))

unfoldable pub header_of : List ℕ → JournalHeader
header_of bs =
    let (magic, bs1) = get_le 8 bs in
    let (version, bs2) = get_le 4 bs1 in
    let (state, bs3) = get_le 4 bs2 in
    let (seq, bs4) = get_le 4 bs3 in
    let (count, bs5) = get_le 4 bs4 in
    let (header_checksum, bs6) = get_le 4 bs5 in
    record {
      magic = magic;
      version = version;
      state = state;
      seq = seq;
      count = count;
      header_checksum = header_checksum;
      reserved = bs6;
    }

unfoldable pub desc_bytes : JournalDesc → List ℕ
desc_bytes d = le 8 d.magic ++ (le 4 d.target_lba ++ (le 4 d.payload_checksum ++ d.reserved))

unfoldable pub desc_of : List ℕ → JournalDesc
desc_of bs =
    let (magic, bs1) = get_le 8 bs in
    let (target_lba, bs2) = get_le 4 bs1 in
    let (payload_checksum, bs3) = get_le 4 bs2 in
    record {
      magic = magic;
      target_lba = target_lba;
      payload_checksum = payload_checksum;
      reserved = bs3;
    }

abbrev pub no_record : JournalRecord
no_record = record { target_lba = 0; payload = zero_block }

-- A transaction after `m16_zero(&tx, sizeof(tx))`.
abbrev pub empty_tx : Tx
empty_tx = record { count = 0; rec = replicate max_records no_record }

abbrev pub record_at : Tx → ℕ → JournalRecord
record_at tx i = get_or tx.rec i no_record

unfoldable pub tx_add : Tx → ℕ → List ℕ → Tx × Result (Unit {0})
tx_add tx lba payload = if leb max_records tx.count then (tx, err enospc) else (
  record {
    count = u32 (tx.count + 1);
    rec = set tx.rec tx.count (record { target_lba = lba; payload = payload });
  },
  ok tt,
)

unfoldable pub header_checksum : JournalHeader → ℕ
header_checksum h = checksum (header_bytes (record h { header_checksum = 0 }))

unfoldable pub journal_clear : Action (Unit {0})
journal_clear = write_block journal_start zero_block

abbrev pub desc_lba : ℕ → ℕ
desc_lba i = journal_start + 1 + i * 2

abbrev pub desc_for : JournalRecord → JournalDesc
desc_for r = record {
  magic = jmagic;
  target_lba = r.target_lba;
  payload_checksum = checksum r.payload;
  reserved = replicate 496 0;
}

-- The first loop of `m16_journal_commit`, by the rounds left.
unfoldable pub write_records : ℕ → ℕ → Tx → Action (Unit {0})
write_records zero i tx = pure tt
write_records (suc n) i tx = do
  write_block (desc_lba i) (desc_bytes (desc_for (record_at tx i)))
  write_block (desc_lba i + 1) (record_at tx i).payload
  write_records n (i + 1) tx

-- The second loop: the writes to their homes.
unfoldable pub write_homes : ℕ → ℕ → Tx → Action (Unit {0})
write_homes zero i tx = pure tt
write_homes (suc n) i tx = do
  write_block (record_at tx i).target_lba (record_at tx i).payload
  write_homes n (i + 1) tx

abbrev pub unsealed : ℕ → ℕ → JournalHeader
unsealed count seq = record {
  magic = jmagic;
  version = version;
  state = j_committed;
  seq = seq;
  count = count;
  header_checksum = 0;
  reserved = replicate 484 0;
}

-- The header that makes the transaction durable.
unfoldable pub sealed : ℕ → ℕ → JournalHeader
sealed count seq = record (unsealed count seq) {
  header_checksum = header_checksum (unsealed count seq);
}

unfoldable pub journal_commit : Tx → ℕ → Bool → Action (Unit {0})
journal_commit tx seq stop_after_commit_record = do
  require (leb tx.count max_records) einval
  journal_clear
  write_records tx.count 0 tx
  write_block journal_start (header_bytes (sealed tx.count seq))
  if stop_after_commit_record then pure tt else (write_homes tx.count 0 tx >> journal_clear)

-- `if (!m16_valid_lba(dev, lba)) return M16_E_CORRUPT;`
abbrev pub require_lba : ℕ → Action (Unit {0})
require_lba lba dev = require (valid_lba dev lba) ecorrupt dev

-- The loop of `m16_journal_recover`, by the rounds left.
unfoldable pub replay : ℕ → ℕ → Action (Unit {0})
replay zero i = pure tt
replay (suc n) i = do
  desc ← read_block (desc_lba i)
  require ((desc_of desc).magic == jmagic) ecorrupt
  require_lba (desc_of desc).target_lba
  payload ← read_block (desc_lba i + 1)
  require (checksum payload == (desc_of desc).payload_checksum) ecorrupt
  write_block (desc_of desc).target_lba payload
  replay n (i + 1)

abbrev pub is_empty : JournalHeader → Bool
is_empty h = h.magic == 0 && h.state == j_empty

abbrev pub is_committed : JournalHeader → Bool
is_committed h =
    h.magic == jmagic && h.version == version && h.state == j_committed && leb h.count max_records

unfoldable pub recover_from : JournalHeader → Action (Unit {0})
recover_from h = if is_empty h then pure tt else do
  require (is_committed h) ecorrupt
  require (header_checksum h == h.header_checksum) ecorrupt
  replay h.count 0
  journal_clear

unfoldable pub journal_recover : Action (Unit {0})
journal_recover = do block ← read_block journal_start; recover_from (header_of block)
