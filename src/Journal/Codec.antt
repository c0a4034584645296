-- ===== src/Journal/Codec.antt =====
-- A structure of the journal is read back from a block as it was written.
use mcsos.Common.{ℕ, ◌^◌, ◌≤◌, ◌<◌, ◌≡◌, refl, true, false, arith, ◌==◌}
use mcsos.Journal.Device.{zero_block}
use mcsos.Journal.Bytes.{get_le, get_le-le, checksum-lt}
use mcsos.Journal.Log.{
  JournalHeader, JournalDesc, JournalRecord, header_bytes, header_of, desc_bytes, desc_of, desc_for,
  unsealed, sealed, header_checksum, is_empty, is_committed, max_records,
}

-- The fields fit the widths that they have in the structure.
pub record HeaderFits (h : JournalHeader) : Type 0 where
  pub magic : h.magic < 2 ^ 64
  pub version : h.version < 2 ^ 32
  pub state : h.state < 2 ^ 32
  pub seq : h.seq < 2 ^ 32
  pub count : h.count < 2 ^ 32
  pub checksum : h.header_checksum < 2 ^ 32

pub header_of-header_bytes : (h : JournalHeader) → HeaderFits h → header_of (header_bytes h) ≡ h
unfolding header_of header_bytes
header_of-header_bytes h f =
    rw
      (
        get_le-le 8 h.magic _ f.magic,
        get_le-le 4 h.version _ f.version,
        get_le-le 4 h.state _ f.state,
        get_le-le 4 h.seq _ f.seq,
        get_le-le 4 h.count _ f.count,
        get_le-le 4 h.header_checksum h.reserved f.checksum,
      )
      refl

pub desc_of-desc_bytes :
    (d : JournalDesc)
    → d.magic < 2 ^ 64
    → d.target_lba < 2 ^ 32
    → d.payload_checksum < 2 ^ 32
    → desc_of (desc_bytes d) ≡ d
unfolding desc_of desc_bytes
desc_of-desc_bytes d h1 h2 h3 =
    rw
      (
        get_le-le 8 d.magic _ h1,
        get_le-le 4 d.target_lba _ h2,
        get_le-le 4 d.payload_checksum d.reserved h3,
      )
      refl

pub desc_of-desc_for :
    (r : JournalRecord) → r.target_lba < 2 ^ 32 → desc_of (desc_bytes (desc_for r)) ≡ desc_for r
desc_of-desc_for r h = desc_of-desc_bytes (desc_for r) (omega arith) h (checksum-lt r.payload)

sealed-HeaderFits :
    (count seq : ℕ) → count ≤ max_records → seq < 2 ^ 32 → HeaderFits (sealed count seq)
unfolding sealed header_checksum
sealed-HeaderFits count seq h1 h2 = record {
  magic = omega arith;
  version = omega arith;
  state = omega arith;
  seq = h2;
  count = omega (arith, h1);
  checksum = checksum-lt (header_bytes (unsealed count seq));
}

pub header_of-sealed :
    (count seq : ℕ)
    → count ≤ max_records
    → seq < 2 ^ 32
    → header_of (header_bytes (sealed count seq)) ≡ sealed count seq
header_of-sealed count seq h1 h2 =
    header_of-header_bytes (sealed count seq) (sealed-HeaderFits count seq h1 h2)

pub sealed-checksum :
    (count seq : ℕ)
    → (header_checksum (sealed count seq) == (sealed count seq).header_checksum) ≡ true
unfolding sealed header_checksum
sealed-checksum count seq = ground arith

pub sealed-committed :
    (count seq : ℕ) → count ≤ max_records → is_committed (sealed count seq) ≡ true
unfolding sealed
sealed-committed count seq h = ground arith

pub sealed-not_empty : (count seq : ℕ) → is_empty (sealed count seq) ≡ false
unfolding sealed
sealed-not_empty count seq = refl

pub zero_block-empty : is_empty (header_of zero_block) ≡ true
unfolding header_of get_le
zero_block-empty = refl

pub sealed-count : (count seq : ℕ) → (sealed count seq).count ≡ count
unfolding sealed
sealed-count count seq = refl
