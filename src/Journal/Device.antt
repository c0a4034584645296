-- ===== src/Journal/Device.antt =====
-- The block device of kernel/fs/mcsfs1j/m16_mcsfs_journal.c with its injected faults, and actions on
-- it: an action ends with a value, or with the error code that the function returns.
use mcsos.Common.{
  ℕ, zero, suc, Bool, true, false, not, ◌&&◌, List, Option, none, some, ltb, if◌then◌else◌, get_or,
  set, replicate, add_u64,
}

pub data Error : Type 0 where
  einval eio enospc eexists enoent ecorrupt etoolong : Error

pub data Result {ℓ} (A : Type ℓ) : Type ℓ where
  ok : A → Result A
  err : Error → Result A

abbrev pub block_size : ℕ
block_size = 512

abbrev pub max_blocks : ℕ
max_blocks = 128

-- A block is its 512 bytes. `fail_after` is none for a negative number.
pub record BlockDev : Type 0 where
  pub blocks : List (List ℕ)
  pub total_blocks : ℕ
  pub writes : ℕ
  pub fail_after : Option ℕ

abbrev pub Action : Type 0 → Type 0
Action A = BlockDev → BlockDev × Result A

abbrev pub pure : {A : Type 0} → A → Action A
pure a dev = (dev, ok a)

abbrev pub fail : {A : Type 0} → Error → Action A
fail e dev = (dev, err e)

abbrev pub followed : {A B : Type 0} → BlockDev × Result A → (A → Action B) → BlockDev × Result B
followed (dev, ok a) f = f a dev
followed (dev, err e) f = (dev, err e)

infixl 5 ◌>>=◌ ◌>>◌
abbrev pub ◌>>=◌ : {A B : Type 0} → Action A → (A → Action B) → Action B
◌>>=◌ m f dev = followed (m dev) f

abbrev pub ◌>>◌ : {B : Type 0} → Action (Unit {0}) → Action B → Action B
m >> k = m >>= λ _. k

-- `if (!condition) return e;`
abbrev pub require : Bool → Error → Action (Unit {0})
require true e = pure tt
require false e = fail e

abbrev pub zero_block : List ℕ
zero_block = replicate block_size 0

abbrev pub block_at : List (List ℕ) → ℕ → List ℕ
block_at blocks lba = get_or blocks lba zero_block

unfoldable pub valid_lba : BlockDev → ℕ → Bool
valid_lba dev lba = ltb lba dev.total_blocks && ltb lba max_blocks

unfoldable pub read_block : ℕ → Action (List ℕ)
read_block lba dev =
    if valid_lba dev lba then (dev, ok (block_at dev.blocks lba)) else (dev, err einval)

-- The device after a write that goes through.
abbrev pub stored : BlockDev → ℕ → List ℕ → Option ℕ → BlockDev
stored dev lba data_in fail_after = record dev {
  blocks = set dev.blocks lba data_in;
  writes = add_u64 dev.writes 1;
  fail_after = fail_after;
}

unfoldable pub write_block : ℕ → List ℕ → Action (Unit {0})
write_block lba data_in dev =
    if not (valid_lba dev lba) then (dev, err einval) else elim dev.fail_after [
      | none ↦ (stored dev lba data_in none, ok tt)
      | some zero ↦ (dev, err eio)
      | some (suc n) ↦ (stored dev lba data_in (some n), ok tt)
    ]

unfoldable pub dev_init : Option BlockDev → Option BlockDev
dev_init none = none
dev_init (some dev) = some (record {
  blocks = replicate max_blocks zero_block;
  total_blocks = max_blocks;
  writes = 0;
  fail_after = none;
})
