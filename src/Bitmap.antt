-- ===== src/Bitmap.antt =====
-- The bitmaps of src/pmm.c: one bit for each frame, eight to a byte, lowest bit first.
-- The same three functions stand in fs/mcsfs1/mcsfs1.c and m16_mcsfs_journal.c.
pub mod Laws
pub mod Count
use Prim.Native.Nat.{bit_and, bit_or}
use mcsos.Common.{ℕ, ◌-◌, ◌/◌, ◌%◌, ◌^◌, Bool, List, ◌!=◌, get_or, set, u8}

-- A cell of a `uint8_t` array; read out of the array it is 0, which `InRange` rules out.
abbrev pub byte_at : List ℕ → ℕ → ℕ
byte_at bitmap i = u8 (get_or bitmap i 0)

-- `(uint8_t)(1U << k)`
abbrev pub bit_mask : ℕ → ℕ
bit_mask k = u8 (2 ^ k)

-- `index >> 3` is `index / 8`, `index & 7U` is `index % 8`, and `~m` on a byte is `255 - m`.
unfoldable pub bitmap_set : List ℕ → ℕ → List ℕ
bitmap_set bitmap index =
    set bitmap (index / 8) (u8 (bit_or (byte_at bitmap (index / 8)) (bit_mask (index % 8))))

unfoldable pub bitmap_clear : List ℕ → ℕ → List ℕ
bitmap_clear bitmap index =
    set bitmap (index / 8) (u8 (bit_and (byte_at bitmap (index / 8)) (255 - bit_mask (index % 8))))

unfoldable pub bitmap_test : List ℕ → ℕ → Bool
bitmap_test bitmap index = bit_and (byte_at bitmap (index / 8)) (bit_mask (index % 8)) != 0
