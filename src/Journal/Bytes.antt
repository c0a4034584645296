-- ===== src/Journal/Bytes.antt =====
-- Integers in the structures of kernel/fs/mcsfs1j/m16_mcsfs_journal.c, as the bytes that a
-- little-endian machine stores, and the checksum of a block.
use Prim.Native.Nat.{bit_xor}
use mcsos.Common.{
  ℕ, zero, suc, ◌+◌, ◌*◌, ◌/◌, ◌%◌, ◌^◌, ◌<◌, ◌≡◌, refl, ap, List, [], ◌∷◌, ◌++◌, arith, u32,
  length,
}

unfoldable pub le : ℕ → ℕ → List ℕ
le zero v = []
le (suc n) v = v % 256 ∷ le n (v / 256)

-- The integer of n bytes at the front, and the bytes behind it.
unfoldable pub get_le : ℕ → List ℕ → ℕ × List ℕ
get_le zero bs = (0, bs)
get_le (suc n) [] = (0, [])
get_le (suc n) (b ∷ bs) = let (v, rest) = get_le n bs in (b + 256 * v, rest)

pub get_le-le : (n v : ℕ) (rest : List ℕ) → v < 256 ^ n → get_le n (le n v ++ rest) ≡ (v, rest)
unfolding le get_le
get_le-le zero v rest h = ap (λ (x : ℕ). (x, rest)) (omega arith)
get_le-le (suc n) v rest h =
    rw (get_le-le n (v / 256) rest (omega arith)) (ap (λ (x : ℕ). (x, rest)) (omega arith))

pub length-le : (n v : ℕ) → length (le n v) ≡ n
unfolding le
length-le zero v = refl
length-le (suc n) v = omega (arith, length-le n (v / 256))

-- `h ^= p[i]; h *= 16777619u;`
unfoldable pub checksum_from : ℕ → List ℕ → ℕ
checksum_from h [] = h
checksum_from h (b ∷ bs) = checksum_from (u32 (bit_xor h b * 16777619)) bs

unfoldable pub checksum : List ℕ → ℕ
checksum bs = checksum_from 2166136261 bs

checksum_from-lt : (h : ℕ) (bs : List ℕ) → h < 2 ^ 32 → checksum_from h bs < 2 ^ 32
unfolding checksum_from
checksum_from-lt h [] lt = lt
checksum_from-lt h (b ∷ bs) lt = checksum_from-lt (u32 (bit_xor h b * 16777619)) bs (omega arith)

pub checksum-lt : (bs : List ℕ) → checksum bs < 2 ^ 32
unfolding checksum
checksum-lt bs = checksum_from-lt 2166136261 bs (omega arith)
