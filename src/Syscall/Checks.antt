-- ===== src/Syscall/Checks.antt =====
-- What `mcsos_user_check_range` accepts, and what `mcsos_copy_from_user` copies.
use mcsos.Common.{
  ℕ, zero, suc, ◌+◌, ◌^◌, ◌≤◌, ◌<◌, ◌≡◌, ◌≢◌, refl, ◌∙◌, ◌↔◌, true, false, List, some, arith,
  get_or, set, ℕ_discrete, length, length-set, get_or-set_self, get_or-set_ne, ◌⊎◌, inl, inr,
  Bool-cases,
}
use mcsos.Syscall.{UserRegion, user_check_range, copy_bytes, copy_from_user, ok, einval, efault}

-- For 64-bit values, a range that is not empty is accepted exactly when the region is set and
-- contains the range as a range of integers, so that its end does not wrap around.
pub user_check_range-contains :
    (region : UserRegion) (addr len : ℕ)
    → region.limit < 2 ^ 64
    → addr < 2 ^ 64
    → len < 2 ^ 64
    → 0 < len
    → (user_check_range region addr len ≡ true)
      ↔ ((region.base ≢ 0) × (region.base ≤ addr) × (addr + len ≤ region.limit))
unfolding user_check_range
user_check_range-contains region addr len h1 h2 h3 h4 =
    (λ h. (λ z. ground (arith, z), ground arith, ground arith), λ h. ground (arith, h.0, h.1, h.2))

copy_bytes-length :
    (memory : ℕ → ℕ) (src n i : ℕ) (dst : List ℕ)
    → length (copy_bytes memory src n i dst) ≡ length dst
unfolding copy_bytes
copy_bytes-length memory src zero i dst = refl
copy_bytes-length memory src (suc n) i dst =
    copy_bytes-length memory src n (i + 1) (set dst i (memory (src + i)))
    ∙ length-set dst i (memory (src + i))

copy_bytes-before :
    (memory : ℕ → ℕ) (src n i : ℕ) (dst : List ℕ) (j : ℕ)
    → j < i
    → get_or (copy_bytes memory src n i dst) j 0 ≡ get_or dst j 0
unfolding copy_bytes
copy_bytes-before memory src zero i dst j h = refl
copy_bytes-before memory src (suc n) i dst j h =
    copy_bytes-before memory src n (i + 1) (set dst i (memory (src + i))) j (omega arith)
    ∙ get_or-set_ne dst i j (memory (src + i)) 0 (λ e. absurd (omega (arith, e)))

copy_bytes-after :
    (memory : ℕ → ℕ) (src n i : ℕ) (dst : List ℕ) (j : ℕ)
    → i + n ≤ j
    → get_or (copy_bytes memory src n i dst) j 0 ≡ get_or dst j 0
unfolding copy_bytes
copy_bytes-after memory src zero i dst j h = refl
copy_bytes-after memory src (suc n) i dst j h =
    copy_bytes-after memory src n (i + 1) (set dst i (memory (src + i))) j (omega arith)
    ∙ get_or-set_ne dst i j (memory (src + i)) 0 (λ e. absurd (omega (arith, e)))

copy_bytes-copied :
    (memory : ℕ → ℕ) (src n i : ℕ) (dst : List ℕ) (j : ℕ)
    → i ≤ j
    → j < i + n
    → i + n ≤ length dst
    → get_or (copy_bytes memory src n i dst) j 0 ≡ memory (src + j)
unfolding copy_bytes
copy_bytes-copied memory src zero i dst j h1 h2 h3 = absurd (omega arith)
copy_bytes-copied memory src (suc n) i dst j h1 h2 h3 =
    let next = set dst i (memory (src + i)) in
    elim (ℕ_discrete j i) [
      | yes e ↦ rw e (
          copy_bytes-before memory src n (i + 1) next i (omega arith)
          ∙ get_or-set_self dst i (memory (src + i)) 0 (omega arith))
      | no ne ↦
          copy_bytes-copied memory src n (i + 1) next j (omega (arith, ne)) (omega arith)
            (omega (arith, length-set dst i (memory (src + i))))
    ]

-- The copy that user memory promises: either the status is success, and exactly the first bytes
-- of the destination are those of the source, or it is not, and the destination is untouched.
pub record Copied (memory : ℕ → ℕ) (src len : ℕ) (before after : List ℕ) : Type 0 where
  pub same_length : length after ≡ length before
  pub copied : (j : ℕ) → j < len → get_or after j 0 ≡ memory (src + j)
  pub kept : (j : ℕ) → len ≤ j → get_or after j 0 ≡ get_or before j 0

-- `mcsos_copy_from_user` into a buffer that is large enough copies exactly the bytes asked for
-- and reports success when the source range is accepted and not at address 0; otherwise, for a
-- length that is not 0, it reports an error and the buffer is unchanged.
pub copy_from_user-Copied :
    (region : UserRegion) (memory : ℕ → ℕ) (dst : List ℕ) (src len : ℕ)
    → 0 < len
    → len ≤ length dst
    → ((after : List ℕ) × (copy_from_user region memory (some dst) src len ≡ (some after, ok))
        × (user_check_range region src len ≡ true)
        × Copied memory src len dst after)
      ⊎ ((status : ℕ) × (copy_from_user region memory (some dst) src len ≡ (some dst, status))
          × (status ≢ ok)
          × ((src ≡ 0) ⊎ (user_check_range region src len ≡ false)))
unfolding copy_from_user
copy_from_user-Copied region memory dst src len h0 h = elim (ℕ_discrete src 0) [
  | yes e ↦ inr (einval, ground (arith, e), (λ z. absurd (omega (arith, z))), inl e)
  | no ne ↦ elim (Bool-cases (user_check_range region src len)) [
    | inl e ↦ inl (
      copy_bytes memory src len 0 dst,
      ground (arith, e, ne),
      e,
      record {
        same_length = copy_bytes-length memory src len 0 dst;
        copied = λ j lt.
            copy_bytes-copied memory src len 0 dst j (omega arith) (omega arith) (omega arith);
        kept = λ j le. copy_bytes-after memory src len 0 dst j (omega arith);
      },
    )
    | inr e ↦ inr (efault, ground (arith, e, ne), (λ z. absurd (omega (arith, z))), inr e)
  ]
]
