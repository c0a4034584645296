-- ===== src/Elf/Align.antt =====
-- The tests of kernel/user/m11_elf_loader.c for a power of two, by the binary digits, and for the
-- alignment of a segment.
use Prim.Native.Nat.{min, digits, bit_and-bitwise}
use mcsos.Common.{
  ℕ, zero, suc, ◌-◌, ◌*◌, ◌/◌, ◌%◌, ◌^◌, ◌≤◌, ◌<◌, ◌≡◌, ◌↔◌, refl, true, false, inl, inr, arith,
  ◌⊎◌, dec_lt,
}
use mcsos.Elf.Image.{Phdr}
use mcsos.Elf.Plan.{is_power_of_two, bad_align}

abbrev pub PowerOfTwo : ℕ → Type 0
PowerOfTwo v = (k : ℕ) × (v ≡ 2 ^ k)

abbrev common_digits : ℕ → ℕ → ℕ → ℕ
common_digits n a b = digits (λ c. zero) min n a b

common_digits-same : (n a : ℕ) → a ≤ n → common_digits n a a ≡ a
common_digits-same zero zero h = refl
common_digits-same zero (suc a) h = absurd (omega arith)
common_digits-same (suc n) zero h = refl
common_digits-same (suc n) (suc a) h = omega (arith, common_digits-same n (suc a / 2) (omega arith))

doubled : (k v : ℕ) → v % 2 ≡ 0 → v / 2 ≡ 2 ^ k → v ≡ 2 ^ suc k
doubled k v h e = omega (arith, h, e)

halved : (k v : ℕ) → v ≡ 2 ^ suc k → (v / 2 ≡ 2 ^ k) × (v % 2 ≡ 0)
halved k v e = (omega (arith, e), omega (arith, e))

even-step :
    (n a : ℕ)
    → suc a % 2 ≡ 0
    → common_digits (suc n) (suc a) (suc a - 1) ≡ common_digits n (suc a / 2) (suc a / 2 - 1) * 2
even-step n a even =
    let half : (suc a - 1) / 2 ≡ suc a / 2 - 1 = omega (arith, even) in
    rw (half, even) (omega arith)

odd-step :
    (n a : ℕ) → a ≤ n → suc a % 2 ≡ 1 → common_digits (suc n) (suc a) (suc a - 1) ≡ suc a / 2 * 2
odd-step n a le odd =
    let half : (suc a - 1) / 2 ≡ suc a / 2 = omega (arith, odd) in
    rw half (omega (arith, odd, common_digits-same n (suc a / 2) (omega arith)))

odd_power : (k v : ℕ) → v ≡ 2 ^ k → v % 2 ≡ 1 → v ≡ 1
odd_power zero v e odd = e
odd_power (suc k) v e odd = omega (arith, e, odd)

even_power : (k v : ℕ) → v ≡ 2 ^ k → v % 2 ≡ 0 → PowerOfTwo (v / 2)
even_power zero v e even = absurd (omega (arith, e, even))
even_power (suc k) v e even = (k, (halved k v e).0)

-- A number has no binary digit in common with its predecessor exactly when it is a power of two.
common_digits-PowerOfTwo :
    (n v : ℕ) → 0 < v → v ≤ n → (common_digits n v (v - 1) ≡ 0) ↔ PowerOfTwo v
common_digits-PowerOfTwo n zero pos le = absurd (omega arith)
common_digits-PowerOfTwo zero (suc a) pos le = absurd (omega arith)
common_digits-PowerOfTwo (suc n) (suc a) pos le = elim (dec_lt 0 (suc a % 2)) [
  | yes odd ↦
      let s = odd-step n a (omega arith) (omega (arith, odd)) in
      (
        λ h. (0, omega (arith, s, h, odd)),
        λ p. omega (arith, s, odd_power p.0 (suc a) p.1 (omega (arith, odd))),
      )
  | no odd ↦
      let even : suc a % 2 ≡ 0 = omega (arith, odd) in
      let s = even-step n a even in
      let half = common_digits-PowerOfTwo n (suc a / 2) (omega (arith, even)) (omega arith) in
      (
        λ h. let (k, e) = half.0 (omega (arith, s, h)) in (suc k, doubled k (suc a) even e),
        λ p. omega (arith, s, half.1 (even_power p.0 (suc a) p.1 even)),
      )
]

power_positive : (k : ℕ) → 0 < 2 ^ k
power_positive zero = omega arith
power_positive (suc k) = omega (arith, power_positive k)

-- The test accepts exactly the powers of two.
pub is_power_of_two-PowerOfTwo : (v : ℕ) → (is_power_of_two v ≡ true) ↔ PowerOfTwo v
unfolding is_power_of_two
is_power_of_two-PowerOfTwo v =
    let b = bit_and-bitwise v (v - 1) in
    (
      λ h. (common_digits-PowerOfTwo v v (ground arith) (omega arith)).0 (ground (arith, b)),
      λ p.
          let pos : 0 < v = omega (arith, p.1, power_positive p.0) in
          let none_common : common_digits v v (v - 1) ≡ 0 =
            (common_digits-PowerOfTwo v v pos (omega arith)).1 p in
          ground (arith, b, none_common, pos),
    )

-- No alignment is asked for, or one that is a power of two and that the address and the offset in
-- the image share.
abbrev pub IsAligned : Phdr → Type 0
IsAligned ph =
    (ph.p_align ≡ 0)
    ⊎ (PowerOfTwo ph.p_align × (ph.p_vaddr % ph.p_align ≡ ph.p_offset % ph.p_align))

shared_by_one : (a b c : ℕ) → a ≡ 1 → b % a ≡ c % a
shared_by_one a b c e = rw e (omega arith)

-- The test for a bad alignment accepts exactly the aligned headers.
pub bad_align-IsAligned : (ph : Phdr) → (bad_align ph ≡ false) ↔ IsAligned ph
unfolding bad_align
bad_align-IsAligned ph = (accepted, refused)
  where
    power : (is_power_of_two ph.p_align ≡ true) ↔ PowerOfTwo ph.p_align
    power = is_power_of_two-PowerOfTwo ph.p_align

    accepted : bad_align ph ≡ false → IsAligned ph
    accepted h = elim (dec_lt ph.p_align 2) [
      | yes small ↦ elim (dec_lt 0 ph.p_align) [
        | yes one ↦
            let e : ph.p_align ≡ 1 = omega (arith, small, one) in
            inr ((0, e), shared_by_one ph.p_align ph.p_vaddr ph.p_offset e)
        | no none ↦ inl (omega (arith, none))
      ]
      | no large ↦ inr (power.0 (ground (arith, large)), ground (arith, large))
    ]

    refused : IsAligned ph → bad_align ph ≡ false
    refused (inl e) = ground arith
    refused (inr (p, same)) = ground (arith, power.1 p)
