-- ===== src/PhyAlloc/Word.antt =====
-- Single bits of the words of the page bitmap in w2/sys/mmu/phy_alloc.c.
use native.Mathlib.Nat.{pow-suc}
use native.Mathlib.Decide.{ℕ_discrete}
use sbrocks.Prelude.{
  ℕ, zero, suc, ◌+◌, ◌*◌, ◌/◌, ◌%◌, ◌^◌, ◌≤◌, ◌<◌, ◌≡◌, refl, sym, ◌∙◌, ap, arith, ◌==◌,
  if◌then◌else◌, some, bit_and, bit_or, true, false,
}
use sbrocks.Prelude.Bits.{
  bit, bit_and_half, bit_and-zero, bit-bit_or, bit-bit_and, bit-pow_self, bit-pow_ne,
  bit-complement, bit-le-one,
}
use sbrocks.PhyAlloc.{int_bit, find_bit, complement}

pub pow-lt : (k n : ℕ) → k < n → 2 ^ k < 2 ^ n
pow-lt k zero h = elim h [ ]
pow-lt zero (suc zero) h = omega arith
pow-lt zero (suc (suc n)) h = omega (arith, pow-suc 2 (suc n), pow-lt zero (suc n) (omega arith))
pow-lt (suc k) (suc n) h = omega (arith, pow-suc 2 k, pow-suc 2 n, pow-lt k n (omega arith))

pub bit_and-pow : (i w : ℕ) → bit_and w (2 ^ i) ≡ bit w i * 2 ^ i
bit_and-pow zero w = omega (arith, bit_and_half w 1, bit_and-zero (w / 2))
bit_and-pow (suc i) w =
    let e : 2 ^ suc i / 2 ≡ 2 ^ i = omega (arith, pow-suc 2 i) in
    let z : 2 ^ suc i % 2 ≡ 0 = omega (arith, pow-suc 2 i) in
    bit_and_half w (2 ^ suc i)
    ∙ rw (e, z, bit_and-pow i (w / 2))
        (omega (arith, ap (λ (k : ℕ). bit (w / 2) i * k) (pow-suc 2 i)))

one_le_pow : (i : ℕ) → 1 ≤ 2 ^ i
one_le_pow zero = omega arith
one_le_pow (suc i) = omega (arith, pow-suc 2 i, one_le_pow i)

pub int_bit-pow : (k : ℕ) → k < 31 → int_bit k ≡ some (2 ^ k)
unfolding int_bit
int_bit-pow k h = ground arith

pub test-clear : (w i : ℕ) → bit w i ≡ 0 → (bit_and w (2 ^ i) == 0) ≡ true
test-clear w i z = rw (bit_and-pow i w, z) (ground arith)

pub test-taken : (w i : ℕ) → bit w i ≡ 1 → (bit_and w (2 ^ i) == 0) ≡ false
test-taken w i e = rw (bit_and-pow i w, e) (ground (arith, one_le_pow i))

-- The search stops at the first clear bit.
pub find_bit-first :
    (left w p k : ℕ)
    → k < left
    → p + k < 31
    → ((j : ℕ) → p ≤ j → j < p + k → bit w j ≡ 1)
    → bit w (p + k) ≡ 0
    → find_bit left w p ≡ some (some (p + k))
unfolding find_bit
find_bit-first zero w p k h lt below clear = elim h [ ]
find_bit-first (suc left) w p zero h lt below clear =
    let e : p + 0 ≡ p = omega arith in
    rw (e, int_bit-pow p (omega arith), test-clear w p (rw e at clear), find_bit) refl
find_bit-first (suc left) w p (suc k) h lt below clear =
    let e : p + suc k ≡ p + 1 + k = omega arith in
    rw
      (
        int_bit-pow p (omega arith),
        test-taken w p (below p (omega arith) (omega arith)),
        e,
        find_bit,
      )
      (find_bit-first left w (p + 1) k (omega arith) (omega arith)
        (λ j lo hi. below j (omega arith) (omega arith)) (rw e at clear))

-- `w |= 1 << k` sets bit k alone.
pub bit-set : (w k j : ℕ) → bit (bit_or w (2 ^ k)) j ≡ (if j == k then 1 else bit w j)
bit-set w k j = elim (ℕ_discrete j k) [
  | yes e ↦ rw (e, bit-bit_or, bit-pow_self) (ground (arith, bit-le-one k w))
  | no ne ↦ rw (bit-bit_or, bit-pow_ne k j (λ e. ne (sym e))) (ground (arith, ne))
]

-- `w &= ~(1 << k)` clears bit k alone.
pub bit-clear :
    (w k j : ℕ)
    → k < 64
    → j < 64
    → bit (bit_and w (complement (2 ^ k))) j ≡ (if j == k then 0 else bit w j)
bit-clear w k j hk hj =
    let flip = bit-complement 64 (2 ^ k) j (pow-lt k 64 hk) hj in
    elim (ℕ_discrete j k) [
      | yes e ↦ rw (bit-bit_and, flip, e, bit-pow_self) (ground arith)
      | no ne ↦
          rw (bit-bit_and, flip, bit-pow_ne k j (λ e. ne (sym e)))
            (ground (arith, ne, bit-le-one j w))
    ]
