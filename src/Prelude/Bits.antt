-- ===== src/Prelude/Bits.antt =====
-- Single bits of a word: `w >> j & 1`, `w | 1 << j` and `w & ~(1 << j)`, digit by digit.
use Prim.Native.Nat.{bit_and, bit_or}
use native.Mathlib.Nat.{pow-suc}
use korus_os.Prelude.{
  ℕ, zero, suc, ◌+◌, ◌-◌, ◌*◌, ◌/◌, ◌%◌, ◌^◌, ◌<◌, ◌≡◌, refl, Bool, true, false, arith, ◌==◌,
  if◌then◌else◌,
}

unfoldable pub test_bit : ℕ → ℕ → Bool
test_bit w zero = w % 2 == 1
test_bit w (suc j) = test_bit (w / 2) j

unfoldable pub set_bit : ℕ → ℕ → ℕ
set_bit w zero = w / 2 * 2 + 1
set_bit w (suc j) = set_bit (w / 2) j * 2 + w % 2

unfoldable pub clear_bit : ℕ → ℕ → ℕ
clear_bit w zero = w / 2 * 2
clear_bit w (suc j) = clear_bit (w / 2) j * 2 + w % 2

half_of : (x r : ℕ) → r < 2 → ((x * 2 + r) / 2 ≡ x) × ((x * 2 + r) % 2 ≡ r)
half_of x r h = omega arith

pub test_bit-set_bit :
    (w j k : ℕ) → test_bit (set_bit w j) k ≡ (if j == k then true else test_bit w k)
unfolding test_bit set_bit
test_bit-set_bit w zero zero = ground arith
test_bit-set_bit w zero (suc k) =
    let e : (w / 2 * 2 + 1) / 2 ≡ w / 2 = omega arith in rw e (ground arith)
test_bit-set_bit w (suc j) zero = ground arith
test_bit-set_bit w (suc j) (suc k) =
    rw ((half_of (set_bit (w / 2) j) (w % 2) (omega arith)).0)
      (ground (arith, test_bit-set_bit (w / 2) j k))

pub test_bit-clear_bit :
    (w j k : ℕ) → test_bit (clear_bit w j) k ≡ (if j == k then false else test_bit w k)
unfolding test_bit clear_bit
test_bit-clear_bit w zero zero = ground arith
test_bit-clear_bit w zero (suc k) =
    let e : w / 2 * 2 / 2 ≡ w / 2 = omega arith in rw e (ground arith)
test_bit-clear_bit w (suc j) zero = ground arith
test_bit-clear_bit w (suc j) (suc k) =
    rw ((half_of (clear_bit (w / 2) j) (w % 2) (omega arith)).0)
      (ground (arith, test_bit-clear_bit (w / 2) j k))

-- A word of n bits that are all set is the largest.
pub ones : ℕ → ℕ
ones zero = 0
ones (suc n) = ones n * 2 + 1

pub test_bit-ones : (n j : ℕ) → j < n → test_bit (ones n) j ≡ true
unfolding test_bit ones
test_bit-ones zero j h = absurd (omega arith)
test_bit-ones (suc n) zero h = ground arith
test_bit-ones (suc n) (suc j) h =
    rw ((half_of (ones n) 1 (omega arith)).0) (test_bit-ones n j (omega arith))

pub test_bit-zero : (j : ℕ) → test_bit 0 j ≡ false
unfolding test_bit
test_bit-zero zero = refl
test_bit-zero (suc j) = test_bit-zero j

pub set_bit-lt : (n w j : ℕ) → w < 2 ^ n → j < n → set_bit w j < 2 ^ n
unfolding set_bit
set_bit-lt zero w j h l = absurd (omega arith)
set_bit-lt (suc n) w zero h l = rw pow-suc (omega (arith, rw pow-suc at h))
set_bit-lt (suc n) w (suc j) h l =
    let h' = rw pow-suc at h in
    rw pow-suc (omega (arith, set_bit-lt n (w / 2) j (omega (arith, h')) (omega arith)))

-- A number w read as 32 bits, against the library's operations.
ones-32 : ones 32 ≡ 0xFFFF_FFFF
unfolding ones
ones-32 = refl

pub all_set : (j : ℕ) → j < 32 → test_bit 0xFFFF_FFFF j ≡ true
all_set j h = rw (← ones-32) (test_bit-ones 32 j h)

set_bit_runs :
    (set_bit 0xA0 3 ≡ bit_or 0xA0 8) × (clear_bit 0xAA 3 ≡ bit_and 0xAA (0xFFFF_FFFF - 8))
unfolding set_bit clear_bit
set_bit_runs = (refl, refl)
