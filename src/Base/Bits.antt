-- ===== src/Base/Bits.antt =====
-- Single bits of `bit_and`, `bit_or` and `bit_xor` at variables, and equality by bits.
mod Step
pub use Step.{bit_and_step, bit_or_step, bit_xor_step}
use Prim.Native.Nat.{ℕ, zero, suc, ◌+◌, ◌-◌, ◌*◌, ◌/◌, ◌%◌, ◌^◌, ◌≤◌, ◌<◌}
use Prim.Native.Nat.{bit_and, bit_or, bit_xor, min, max, differ}
use mathlib.Core.Path.{◌≡◌, refl, ap}
use mathlib.Core.Bool.{Bool, true, false, ◌&&◌, ◌||◌, xor, not}
use native.Mathlib.Nat.{pow-suc, pow-le-pow_right, add_comm}
use native.Mathlib.Omega.{arith}
use a.Base.Tests.{◌==◌, ltb}

-- Bit `k` of `a`.
unfoldable pub test_bit : ℕ → ℕ → Bool
test_bit a zero = a % 2 == 1
test_bit a (suc k) = test_bit (a / 2) k

module _ where
  halve_and : (a b : ℕ) → bit_and a b / 2 ≡ bit_and (a / 2) (b / 2)
  halve_and a b = omega (arith, bit_and_step a b)

  halve_or : (a b : ℕ) → bit_or a b / 2 ≡ bit_or (a / 2) (b / 2)
  halve_or a b = omega (arith, bit_or_step a b)

  differ_digits : (x y : ℕ) → x < 2 → y < 2 → differ x y ≡ (x + y) % 2
  differ_digits zero y p q = omega arith
  differ_digits (suc zero) zero p q = refl
  differ_digits (suc zero) (suc zero) p q = refl
  differ_digits (suc zero) (suc (suc y)) p q = absurd (omega arith)
  differ_digits (suc (suc x)) y p q = absurd (omega arith)

  pub differ_bits : (a b : ℕ) → differ (a % 2) (b % 2) ≡ (a + b) % 2
  differ_bits a b = omega (arith, differ_digits (a % 2) (b % 2) (omega arith) (omega arith))

  pub halve_xor : (a b : ℕ) → bit_xor a b / 2 ≡ bit_xor (a / 2) (b / 2)
  halve_xor a b = omega (arith, bit_xor_step a b, differ_bits a b)

pub test_bit-and : (k a b : ℕ) → test_bit (bit_and a b) k ≡ (test_bit a k && test_bit b k)
unfolding test_bit
test_bit-and zero a b = ground (arith, bit_and_step a b)
test_bit-and (suc k) a b = rw halve_and (test_bit-and k (a / 2) (b / 2))

pub test_bit-or : (k a b : ℕ) → test_bit (bit_or a b) k ≡ (test_bit a k || test_bit b k)
unfolding test_bit
test_bit-or zero a b = ground (arith, bit_or_step a b)
test_bit-or (suc k) a b = rw halve_or (test_bit-or k (a / 2) (b / 2))

pub test_bit-xor : (k a b : ℕ) → test_bit (bit_xor a b) k ≡ xor (test_bit a k) (test_bit b k)
unfolding test_bit xor
test_bit-xor zero a b = ground (arith, bit_xor_step a b, differ_bits a b)
test_bit-xor (suc k) a b = rw halve_xor (test_bit-xor k (a / 2) (b / 2))

pub test_bit-zero : (k : ℕ) → test_bit 0 k ≡ false
unfolding test_bit
test_bit-zero zero = refl
test_bit-zero (suc k) = test_bit-zero k

-- A number below `2 ^ n` is known by its `n` low bits.
pub eq_of_bits_lt :
    (n a b : ℕ) → a < 2 ^ n → b < 2 ^ n → ((k : ℕ) → k < n → test_bit a k ≡ test_bit b k) → a ≡ b
unfolding test_bit
eq_of_bits_lt zero a b p q h = omega arith
eq_of_bits_lt (suc n) a b p q h = ground (
  arith,
  pow-suc 2 n,
  h 0,
  eq_of_bits_lt n (a / 2) (b / 2) (omega (arith, pow-suc 2 n)) (omega (arith, pow-suc 2 n))
      (λ k l. h (suc k) (omega arith)),
)

lt_two_pow : (a : ℕ) → a < 2 ^ a
lt_two_pow zero = omega arith
lt_two_pow (suc a) = omega (arith, pow-suc 2 a, lt_two_pow a)

two_pow_mono : (a b : ℕ) → 2 ^ a ≤ 2 ^ (a + b)
two_pow_mono a b = pow-le-pow_right (omega arith) (omega arith)

-- Numbers with the same bits are equal.
pub eq_of_bits : (a b : ℕ) → ((k : ℕ) → test_bit a k ≡ test_bit b k) → a ≡ b
eq_of_bits a b h =
    eq_of_bits_lt (a + b) a b (omega (arith, lt_two_pow a, two_pow_mono a b))
      (omega (arith, lt_two_pow b, two_pow_mono b a, ap (λ (t : ℕ). 2 ^ t) (add_comm b a)))
      (λ k l. h k)

pub bit_or-lt : (n a b : ℕ) → a < 2 ^ n → b < 2 ^ n → bit_or a b < 2 ^ n
bit_or-lt zero a b p q =
    let z : a ≡ 0 = omega arith in let w : b ≡ 0 = omega arith in rw (z, w) (omega arith)
bit_or-lt (suc n) a b p q = omega (
  arith,
  pow-suc 2 n,
  bit_or_step a b,
  bit_or-lt n (a / 2) (b / 2) (omega (arith, pow-suc 2 n)) (omega (arith, pow-suc 2 n)),
)

pub bit_and_zero_left : (b : ℕ) → bit_and 0 b ≡ 0
bit_and_zero_left b = eq_of_bits _ _ λ k. simp (test_bit-and, test_bit-zero) refl

pub bit_and-lt : (n a b : ℕ) → a < 2 ^ n → bit_and a b < 2 ^ n
bit_and-lt zero a b p =
    let none_left : a ≡ 0 = omega arith in
    rw none_left (omega (arith, bit_and_step 0 b, bit_and_zero_left (b / 2)))
bit_and-lt (suc n) a b p = omega (
  arith,
  pow-suc 2 n,
  bit_and_step a b,
  bit_and-lt n (a / 2) (b / 2) (omega (arith, pow-suc 2 n)),
)

pub bit_xor-lt : (n a b : ℕ) → a < 2 ^ n → b < 2 ^ n → bit_xor a b < 2 ^ n
bit_xor-lt zero a b p q =
    let z : a ≡ 0 = omega arith in let w : b ≡ 0 = omega arith in rw (z, w) (omega arith)
bit_xor-lt (suc n) a b p q = omega (
  arith,
  pow-suc 2 n,
  bit_xor_step a b,
  differ_bits a b,
  bit_xor-lt n (a / 2) (b / 2) (omega (arith, pow-suc 2 n)) (omega (arith, pow-suc 2 n)),
)
