-- ===== src/Base/Masks.antt =====
-- Masks and shifts as arithmetic, in the form that `omega` reads.
use Prim.Native.Nat.{ℕ, zero, suc, ◌+◌, ◌-◌, ◌*◌, ◌/◌, ◌%◌, ◌^◌, ◌<◌}
use Prim.Native.Nat.{bit_and, bit_or, bit_xor}
use mathlib.Core.Path.{◌≡◌, ap, sym, ◌∙◌}
use mathlib.Core.Bool.{xor}
use native.Mathlib.Nat.{
  pow-suc, one-le-pow, add-mul-mod_self_left, mod-eq_of_lt, mod-lt, mod-add-div,
}
use native.Mathlib.Omega.{arith}
use a.Base.Bits.{bit_and_step, bit_or_step, bit_xor_step, eq_of_bits}
use a.Base.Bits.{differ_bits, test_bit-xor, test_bit-zero}
use a.Base.Flags.{bit_and-zero, bit_or-zero_right}

-- The casts to the fixed widths.
abbrev pub u8 : ℕ → ℕ
u8 n = n % 2 ^ 8

abbrev pub u16 : ℕ → ℕ
u16 n = n % 2 ^ 16

abbrev pub u32 : ℕ → ℕ
u32 n = n % 2 ^ 32

infixl 72 ◌<<<◌ ◌>>>◌
abbrev pub ◌<<<◌ : ℕ → ℕ → ℕ
x <<< k = x * 2 ^ k

abbrev pub ◌>>>◌ : ℕ → ℕ → ℕ
x >>> k = x / 2 ^ k

mod-double : (P a : ℕ) → 0 < P → (a / 2) % P * 2 + a % 2 ≡ a % (P * 2)
mod-double P a pos =
    let r : ℕ = (a / 2) % P * 2 + a % 2 in
    let small : r < P * 2 = omega (arith, mod-lt (a / 2) pos) in
    let whole : a ≡ r + P * 2 * (a / 2 / P) = omega (arith, mod-add-div (a / 2) P) in
    sym (mod-eq_of_lt small)
    ∙ sym (add-mul-mod_self_left r (P * 2) (a / 2 / P))
    ∙ ap (λ (t : ℕ). t % (P * 2)) (sym whole)

-- A mask of the `n` low bits is the remainder by `2 ^ n`.
pub bit_and_low : (n a : ℕ) → bit_and a (2 ^ n - 1) ≡ a % 2 ^ n
bit_and_low zero a = omega (arith, bit_and-zero a)
bit_and_low (suc n) a =
    let ih : bit_and (a / 2) (2 ^ n - 1) ≡ a / 2 % 2 ^ n = bit_and_low n (a / 2) in
    let half : (2 ^ suc n - 1) / 2 ≡ 2 ^ n - 1 = omega (arith, pow-suc 2 n) in
    let same : bit_and (a / 2) ((2 ^ suc n - 1) / 2) ≡ bit_and (a / 2) (2 ^ n - 1) =
      ap (λ (t : ℕ). bit_and (a / 2) t) half in
    omega (
      arith,
      pow-suc 2 n,
      one-le-pow n 2 (omega arith),
      ih,
      same,
      bit_and_step a (2 ^ suc n - 1),
      mod-double (2 ^ n) a (one-le-pow n 2 (omega arith)),
      ap (λ (t : ℕ). a % t) (pow-suc 2 n),
    )

pub bit_xor-zero : (x : ℕ) → bit_xor x 0 ≡ x
bit_xor-zero x = eq_of_bits _ _ λ k. simp (test_bit-xor, test_bit-zero) (unfold xor in ground arith)

-- `x ^ 1` swaps the two numbers of a pair.
pub bit_xor-one : (x : ℕ) → bit_xor x 1 ≡ x / 2 * 2 + (1 - x % 2)
bit_xor-one x = omega (arith, bit_xor_step x 1, differ_bits x 1, bit_xor-zero (x / 2))

-- `(q << k) | r` is a sum when `r` fits `k` bits.
pub bit_or_fields : (k q r : ℕ) → r < 2 ^ k → bit_or (q <<< k) r ≡ q * 2 ^ k + r
bit_or_fields zero q r fits =
    let none_left : r ≡ 0 = omega arith in rw none_left (omega (arith, bit_or-zero_right (q * 1)))
bit_or_fields (suc k) q r fits =
    let doubled : q * 2 ^ suc k ≡ 2 * (q * 2 ^ k) =
      omega (arith, ap (λ (t : ℕ). q * t) (pow-suc 2 k)) in
    ground (
      arith,
      doubled,
      bit_or_step (q * 2 ^ suc k) r,
      bit_or_fields k q (r / 2) (omega (arith, pow-suc 2 k)),
    )
