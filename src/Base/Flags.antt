-- ===== src/Base/Flags.antt =====
-- Tests, settings and clearings of the flags of a 16-bit register, read flag by flag.
use Prim.Native.Nat.{ℕ, zero, suc, ◌-◌, ◌/◌, ◌%◌, ◌^◌, ◌≤◌, ◌<◌}
use Prim.Native.Nat.{bit_and, bit_or, bit_xor, bit_or-bitwise}
use mathlib.Core.Path.{◌≡◌, refl, ap}
use mathlib.Core.Bool.{Bool, true, false, ◌&&◌, ◌||◌, xor, not}
use native.Mathlib.Nat.{pow-suc, one-le-pow}
use native.Mathlib.Omega.{arith}
use a.Base.Tests.{◌==◌, if◌then◌else◌}
use a.Base.Bits.{bit_and-lt, test_bit, bit_and_step, bit_or_step, eq_of_bits}
use a.Base.Bits.{test_bit-and, test_bit-or, test_bit-xor, test_bit-zero}

-- `x & m` as a condition
unfoldable pub has : ℕ → ℕ → Bool
has x m = not (bit_and x m == 0)

-- `x &= ~w`
pub clear : ℕ → ℕ → ℕ
clear x w = bit_and x (bit_xor w 0xffff)

-- `~m`, kept to 16 bits
abbrev pub not16 : ℕ → ℕ
not16 m = bit_xor m 0xffff

pub bit_and_assoc : (a b c : ℕ) → bit_and (bit_and a b) c ≡ bit_and a (bit_and b c)
bit_and_assoc a b c = eq_of_bits _ _ λ k. simp test_bit-and (ground arith)

pub bit_and-or : (a b c : ℕ) → bit_and (bit_or a b) c ≡ bit_or (bit_and a c) (bit_and b c)
bit_and-or a b c = eq_of_bits _ _ λ k. simp (test_bit-and, test_bit-or) (ground arith)

pub bit_and_or : (a b c : ℕ) → bit_and a (bit_or b c) ≡ bit_or (bit_and a b) (bit_and a c)
bit_and_or a b c = eq_of_bits _ _ λ k. simp (test_bit-and, test_bit-or) (ground arith)

pub bit_or-zero_right : (x : ℕ) → bit_or x 0 ≡ x
bit_or-zero_right x = eq_of_bits _ _ λ k. simp (test_bit-or, test_bit-zero) (ground arith)

bit_or-zero : (b : ℕ) → bit_or 0 b ≡ b
bit_or-zero b = bit_or-bitwise 0 b

le-bit_or : (n a b : ℕ) → a ≤ n → a ≤ bit_or a b
le-bit_or zero a b h = omega arith
le-bit_or (suc n) zero b h = omega arith
le-bit_or (suc n) (suc a) b h =
    omega (arith, bit_or_step (suc a) b, le-bit_or n (suc a / 2) (b / 2) (omega arith))

right-le-bit_or : (n a b : ℕ) → a ≤ n → b ≤ bit_or a b
right-le-bit_or n zero b h = omega (arith, bit_or-zero b)
right-le-bit_or zero (suc a) b h = absurd (omega arith)
right-le-bit_or (suc n) (suc a) b h =
    omega (arith, bit_or_step (suc a) b, right-le-bit_or n (suc a / 2) (b / 2) (omega arith))

pub bit_or_comm : (x y : ℕ) → bit_or x y ≡ bit_or y x
bit_or_comm x y = eq_of_bits _ _ λ k. simp test_bit-or (ground arith)

pub bit_or-eq-zero : (a b : ℕ) → (bit_or a b == 0) ≡ ((a == 0) && (b == 0))
bit_or-eq-zero zero b = rw bit_or-zero refl
bit_or-eq-zero (suc a) b = ground (arith, le-bit_or (suc a) (suc a) b (omega arith))

-- Some flag of `m` is in `a | b` if it is in one of the two.
pub has-or : (a b m : ℕ) → has (bit_or a b) m ≡ (has a m || has b m)
unfolding has
has-or a b m = rw (bit_and-or a b m, bit_or-eq-zero (bit_and a m) (bit_and b m)) (ground arith)

pub has-if : (b : Bool) (x y m : ℕ) → has (if b then x else y) m ≡ (if b then has x m else has y m)
has-if true x y m = refl
has-if false x y m = refl

pub has-and : (a b m : ℕ) → has (bit_and a b) m ≡ has a (bit_and b m)
unfolding has
has-and a b m = rw bit_and_assoc refl

pub bit_and-zero : (x : ℕ) → bit_and x 0 ≡ 0
bit_and-zero x = eq_of_bits _ _ λ k. simp (test_bit-and, test_bit-zero) (ground arith)

pub has-zero : (a : ℕ) → has a 0 ≡ false
unfolding has
has-zero a = ground (arith, bit_and-zero a)

-- A test against a set of flags tests each of them.
pub has-split : (a m n : ℕ) → has a (bit_or m n) ≡ (has a m || has a n)
unfolding has
has-split a m n = rw (bit_and_or a m n, bit_or-eq-zero (bit_and a m) (bit_and a n)) (ground arith)

-- What a mask of one flag leaves.
and_bit : (k a : ℕ) → bit_and a (2 ^ k) ≡ (if test_bit a k then 2 ^ k else 0)
unfolding test_bit
and_bit zero a = ground (arith, bit_and_step a 1, bit_and-zero (a / 2))
and_bit (suc k) a =
    ground (arith, pow-suc 2 k, bit_and_step a (2 ^ suc k), halved, low, and_bit k (a / 2))
  where
    same : 2 ^ suc k / 2 ≡ 2 ^ k
    same = omega (arith, pow-suc 2 k)

    halved : bit_and (a / 2) (2 ^ suc k / 2) ≡ bit_and (a / 2) (2 ^ k)
    halved = ap (λ (t : ℕ). bit_and (a / 2) t) same

    low : 2 ^ suc k % 2 ≡ 0
    low = omega (arith, pow-suc 2 k)

pub has_bit : (k a : ℕ) → has a (2 ^ k) ≡ test_bit a k
unfolding has
has_bit k a = ground (arith, and_bit k a, one-le-pow k 2)

pub single : (k a : ℕ) → bit_and a (2 ^ k) ≡ (if has a (2 ^ k) then 2 ^ k else 0)
single k a = ground (arith, has_bit k a, and_bit k a)

test_bit-ones : (n k : ℕ) → k < n → test_bit (2 ^ n - 1) k ≡ true
unfolding test_bit
test_bit-ones zero k h = absurd (omega arith)
test_bit-ones (suc n) zero h = ground (arith, pow-suc 2 n, one-le-pow n 2)
test_bit-ones (suc n) (suc k) h = rw halved (test_bit-ones n k (omega arith))
  where
    halved : (2 ^ suc n - 1) / 2 ≡ 2 ^ n - 1
    halved = omega (arith, pow-suc 2 n)

-- `x & ~w` keeps the flags of `x` that are not in `w`.
pub clear-lt : (a w : ℕ) → a < 2 ^ 16 → clear a w < 2 ^ 16
unfolding clear
clear-lt a w h = bit_and-lt 16 a (not16 w) h

has-clear : (k a w : ℕ) → k < 16 → has (clear a w) (2 ^ k) ≡ (has a (2 ^ k) && not (has w (2 ^ k)))
unfolding clear xor
has-clear k a w h =
    rw (has_bit k (bit_and a (not16 w)), has_bit k a, has_bit k w, test_bit-and)
      (rw (test_bit-xor, test_bit-ones 16 k h) (ground arith))

pub has-clear_init : (a w : ℕ) → has (clear a w) 1 ≡ (has a 1 && not (has w 1))
has-clear_init a w = has-clear 0 a w (omega arith)

pub has-clear_strt : (a w : ℕ) → has (clear a w) 2 ≡ (has a 2 && not (has w 2))
has-clear_strt a w = has-clear 1 a w (omega arith)

pub has-clear_stop : (a w : ℕ) → has (clear a w) 4 ≡ (has a 4 && not (has w 4))
has-clear_stop a w = has-clear 2 a w (omega arith)

pub has-clear_tdmd : (a w : ℕ) → has (clear a w) 8 ≡ (has a 8 && not (has w 8))
has-clear_tdmd a w = has-clear 3 a w (omega arith)

pub has-clear_txon : (a w : ℕ) → has (clear a w) 16 ≡ (has a 16 && not (has w 16))
has-clear_txon a w = has-clear 4 a w (omega arith)

pub has-clear_rxon : (a w : ℕ) → has (clear a w) 32 ≡ (has a 32 && not (has w 32))
has-clear_rxon a w = has-clear 5 a w (omega arith)

pub has-clear_inea : (a w : ℕ) → has (clear a w) 64 ≡ (has a 64 && not (has w 64))
has-clear_inea a w = has-clear 6 a w (omega arith)

pub has-clear_intr : (a w : ℕ) → has (clear a w) 128 ≡ (has a 128 && not (has w 128))
has-clear_intr a w = has-clear 7 a w (omega arith)

pub has-clear_idon : (a w : ℕ) → has (clear a w) 256 ≡ (has a 256 && not (has w 256))
has-clear_idon a w = has-clear 8 a w (omega arith)

pub has-clear_tint : (a w : ℕ) → has (clear a w) 512 ≡ (has a 512 && not (has w 512))
has-clear_tint a w = has-clear 9 a w (omega arith)

pub has-clear_rint : (a w : ℕ) → has (clear a w) 1024 ≡ (has a 1024 && not (has w 1024))
has-clear_rint a w = has-clear 10 a w (omega arith)

pub has-clear_merr : (a w : ℕ) → has (clear a w) 2048 ≡ (has a 2048 && not (has w 2048))
has-clear_merr a w = has-clear 11 a w (omega arith)

pub has-clear_miss : (a w : ℕ) → has (clear a w) 4096 ≡ (has a 4096 && not (has w 4096))
has-clear_miss a w = has-clear 12 a w (omega arith)

pub has-clear_cerr : (a w : ℕ) → has (clear a w) 8192 ≡ (has a 8192 && not (has w 8192))
has-clear_cerr a w = has-clear 13 a w (omega arith)

pub has-clear_babl : (a w : ℕ) → has (clear a w) 16384 ≡ (has a 16384 && not (has w 16384))
has-clear_babl a w = has-clear 14 a w (omega arith)

pub has-clear_err : (a w : ℕ) → has (clear a w) 32768 ≡ (has a 32768 && not (has w 32768))
has-clear_err a w = has-clear 15 a w (omega arith)

-- These take a test of a computed register to tests of the registers that it is computed from.
pub ruleset flags = (
  has-if, has-or, has-and, has-zero, has-clear_init, has-clear_strt, has-clear_stop, has-clear_tdmd,
  has-clear_txon, has-clear_rxon, has-clear_inea, has-clear_intr, has-clear_idon, has-clear_tint,
  has-clear_rint, has-clear_merr, has-clear_miss, has-clear_cerr, has-clear_babl, has-clear_err,
)
