-- ===== src/Base/Bits/Step.antt =====
-- The lowest digit of the result of a native bit operation. These operations are a recursion on
-- binary digits whose rounds are limited by the first operand, and rounds to spare do not matter.
use Prim.Native.Nat.{
  ℕ, zero, suc, ◌+◌, ◌-◌, ◌*◌, ◌/◌, ◌%◌, ◌≤◌, min, max, differ, bit_and, bit_or, bit_xor, digits,
  bitwise, bit_and-bitwise, bit_or-bitwise, bit_xor-bitwise,
}
use mathlib.Core.Path.{◌≡◌, refl, ap, ◌∙◌}
use native.Mathlib.Omega.{arith}

module _ (rest : ℕ → ℕ) (op : ℕ → ℕ → ℕ) where
  one_more : (x y n : ℕ) → x ≤ n → digits rest op (suc n) x y ≡ digits rest op n x y
  one_more zero y zero le = refl
  one_more zero y (suc n) le = refl
  one_more (suc x) y zero le = absurd (omega arith)
  one_more (suc x) y (suc n) le =
      ap (λ high. high * 2 + op (suc x % 2) (y % 2)) (one_more (suc x / 2) (y / 2) n (omega arith))

  spare : (k x y : ℕ) → digits rest op (x + k) x y ≡ digits rest op x x y
  spare zero x y = ap (λ n. digits rest op n x y) {x = x + 0} {y = x} (omega arith)
  spare (suc k) x y =
      ap (λ n. digits rest op n x y) {x = x + suc k} {y = suc (x + k)} (omega arith)
      ∙ one_more x y (x + k) (omega arith)
      ∙ spare k x y

  lowest :
      ((y : ℕ) → rest y ≡ rest (y / 2) * 2 + op 0 (y % 2))
      → (x y : ℕ) → bitwise rest op x y ≡ bitwise rest op (x / 2) (y / 2) * 2 + op (x % 2) (y % 2)
  lowest base zero y = base y
  lowest base (suc x) y =
      let h : ℕ = suc x / 2 in
      let k : ℕ = x - suc x / 2 in
      let rounds : x ≡ h + k = omega arith in
      ap (λ high. high * 2 + op (suc x % 2) (y % 2))
        (ap (λ n. digits rest op n h (y / 2)) rounds ∙ spare k h (y / 2))

pub bit_xor_step : (x y : ℕ) → bit_xor x y ≡ bit_xor (x / 2) (y / 2) * 2 + differ (x % 2) (y % 2)
bit_xor_step x y = simp bit_xor-bitwise (lowest (λ y. y) differ (λ y. omega arith) x y)

pub bit_and_step : (x y : ℕ) → bit_and x y ≡ bit_and (x / 2) (y / 2) * 2 + min (x % 2) (y % 2)
bit_and_step x y = simp bit_and-bitwise (lowest (λ y. 0) min (λ y. omega arith) x y)

pub bit_or_step : (x y : ℕ) → bit_or x y ≡ bit_or (x / 2) (y / 2) * 2 + max (x % 2) (y % 2)
bit_or_step x y = simp bit_or-bitwise (lowest (λ y. y) max (λ y. omega arith) x y)
