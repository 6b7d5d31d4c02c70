-- ===== src/Base/Arrays.antt =====
-- Arrays of bytes and of words as functions of the index, and lists with native lengths.
use Prim.Native.Nat.{ℕ, zero, suc, ◌+◌, ◌≤◌, ◌<◌}
use mathlib.Core.Bool.{Bool, true, false, ◌&&◌}
use mathlib.Core.Logic.{◌↔◌, ◌⊎◌}
use mathlib.Core.Path.{ap₂, fun_ext}
use mathlib.Core.Path.{◌≡◌, refl}
use mathlib.Core.List.{List, [], ◌∷◌}
use native.Mathlib.Decide.{ℕ_discrete}
use native.Mathlib.Omega.{arith}
use a.Base.Tests.{◌==◌, if◌then◌else◌}

-- The contents of an array; the code that indexes it says how far it reaches.
abbrev pub Array : Type 0
Array = ℕ → ℕ

-- `a[i] = v`
abbrev pub update : Array → ℕ → ℕ → Array
update a i v j = if i == j then v else a j

module _ {ℓ} {A : Type ℓ} where
  abbrev pub length : List A → ℕ
  length [] = 0
  length (x ∷ xs) = suc (length xs)

-- `a[i .. i + n)` as a list
abbrev pub slice : Array → ℕ → ℕ → List ℕ
slice a i zero = []
slice a i (suc n) = a i ∷ slice a (suc i) n

pub length-slice : (a : Array) (i n : ℕ) → length (slice a i n) ≡ n
length-slice a i zero = refl
length-slice a i (suc n) = omega (arith, length-slice a (suc i) n)

-- `memcpy(a + i, l, length l)`
abbrev pub memcpy : Array → ℕ → List ℕ → Array
memcpy a i [] = a
memcpy a i (x ∷ l) = memcpy (update a i x) (suc i) l

-- `!memcmp(k, l, n)` on blocks of `n` bytes
abbrev pub memcmp_eq : List ℕ → List ℕ → Bool
memcmp_eq [] [] = true
memcmp_eq [] (y ∷ l) = false
memcmp_eq (x ∷ k) [] = false
memcmp_eq (x ∷ k) (y ∷ l) = x == y && memcmp_eq k l

pub memcmp_eq_iff : (k l : List ℕ) → (memcmp_eq k l ≡ true) ↔ (k ≡ l)
memcmp_eq_iff [] [] = ground arith
memcmp_eq_iff [] (y ∷ l) = ground arith
memcmp_eq_iff (x ∷ k) [] = ground arith
memcmp_eq_iff (x ∷ k) (y ∷ l) = ground (arith, memcmp_eq_iff k l)

pub memcpy_outside :
    (l : List ℕ) (a : Array) (i j : ℕ) → (j < i) ⊎ (i + length l ≤ j) → memcpy a i l j ≡ a j
memcpy_outside [] a i j h = refl
memcpy_outside (x ∷ l) a i j h = ground (arith, memcpy_outside l (update a i x) (suc i) j)

pub slice_ext :
    (n : ℕ) (a b : Array) (i : ℕ)
    → ((j : ℕ) → i ≤ j → j < i + n → a j ≡ b j)
    → slice a i n ≡ slice b i n
slice_ext zero a b i h = refl
slice_ext (suc n) a b i h =
    ap₂ ◌∷◌ (h i (omega arith) (omega arith))
      (slice_ext n a b (suc i) (λ j p q. h j (omega arith) (omega arith)))

pub slice-memcpy_self : (l : List ℕ) (a : Array) (i : ℕ) → slice (memcpy a i l) i (length l) ≡ l
slice-memcpy_self [] a i = refl
slice-memcpy_self (x ∷ l) a i =
    ap₂ ◌∷◌ (ground (arith, memcpy_outside l (update a i x) (suc i) i))
      (slice-memcpy_self l (update a i x) (suc i))

pub slice-memcpy_ne :
    (l : List ℕ) (a : Array) (i j n : ℕ)
    → (j + n ≤ i) ⊎ (i + length l ≤ j)
    → slice (memcpy a i l) j n ≡ slice a j n
slice-memcpy_ne l a i j n h =
    slice_ext n (memcpy a i l) a j (λ k p q. memcpy_outside l a i k (ground arith))

pub slice_at :
    (n : ℕ) (a b : Array) (i : ℕ)
    → slice a i n ≡ slice b i n
    → (k : ℕ) → i ≤ k
    → k < i + n
    → a k ≡ b k
slice_at zero a b i h k p q = absurd (omega arith)
slice_at (suc n) a b i h k p q =
    let first : a i ≡ b i = cc in
    elim (ℕ_discrete k i) [
      | yes e ↦ rw e first
      | no ne ↦ slice_at n a b (suc i) (cc) k (omega arith) (omega arith)
    ]

-- Two arrays that agree on a block, and outside it, are the same.
pub array_ext_block :
    (n : ℕ) (a b : Array) (i : ℕ)
    → slice a i n ≡ slice b i n
    → ((j : ℕ) → (j < i) ⊎ (i + n ≤ j) → a j ≡ b j)
    → a ≡ b
array_ext_block zero a b i h o = fun_ext λ j. o j (omega arith)
array_ext_block (suc n) a b i h o =
    let first : a i ≡ b i = cc in
    array_ext_block n a b (suc i) (cc)
      (λ j p. elim (ℕ_discrete j i) [ yes e ↦ rw e first | no ne ↦ o j (omega arith) ])
