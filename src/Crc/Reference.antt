-- ===== src/Crc/Reference.antt =====
-- The table gives the CRC that is computed bit by bit.
use a.Base.{ℕ, zero, suc, ◌+◌, ◌*◌, ◌/◌, ◌%◌, ◌^◌, ◌<◌, ◌≡◌, refl, ap, sym, ◌∙◌, arith}
use a.Base.{bit_and, bit_xor, if◌then◌else◌, Array, update, bit_and_low, leb, ltb}
use a.Base.{bit_xor-zero}
use a.Base.Bits.{
  test_bit, eq_of_bits, test_bit-xor, halve_xor, bit_xor-lt, bit_xor_step, differ_bits,
}
use a.Base.Flags.{has_bit}
use mathlib.Core.Bool.{xor, ◌&&◌}
use native.Mathlib.Nat.{pow-suc, div-one, div-div-eq-div-mul, mul_comm}
use a.Crc.{step, steps, fill_loop, build_table, crc32_table, crc_loop, crc32_compute}

pub bit_xor_assoc : (a b c : ℕ) → bit_xor (bit_xor a b) c ≡ bit_xor a (bit_xor b c)
bit_xor_assoc a b c = eq_of_bits _ _ λ k. simp test_bit-xor (unfold xor in ground arith)

pub bit_xor_comm : (a b : ℕ) → bit_xor a b ≡ bit_xor b a
bit_xor_comm a b = eq_of_bits _ _ λ k. simp test_bit-xor (unfold xor in ground arith)

-- Bit by bit: the byte is added to the register, which then takes eight steps.
pub crc_bitwise : Array → ℕ → ℕ → ℕ → ℕ
crc_bitwise buf zero i crc = crc
crc_bitwise buf (suc n) i crc = crc_bitwise buf n (i + 1) (steps 8 (bit_xor crc (buf i)))

test_bit-step :
    (c k : ℕ)
    → test_bit (step c) k ≡ xor (test_bit c 0 && test_bit 0xEDB88320 k) (test_bit (c / 2) k)
unfolding step xor
test_bit-step c k = ground (arith, has_bit 0 c, test_bit-xor k 0xEDB88320 (c / 2))

-- A step is linear: it takes a sum without carries to such a sum.
step-xor : (a b : ℕ) → step (bit_xor a b) ≡ bit_xor (step a) (step b)
step-xor a b =
    eq_of_bits _ _ λ k. simp (test_bit-step, halve_xor, test_bit-xor) (unfold xor in ground arith)

steps-xor : (n a b : ℕ) → steps n (bit_xor a b) ≡ bit_xor (steps n a) (steps n b)
unfolding steps
steps-xor zero a b = refl
steps-xor (suc n) a b = rw step-xor (steps-xor n (step a) (step b))

step_even : (y : ℕ) → step (y * 2) ≡ y
unfolding step test_bit
step_even y = ground (arith, has_bit 0 (y * 2))

-- `n` steps of a number whose `n` low bits are zero only shift it.
steps_shift : (n y : ℕ) → steps n (y * 2 ^ n) ≡ y
unfolding steps
steps_shift zero y = omega arith
steps_shift (suc n) y =
    let twice : y * 2 ^ suc n ≡ y * 2 ^ n * 2 =
      omega (arith, ap (λ (t : ℕ). y * t) (pow-suc 2 n)) in
    rw twice (rw step_even (steps_shift n y))

-- The low and the high part of a number add up without carries.
bit_xor_fields : (n q r : ℕ) → r < 2 ^ n → bit_xor r (q * 2 ^ n) ≡ r + q * 2 ^ n
bit_xor_fields zero q r h =
    let none_left : r ≡ 0 = omega arith in
    rw none_left (omega (arith, bit_xor_comm 0 (q * 1), bit_xor-zero (q * 1)))
bit_xor_fields (suc n) q r h =
    let doubled : q * 2 ^ suc n ≡ 2 * (q * 2 ^ n) =
      omega (arith, ap (λ (t : ℕ). q * t) (pow-suc 2 n)) in
    ground (
      arith,
      doubled,
      bit_xor_step r (q * 2 ^ suc n),
      differ_bits r (q * 2 ^ suc n),
      bit_xor_fields n q (r / 2) (omega (arith, pow-suc 2 n)),
    )

-- Eight steps are a table entry for the low byte and a shift of the rest.
steps_by_byte : (x : ℕ) → steps 8 x ≡ bit_xor (steps 8 (bit_and x 0xff)) (x / 256)
steps_by_byte x =
    let low : bit_and x 0xff ≡ x % 256 = bit_and_low 8 x in
    let whole : x ≡ bit_xor (x % 256) (x / 256 * 2 ^ 8) =
      omega (arith, bit_xor_fields 8 (x / 256) (x % 256) (omega arith)) in
    ap (steps 8) whole
    ∙ steps-xor 8 (x % 256) (x / 256 * 2 ^ 8)
    ∙ rw (low, steps_shift 8 (x / 256)) refl

div-xor : (n a b : ℕ) → bit_xor a b / 2 ^ n ≡ bit_xor (a / 2 ^ n) (b / 2 ^ n)
div-xor zero a b = rw (div-one, div-one, div-one) refl
div-xor (suc n) a b =
    rw (halved (bit_xor a b), halved a, halved b, halve_xor) (div-xor n (a / 2) (b / 2))
  where
    halved : (x : ℕ) → x / 2 ^ suc n ≡ x / 2 / 2 ^ n
    halved x = rw pow-suc (rw mul_comm (sym (div-div-eq-div-mul x 2 (2 ^ n))))

fill_loop_lem :
    (n i : ℕ) (table : Array) (j : ℕ)
    → fill_loop n i table j ≡ (if leb i j && ltb j (i + n) then steps 8 j else table j)
unfolding fill_loop
fill_loop_lem zero i table j = ground arith
fill_loop_lem (suc n) i table j =
    ground (arith, fill_loop_lem n (i + 1) (update table i (steps 8 i)) j)

-- Entry `j` of the table is eight steps of `j`.
pub crc32_table_lem : (j : ℕ) → j < 256 → crc32_table j ≡ steps 8 j
unfolding crc32_table build_table
crc32_table_lem j h = ground (arith, fill_loop_lem 256 0 (λ i. 0) j)

crc_loop-eq-crc_bitwise :
    (buf : Array) (n i crc : ℕ)
    → ((j : ℕ) → buf j < 256)
    → crc_loop buf n i crc ≡ crc_bitwise buf n i crc
unfolding crc_loop crc_bitwise
crc_loop-eq-crc_bitwise buf zero i crc h = refl
crc_loop-eq-crc_bitwise buf (suc n) i crc h =
    rw one_byte (crc_loop-eq-crc_bitwise buf n (i + 1) (steps 8 (bit_xor crc (buf i))) h)
  where
    sum : ℕ
    sum = bit_xor crc (buf i)

    in_table : bit_and sum 0xff < 256
    in_table = omega (arith, bit_and_low 8 sum)

    byte : buf i / 256 ≡ 0
    byte = omega (arith, h i)

    one_byte :
        bit_xor (crc32_table (bit_and (bit_xor crc (buf i)) 0xff)) (crc / 256)
        ≡ steps 8 (bit_xor crc (buf i))
    one_byte =
        rw
          (
            crc32_table_lem (bit_and sum 0xff) in_table,
            steps_by_byte sum,
            div-xor 8 crc (buf i),
            byte,
            bit_xor-zero (crc / 256),
          )
          refl

-- The table-driven CRC of a frame of bytes is the CRC that is computed bit by bit, from the same
-- start and with the same final complement.
pub crc32_compute-eq-bitwise :
    (buf : Array) (at len : ℕ)
    → ((j : ℕ) → buf j < 256)
    → crc32_compute buf at len ≡ bit_xor (crc_bitwise buf len at 0xffff_ffff) 0xffff_ffff
unfolding crc32_compute
crc32_compute-eq-bitwise buf at len h = rw (crc_loop-eq-crc_bitwise buf len at 0xffff_ffff h)

steps-lt : (n c : ℕ) → c < 2 ^ 32 → steps n c < 2 ^ 32
unfolding steps step
steps-lt zero c h = h
steps-lt (suc n) c h = steps-lt n (step c) (ground (arith, bit_xor-lt 32 0xEDB88320 (c / 2)))

crc_bitwise-lt :
    (buf : Array) (n i crc : ℕ)
    → ((j : ℕ) → buf j < 256)
    → crc < 2 ^ 32
    → crc_bitwise buf n i crc < 2 ^ 32
unfolding crc_bitwise
crc_bitwise-lt buf zero i crc h c = c
crc_bitwise-lt buf (suc n) i crc h c =
    crc_bitwise-lt buf n (i + 1) (steps 8 (bit_xor crc (buf i))) h
      (steps-lt 8 (bit_xor crc (buf i)) (bit_xor-lt 32 crc (buf i) c (omega (arith, h i))))

-- The checksum fits 32 bits.
pub crc32_compute-lt :
    (buf : Array) (at len : ℕ) → ((j : ℕ) → buf j < 256) → crc32_compute buf at len < 2 ^ 32
crc32_compute-lt buf at len h = rw (crc32_compute-eq-bitwise buf at len h) (
    bit_xor-lt 32 (crc_bitwise buf len at 0xffff_ffff) 0xffff_ffff
      (crc_bitwise-lt buf len at 0xffff_ffff h (omega arith)) (omega arith))
