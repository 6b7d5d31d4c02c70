-- ===== src/Mac/Checksum.antt =====
-- The UDP checksum that `mungepacket` writes after it has changed CHADDR.
use a.Base.{
  ℕ, zero, suc, ◌+◌, ◌-◌, ◌*◌, ◌/◌, ◌%◌, ◌^◌, ◌≤◌, ◌<◌, ◌≡◌, ap, refl, arith, ltb, leb,
  if◌then◌else◌, ◌&&◌,
}
use a.Base.{some, Array, update, bit_and, bit_xor, ◌>>>◌, bit_and_low, bit_or_fields, u8}
use a.Base.Bits.{bit_xor_step, differ_bits}
use native.Mathlib.Nat.{pow-suc, one-le-pow, mod-eq_of_lt}
use a.Ram.Bytes.{IsBytes}
use a.Mac.{word_at, sum_words, fold_sum, udp_sum, checksum_of, clear_sum, recalculate}

pub word_at_lem : (p : Array) (i : ℕ) → IsBytes p → word_at p i ≡ p i * 256 + p (i + 1)
word_at_lem p i h = bit_or_fields 8 (p i) (p (i + 1)) (h (i + 1))

-- The sum of the words with no bound on its size.
unfoldable pub word_sum : Array → ℕ → ℕ → ℕ → ℕ
word_sum p at i zero = 0
word_sum p at i (suc n) = word_at p (at + 2 * i) + word_sum p at (i + 1) n

word_sum-le : (p : Array) (at i n : ℕ) → IsBytes p → word_sum p at i n ≤ 65535 * n
unfolding word_sum
word_sum-le p at i zero h = omega arith
word_sum-le p at i (suc n) h = omega (
  arith,
  word_at_lem p (at + 2 * i) h,
  h (at + 2 * i),
  h (at + 2 * i + 1),
  word_sum-le p at (i + 1) n h,
)

sum_words-eq-word_sum :
    (p : Array) (at i n sum : ℕ)
    → sum + word_sum p at i n < 0x1_0000_0000
    → sum_words p at i n sum ≡ sum + word_sum p at i n
unfolding sum_words word_sum
sum_words-eq-word_sum p at i zero sum h = omega arith
sum_words-eq-word_sum p at i (suc n) sum h = ground (
  arith,
  mod-eq_of_lt {n = sum + word_at p (at + 2 * i)} {m = 0x1_0000_0000} (omega arith),
  sum_words-eq-word_sum p at (i + 1) n (sum + word_at p (at + 2 * i)) (omega arith),
)

-- The words with the bytes `hi` and `lo` in the fourth.
unfoldable pub stored : Array → ℕ → ℕ → ℕ → Array
stored c at hi lo = update (update c (at + 6) hi) (at + 7) lo

pub stored-IsBytes :
    (c : Array) (at hi lo : ℕ) → IsBytes c → hi < 256 → lo < 256 → IsBytes (stored c at hi lo)
unfolding stored
stored-IsBytes c at hi lo h a b j = ground (arith, h j)

word_sum-stored :
    (c : Array) (at hi lo i n : ℕ)
    → IsBytes c
    → hi < 256
    → lo < 256
    → c (at + 6) ≡ 0
    → c (at + 7) ≡ 0
    → word_sum (stored c at hi lo) at i n
      ≡ word_sum c at i n + (if leb i 3 && ltb 3 (i + n) then hi * 256 + lo else 0)
unfolding word_sum stored
word_sum-stored c at hi lo i zero h a b x y = ground arith
word_sum-stored c at hi lo i (suc n) h a b x y = ground (
  arith,
  word_at_lem c (at + 2 * i) h,
  word_at_lem (stored c at hi lo) (at + 2 * i) (stored-IsBytes c at hi lo h a b),
  word_sum-stored c at hi lo (i + 1) n h a b x y,
)

-- Folding keeps the sum modulo 65535 and leaves 16 bits; it is 0 for 0 alone.
pub fold_sum_lem :
    (sum : ℕ)
    → sum < 0x1_0000_0000
    → (fold_sum 3 sum < 0x10000)
      × (fold_sum 3 sum % 65535 ≡ sum % 65535)
      × (0 < sum → 0 < fold_sum 3 sum)
unfolding fold_sum
fold_sum_lem sum h = ground (
  arith,
  bit_and_low 16 sum,
  bit_and_low 16 (bit_and sum 0xffff + sum / 65536),
  bit_and_low 16 (
      bit_and (bit_and sum 0xffff + sum / 65536) 0xffff
      + (bit_and sum 0xffff + sum / 65536) / 65536),
)

bit_xor_ones : (n r : ℕ) → r < 2 ^ n → bit_xor r (2 ^ n - 1) ≡ 2 ^ n - 1 - r
bit_xor_ones zero r h = let z : r ≡ 0 = omega arith in rw z refl
bit_xor_ones (suc n) r h =
    let half : (2 ^ suc n - 1) / 2 ≡ 2 ^ n - 1 = omega (arith, pow-suc 2 n) in
    let same : bit_xor (r / 2) ((2 ^ suc n - 1) / 2) ≡ bit_xor (r / 2) (2 ^ n - 1) =
      ap (λ (t : ℕ). bit_xor (r / 2) t) half in
    omega (
      arith,
      pow-suc 2 n,
      one-le-pow n 2 (omega arith),
      same,
      bit_xor_step r (2 ^ suc n - 1),
      differ_bits r (2 ^ suc n - 1),
      bit_xor_ones n (r / 2) (omega (arith, pow-suc 2 n)),
    )

checksum_of_lem :
    (sum : ℕ)
    → sum < 0x1_0000_0000
    → u8 (checksum_of sum >>> 8) * 256 + u8 (checksum_of sum) ≡ 65535 - fold_sum 3 sum
unfolding checksum_of
checksum_of_lem sum h = ground (arith, fold_sum_lem sum h, bit_xor_ones 32 (fold_sum 3 sum))

pub clear_sum-IsBytes : (p : Array) (at len2 : ℕ) → IsBytes p → IsBytes (clear_sum p at len2)
unfolding clear_sum
clear_sum-IsBytes p at len2 h j = ground (arith, h j)

clear_sum_zeros :
    (p : Array) (at len2 : ℕ)
    → (clear_sum p at len2 (at + 6) ≡ 0) × (clear_sum p at len2 (at + 7) ≡ 0)
unfolding clear_sum
clear_sum_zeros p at len2 = ground arith

-- The four words of the addresses, and the last two terms of the pseudo-header.
unfoldable pub pseudo : Array → ℕ → ℕ
pseudo p len2 = word_at p 26 + word_at p 28 + word_at p 30 + word_at p 32 + 17 + len2

pub udp_sum_lem :
    (p : Array) (at len2 : ℕ)
    → IsBytes p
    → len2 < 0x10000
    → udp_sum p at len2 ≡ word_sum p at 0 ((len2 + 1) / 2) + pseudo p len2
unfolding udp_sum pseudo
udp_sum_lem p at len2 h l = ground (
  arith,
  word_sum-le p at 0 ((len2 + 1) / 2) h,
  sum_words-eq-word_sum p at 0 ((len2 + 1) / 2) 0,
  bounded 26,
  bounded 28,
  bounded 30,
  bounded 32,
)
  where
    bounded : (i : ℕ) → word_at p i < 65536
    bounded i = omega (arith, word_at_lem p i h, h i, h (i + 1))

pseudo_at_least : (p : Array) (len2 : ℕ) → 17 ≤ pseudo p len2
unfolding pseudo
pseudo_at_least p len2 = omega arith

pseudo_at_most : (p : Array) (len2 : ℕ) → IsBytes p → pseudo p len2 ≤ 4 * 65535 + 17 + len2
unfolding pseudo
pseudo_at_most p len2 h = omega (arith, bounded 26, bounded 28, bounded 30, bounded 32)
  where
    bounded : (i : ℕ) → word_at p i < 65536
    bounded i = omega (arith, word_at_lem p i h, h i, h (i + 1))

pseudo-stored :
    (c : Array) (at hi lo len2 : ℕ) → 34 ≤ at → pseudo (stored c at hi lo) len2 ≡ pseudo c len2
unfolding pseudo stored
pseudo-stored c at hi lo len2 h = ground arith

pub recalculate-stored :
    (p q : Array) (at len2 : ℕ)
    → recalculate p at len2 ≡ some q
    → let c = clear_sum p at len2 in
      let sum = checksum_of (udp_sum c at len2) in q ≡ stored c at (u8 (sum >>> 8)) (u8 sum)
unfolding recalculate stored
recalculate-stored p q at len2 h = ground arith

-- After the checksum is computed anew the receiver's test passes: the datagram, checksum and
-- pseudo-header included, folds to 0xffff. The datagram has a header of its own behind an IPv4
-- header of 20 bytes or more.
pub recalculate_verifies :
    (p q : Array) (at len2 : ℕ)
    → IsBytes p
    → 34 ≤ at
    → 8 ≤ len2
    → len2 < 0x10000
    → recalculate p at len2 ≡ some q
    → fold_sum 3 (udp_sum q at len2) ≡ 0xffff
recalculate_verifies p q at len2 h a l m e = rw (recalculate-stored p q at len2 e) (
    ground (
      arith,
      fold_sum_lem (udp_sum c at len2),
      checksum_of_lem (udp_sum c at len2),
      udp_sum_lem c at len2 c_bytes m,
      udp_sum_lem (stored c at hi lo) at len2
          (stored-IsBytes c at hi lo c_bytes (omega arith) (omega arith)) m,
      word_sum-stored c at hi lo 0 ((len2 + 1) / 2) c_bytes,
      pseudo_at_least c len2,
      pseudo_at_most c len2 c_bytes,
      word_sum-le c at 0 ((len2 + 1) / 2) c_bytes,
      clear_sum_zeros p at len2,
      pseudo-stored c at hi lo len2 a,
      fold_sum_lem (udp_sum (stored c at hi lo) at len2),
    ))
  where
    c : Array
    c = clear_sum p at len2

    c_bytes : IsBytes c
    c_bytes = clear_sum-IsBytes p at len2 h

    hi : ℕ
    hi = u8 (checksum_of (udp_sum c at len2) >>> 8)

    lo : ℕ
    lo = u8 (checksum_of (udp_sum c at len2))

-- For a sum of 32 bits the replacement of a zero checksum by 0xffff is never made: the result is
-- the 32-bit complement of the folded sum, and its upper half is all ones.
pub checksum_of_never_replaced :
    (sum : ℕ)
    → sum < 0x1_0000_0000
    → (checksum_of sum ≡ 0xffff_ffff - fold_sum 3 sum) × (0xffff_0000 ≤ checksum_of sum)
unfolding checksum_of
checksum_of_never_replaced sum h =
    ground (arith, fold_sum_lem sum h, bit_xor_ones 32 (fold_sum 3 sum))
