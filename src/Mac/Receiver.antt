-- ===== src/Mac/Receiver.antt =====
-- What the receiver of a UDP datagram adds up, byte by byte as RFC 768 has it, and the checksum that
-- arm/src/mac.cpp writes.
use a.Base.{
  ℕ, zero, suc, ◌+◌, ◌*◌, ◌/◌, ◌%◌, ◌≤◌, ◌<◌, ◌≡◌, ap, sym, ◌∙◌, refl, arith, ◌==◌, if◌then◌else◌,
}
use a.Base.{true, false, some, Array, u8, ◌>>>◌, inl, inr, ◌⊎◌}
use a.Ram.Bytes.{IsBytes}
use a.Mac.{udp_sum, checksum_of, clear_sum, recalculate}
use a.Mac.Checksum.{
  word_at_lem, word_sum, stored, stored-IsBytes, pseudo, udp_sum_lem, recalculate-stored,
  clear_sum-IsBytes, fold_sum_lem, recalculate_verifies,
}

-- The first `n` bytes of a datagram at `at`, as the high and the low bytes of 16-bit words in turn; a
-- byte that is missing at the end counts as zero.
unfoldable pub bytes_total : Array → ℕ → ℕ → ℕ
bytes_total p at zero = 0
bytes_total p at (suc n) = bytes_total p at n + p (at + n) * (if n % 2 == 0 then 256 else 1)

-- The pseudo-header of an IPv4 packet at 14: both addresses, which are its bytes 12 to 19, the
-- protocol, 17, and the length of the datagram.
unfoldable pub pseudo_header : Array → ℕ → ℕ
pseudo_header p n = (p 26 + p 28 + p 30 + p 32) * 256 + (p 27 + p 29 + p 31 + p 33) + 17 + n

-- The one's complement sum is all ones: the total is a multiple of 65535, and not zero.
abbrev pub Verifies : Array → ℕ → ℕ → Type 0
Verifies p at n =
    ((pseudo_header p n + bytes_total p at n) % 65535 ≡ 0)
    × (0 < pseudo_header p n + bytes_total p at n)

pseudo-pseudo_header : (p : Array) (n : ℕ) → IsBytes p → pseudo p n ≡ pseudo_header p n
unfolding pseudo pseudo_header
pseudo-pseudo_header p n h =
    omega (arith, word_at_lem p 26 h, word_at_lem p 28 h, word_at_lem p 30 h, word_at_lem p 32 h)

word_sum_last :
    (p : Array) (at i n : ℕ)
    → IsBytes p
    → word_sum p at i (suc n)
      ≡ word_sum p at i n + (p (at + 2 * (i + n)) * 256 + p (at + 2 * (i + n) + 1))
unfolding word_sum
word_sum_last p at i zero h =
    let same : i + 0 ≡ i = omega arith in rw same (omega (arith, word_at_lem p (at + 2 * i) h))
word_sum_last p at i (suc n) h =
    let same : i + suc n ≡ i + 1 + n = omega arith in
    rw same (omega (arith, word_sum_last p at (i + 1) n h))

word_sum_more :
    (p : Array) (at k : ℕ)
    → IsBytes p
    → word_sum p at 0 (suc k) ≡ word_sum p at 0 k + (p (at + 2 * k) * 256 + p (at + 2 * k + 1))
word_sum_more p at k h = omega (
  arith,
  word_sum_last p at 0 k h,
  ap p {x = at + 2 * (0 + k)} {y = at + 2 * k} (omega arith),
  ap p {x = at + 2 * (0 + k) + 1} {y = at + 2 * k + 1} (omega arith),
)

-- Two bytes more are a word more.
bytes_total_word :
    (p : Array) (at k : ℕ)
    → bytes_total p at (suc (suc (2 * k)))
      ≡ bytes_total p at (2 * k) + (p (at + 2 * k) * 256 + p (at + 2 * k + 1))
unfolding bytes_total
bytes_total_word p at k =
    let even : (2 * k % 2 == 0) ≡ true = ground arith in
    let odd : (suc (2 * k) % 2 == 0) ≡ false = ground arith in
    let next : at + suc (2 * k) ≡ at + 2 * k + 1 = omega arith in rw (even, odd, next) (omega arith)

bytes_total_even : (p : Array) (at k : ℕ) → IsBytes p → bytes_total p at (2 * k) ≡ word_sum p at 0 k
bytes_total_even p at zero h = unfold bytes_total word_sum in refl
bytes_total_even p at (suc k) h =
    let two : 2 * suc k ≡ suc (suc (2 * k)) = omega arith in
    rw two
      (omega (arith, bytes_total_word p at k, bytes_total_even p at k h, word_sum_more p at k h))

bytes_total_odd :
    (p : Array) (at k : ℕ)
    → IsBytes p
    → p (at + suc (2 * k)) ≡ 0
    → bytes_total p at (suc (2 * k)) ≡ word_sum p at 0 (suc k)
unfolding bytes_total
bytes_total_odd p at k h z =
    let even : (2 * k % 2 == 0) ≡ true = ground arith in
    let next : at + 2 * k + 1 ≡ at + suc (2 * k) = omega arith in
    rw even (omega (arith, bytes_total_even p at k h, word_sum_more p at k h, ap p next, z))

-- The padding byte behind the datagram is zero.
word_sum-bytes_total :
    (p : Array) (at n : ℕ)
    → IsBytes p
    → p (at + n) ≡ 0
    → word_sum p at 0 ((n + 1) / 2) ≡ bytes_total p at n
word_sum-bytes_total p at n h z = elim parity [
  | inl e ↦
      let half : (n + 1) / 2 ≡ n / 2 = omega (arith, e) in
      rw half (sym (bytes_total_even p at (n / 2) h) ∙ ap (bytes_total p at) (sym e))
  | inr e ↦
      let half : (n + 1) / 2 ≡ suc (n / 2) = omega (arith, e) in
      rw half (
        sym (bytes_total_odd p at (n / 2) h (ap (λ t. p (at + t)) (sym e) ∙ z))
        ∙ ap (bytes_total p at) (sym e))
]
  where
    parity : (n ≡ 2 * (n / 2)) ⊎ (n ≡ suc (2 * (n / 2)))
    parity = ground arith

padded :
    (p : Array) (at len2 hi lo : ℕ)
    → 8 ≤ len2
    → stored (clear_sum p at len2) at hi lo (at + len2) ≡ 0
unfolding stored clear_sum
padded p at len2 hi lo l = ground arith

-- The packet that `recalculate` returns is one that the receiver accepts.
pub recalculate-Verifies :
    (p q : Array) (at len2 : ℕ)
    → IsBytes p
    → 34 ≤ at
    → 8 ≤ len2
    → len2 < 0x10000
    → recalculate p at len2 ≡ some q
    → Verifies q at len2
recalculate-Verifies p q at len2 h a l m e = (
  omega (
    arith,
    udp_sum_lem q at len2 q_bytes m,
    pseudo-pseudo_header q len2 q_bytes,
    word_sum-bytes_total q at len2 q_bytes zero_behind,
    (fold_sum_lem (udp_sum q at len2) udp_sum_lt).1,
    recalculate_verifies p q at len2 h a l m e,
  ),
  unfold pseudo_header in omega arith,
)
  where
    sum : ℕ
    sum = checksum_of (udp_sum (clear_sum p at len2) at len2)

    q_stored : q ≡ stored (clear_sum p at len2) at (u8 (sum >>> 8)) (u8 sum)
    q_stored = recalculate-stored p q at len2 e

    q_bytes : IsBytes q
    q_bytes = rw q_stored (
        stored-IsBytes (clear_sum p at len2) at _ _ (clear_sum-IsBytes p at len2 h) (omega arith)
          (omega arith))

    zero_behind : q (at + len2) ≡ 0
    zero_behind = rw q_stored (padded p at len2 _ _ l)

    udp_sum_lt : udp_sum q at len2 < 0x1_0000_0000
    udp_sum_lt = unfold udp_sum in omega arith
