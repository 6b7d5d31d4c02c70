-- ===== src/Registers/Survive.antt =====
-- Properties that the rings leave alone: they read CSR0 up to what `do_transmit` and `gotfunc` do
-- to it, and otherwise only what these never write.
use a.Base.{ℕ, ◌<◌, ◌≡◌, refl, arith, ◌==◌, false}
use a.Base.{
  Array, List, bit_and, bit_or, not16, has, has-or, has-and, ap, ◌∙◌, Bool-cases, inl, inr,
}
use a.Base.Bits.{bit_or-lt, bit_and-lt, bit_and_zero_left, eq_of_bits, test_bit-and}
use a.Card.{Card, csr0, with_csr0}
use a.Registers.{rethink, csr0_rethought, registers_csr0_set, registers_csr0_clr, int_and_enable}
use a.Registers.Halted.{kept_flag}

-- `w` is CSR0 after `v`: STOP is as before, TXON and RXON are not set anew, and 16 bits stay 16.
pub record Touched (v w : ℕ) : Type 0 where
  pub stop : has w 4 ≡ has v 4
  pub txon : has v 0x10 ≡ false → has w 0x10 ≡ false
  pub rxon : has v 0x20 ≡ false → has w 0x20 ≡ false
  pub words : v < 0x10000 → w < 0x10000

pub record Survives (P : Card → Type 0) : Type 0 where
  pub reads :
      (c : Card) (ram buf : Array) (len tdr rdr iter : ℕ) (frames : List (List ℕ))
      → P c
      → P (record c {
        boardram = ram;
        transmitbuffer = buf;
        transmitlen = len;
        tdr_offset = tdr;
        rdr_offset = rdr;
        loopback_iter = iter;
        sent = frames;
      })
  pub touches : (c : Card) (w : ℕ) → Touched (csr0 c) w → P c → P (with_csr0 c w)

set-Touched :
    (v m : ℕ)
    → has m 4 ≡ false
    → has m 0x10 ≡ false
    → has m 0x20 ≡ false
    → m < 0x10000
    → Touched v (bit_or v m)
set-Touched v m a b c l = record {
  stop = simp has-or (ground arith);
  txon = λ h. simp has-or (ground arith);
  rxon = λ h. simp has-or (ground arith);
  words = λ h. bit_or-lt 16 v m h l;
}

-- A flag that is clear stays clear under a mask.
swap_masks : (v m k : ℕ) → bit_and (bit_and v m) k ≡ bit_and (bit_and v k) m
swap_masks v m k = eq_of_bits _ _ λ i. simp test_bit-and (ground arith)

has-and_false : (v m k : ℕ) → has v k ≡ false → has (bit_and v m) k ≡ false
unfolding has
has-and_false v m k h = ground (
  arith,
  swap_masks v m k,
  bit_and_zero_left m,
  ap (λ (x : ℕ). bit_and x m) {x = bit_and v k} {y = 0} (ground arith),
)

cleared-Touched : (v m : ℕ) → bit_and m 4 ≡ 4 → Touched v (bit_and v m)
cleared-Touched v m e = record {
  stop = has-and v m 4 ∙ ap (has v) e;
  txon = has-and_false v m 0x10;
  rxon = has-and_false v m 0x20;
  words = bit_and-lt 16 v m;
}

pub rethought-Touched : (v : ℕ) → Touched v (csr0_rethought v)
unfolding csr0_rethought
rethought-Touched v = record {
  stop = kept_flag v 4 refl;
  txon = λ h. kept_flag v 0x10 refl ∙ h;
  rxon = λ h. kept_flag v 0x20 refl ∙ h;
  words = λ h. ground (arith, bit_and-lt 16 v 0xff7f h, bit_or-lt 16 (bit_and v 0xff7f) 0x80);
}

module _ {P : Card → Type 0} (survives : Survives P) where
  pub csr0_set-Survives :
      (m : ℕ) (c : Card)
      → has m 4 ≡ false
      → has m 0x10 ≡ false
      → has m 0x20 ≡ false
      → m < 0x10000
      → P c
      → P (registers_csr0_set m c)
  unfolding registers_csr0_set
  csr0_set-Survives m c a b d l h =
      survives.touches c (bit_or (csr0 c) m) (set-Touched (csr0 c) m a b d l) h

  pub csr0_clr-Survives :
      (m : ℕ) (c : Card) → bit_and (not16 m) 4 ≡ 4 → P c → P (registers_csr0_clr m c)
  unfolding registers_csr0_clr
  csr0_clr-Survives m c e h =
      survives.touches c (bit_and (csr0 c) (not16 m)) (cleared-Touched (csr0 c) (not16 m) e) h

  pub rethink-Survives :
      (on_interrupt : Card → Card)
      → ((c : Card) → P c → P (on_interrupt c))
      → (c : Card) → P c
      → P (rethink on_interrupt c)
  unfolding rethink
  rethink-Survives on_interrupt reports c h =
      let d : Card = with_csr0 c (csr0_rethought (csr0 c)) in
      let kept : P d =
        survives.touches c (csr0_rethought (csr0 c)) (rethought-Touched (csr0 c)) h in
      elim (Bool-cases (bit_and (csr0 d) int_and_enable == int_and_enable)) [
        | inl e ↦ rw e (reports d kept)
        | inr e ↦ rw e kept
      ]
