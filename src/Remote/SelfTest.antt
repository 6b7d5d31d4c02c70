-- ===== src/Remote/SelfTest.antt =====
-- `test_boardram` of arm/src/main_ddr3.cpp: the self test of card memory through the exchange.
use a.Base.{
  ℕ, ◌+◌, ◌*◌, ◌/◌, ◌<◌, ◌≡◌, refl, arith, sym, ap, ◌∙◌, ◌==◌, if◌then◌else◌, true, false, Option,
  some, ◌>>=◌, fun_ext,
}
use a.Base.{Array, bit_and, bit_and_low, has}
use a.Card.{Card}
use a.Ram
use a.Ram.Bytes.{IsBytes, put_ram_word-IsBytes, put_ram_byte-IsBytes}
use a.Doorbell.{rd64}
use a.Doorbell.SelfTest
use a.Mailbox.{service_bridge_safe}
use a.Remote.{boardram_rw, boardram_wb, boardram_ww, get_ram_word, put_ram_byte, put_ram_word}
use a.Remote.Answers.{Answers}
use a.Remote.Accessors.{accessors_read, accessors_write}
use a.Remote.Blocks.{cleared_bit}

module _ (fpga : ℕ → Card → Card) (service : Card → Option Card) where
  ww : ℕ → ℕ → Card → Option Card
  ww off v c = boardram_ww fpga service true off v c

  wb : ℕ → ℕ → Card → Option Card
  wb off v c = boardram_wb fpga service true off v c

  -- Phase 1.
  unfoldable pub write_patterns : Card → Option Card
  unfolding ww
  write_patterns c = ww 0x0000 0xDEAD c >>= λ d. ww 0x0002 0xBEEF d >>= λ e.
      ww 0x7FFE 0x1234 e >>= λ f. ww 0x0100 0xAAAA f >>= λ g. ww 0x0102 0x5555 g

  -- The number of failed comparisons.
  unfoldable pub check_word : ℕ → ℕ → Card → Option (ℕ × Card)
  check_word off expected c =
      boardram_rw fpga service true off c >>= λ r. some ((if r.0 == expected then 0 else 1), r.1)

  -- Phase 2.
  unfoldable pub readback : Card → Option (ℕ × Card)
  unfolding check_word
  readback c = check_word 0x0000 0xDEAD c >>= λ r. check_word 0x0002 0xBEEF r.1 >>= λ s.
      check_word 0x7FFE 0x1234 s.1 >>= λ t. check_word 0x0100 0xAAAA t.1 >>= λ u.
      check_word 0x0102 0x5555 u.1 >>= λ v. some (r.0 + s.0 + t.0 + u.0 + v.0, v.1)

  -- Phase 3.
  unfoldable pub write_bytes : Card → Option Card
  unfolding ww wb
  write_bytes c = ww 0x0200 0x0000 c >>= λ d. wb 0x0200 0xCA d >>= λ e. wb 0x0201 0xFE e

  -- The exit status.
  unfoldable pub test_boardram : Card → Option (ℕ × Card)
  unfolding write_patterns readback write_bytes check_word
  test_boardram c = write_patterns c >>= λ d. readback d >>= λ r. write_bytes r.1 >>= λ e.
      check_word 0x0200 0xCAFE e >>= λ s. some ((if r.0 + s.0 == 0 then 0 else 1), s.1)

-- The card with the memory `ram` and no response left over.
record Holds (ram : Array) (c : Card) : Type 0 where
  same : c.boardram ≡ ram
  bytes : IsBytes ram
  quiet : has (rd64 0x8018 c) 1 ≡ false

-- The result is there, and `P` holds of it.
record Ends {A : Type 0} (P : A → Type 0) (o : Option A) : Type 0 where
  result : A
  there : o ≡ some result
  holds : P result

Ends-bind :
    {A B : Type 0} {P : A → Type 0} {Q : B → Type 0} (o : Option A) (f : A → Option B)
    → Ends P o
    → ((a : A) → P a → Ends Q (f a))
    → Ends Q (o >>= f)
Ends-bind o f h k =
    let r = k h.result h.holds in
    record { result = r.result; there = ap (λ o. o >>= f) h.there ∙ r.there; holds = r.holds }

Ends-some : {A : Type 0} {P : A → Type 0} (a : A) → P a → Ends P (some a)
Ends-some a h = record { result = a; there = refl; holds = h }

module _ (stack : Array) (fpga : ℕ → Card → Card) (k : ℕ) (answers : Answers k fpga)
    (in_time : k < 10000) where
  ww-Holds :
      (off v : ℕ) {ram : Array} (c : Card)
      → off < 0x8000
      → off / 2 * 2 ≡ off
      → v < 0x10000
      → Holds ram c
      → Ends (Holds (Ram.put_ram_word ram off v)) (ww fpga (service_bridge_safe stack) off v c)
  unfolding put_ram_word ww
  ww-Holds off v {ram} c l even b h =
      let w =
        accessors_write stack fpga k answers in_time off v c l b h.quiet (rw h.same h.bytes) in
      let low : bit_and off 0x7fff ≡ off = omega (arith, bit_and_low 15 off) in
      record {
        result = w.0;
        there =
            ap (λ (x : ℕ). boardram_ww fpga (service_bridge_safe stack) true x v c) (sym low) ∙ w.2;
        holds = record {
          same =
              w.4
              ∙ ap (λ (x : ℕ). Ram.put_ram_word c.boardram x v) even
              ∙ ap (λ (m : Array). Ram.put_ram_word m off v) h.same;
          bytes = put_ram_word-IsBytes ram off v h.bytes;
          quiet = cleared_bit _ w.6;
        };
      }

  wb-Holds :
      (off v : ℕ) {ram : Array} (c : Card)
      → off < 0x8000
      → v < 0x10000
      → Holds ram c
      → Ends (Holds (Ram.put_ram_byte ram off v)) (wb fpga (service_bridge_safe stack) off v c)
  unfolding put_ram_byte wb
  wb-Holds off v {ram} c l b h =
      let w =
        accessors_write stack fpga k answers in_time off v c l b h.quiet (rw h.same h.bytes) in
      let low : bit_and off 0x7fff ≡ off = omega (arith, bit_and_low 15 off) in
      record {
        result = w.1;
        there =
            ap (λ (x : ℕ). boardram_wb fpga (service_bridge_safe stack) true x v c) (sym low) ∙ w.3;
        holds = record {
          same = fun_ext w.5 ∙ ap (λ (m : Array). Ram.put_ram_byte m off v) h.same;
          bytes = put_ram_byte-IsBytes ram off v h.bytes;
          quiet = cleared_bit _ w.7;
        };
      }

  check_word-Holds :
      (off expected : ℕ) {ram : Array} (c : Card)
      → off < 0x8000
      → off / 2 * 2 ≡ off
      → Holds ram c
      → Ends
          (λ r. (r.0 ≡ SelfTest.check_word ram off expected) × Holds ram r.1)
          (check_word fpga (service_bridge_safe stack) off expected c)
  unfolding check_word get_ram_word SelfTest.check_word
  check_word-Holds off expected {ram} c l even h =
      let r = accessors_read stack fpga k answers in_time off c l h.quiet (rw h.same h.bytes) in
      let low : bit_and off 0x7fff ≡ off = omega (arith, bit_and_low 15 off) in
      let read =
        ap (λ (x : ℕ). boardram_rw fpga (service_bridge_safe stack) true x c) (sym low) ∙ r.1 in
      record {
        result = ((if Ram.get_ram_word c.boardram (off / 2 * 2) == expected then 0 else 1), r.0);
        there = ap (λ o. o >>= λ r. some ((if r.0 == expected then 0 else 1), r.1)) read;
        holds = (
          ap (λ (x : ℕ). if Ram.get_ram_word c.boardram x == expected then 0 else 1) even
              ∙ ap (λ (m : Array). if Ram.get_ram_word m off == expected then 0 else 1) h.same,
          record { same = r.3 ∙ h.same; bytes = h.bytes; quiet = cleared_bit _ r.4 },
        );
      }

  write_patterns-Holds :
      {ram : Array} (c : Card)
      → Holds ram c
      → Ends
          (Holds (SelfTest.write_patterns ram))
          (write_patterns fpga (service_bridge_safe stack) c)
  unfolding write_patterns SelfTest.write_patterns
  write_patterns-Holds c h =
      Ends-bind _ _ (ww-Holds 0x0000 0xDEAD c (omega arith) refl (omega arith) h) (λ d i.
        Ends-bind _ _ (ww-Holds 0x0002 0xBEEF d (omega arith) refl (omega arith) i) (λ e j.
          Ends-bind _ _ (ww-Holds 0x7FFE 0x1234 e (omega arith) refl (omega arith) j) (λ f m.
            Ends-bind _ _ (ww-Holds 0x0100 0xAAAA f (omega arith) refl (omega arith) m)
              (λ g n. ww-Holds 0x0102 0x5555 g (omega arith) refl (omega arith) n))))

  readback-Holds :
      {ram : Array} (c : Card)
      → Holds ram c
      → Ends
          (λ r. (r.0 ≡ SelfTest.readback ram) × Holds ram r.1)
          (readback fpga (service_bridge_safe stack) c)
  unfolding readback SelfTest.readback
  readback-Holds c h = Ends-bind _ _ (check_word-Holds 0x0000 0xDEAD c (omega arith) refl h) (λ r i.
      Ends-bind _ _ (check_word-Holds 0x0002 0xBEEF r.1 (omega arith) refl i.1) (λ s j.
        Ends-bind _ _ (check_word-Holds 0x7FFE 0x1234 s.1 (omega arith) refl j.1) (λ t m.
          Ends-bind _ _ (check_word-Holds 0x0100 0xAAAA t.1 (omega arith) refl m.1) (λ u n.
            Ends-bind _ _ (check_word-Holds 0x0102 0x5555 u.1 (omega arith) refl n.1)
              (λ v o. Ends-some _ (rw (i.0, j.0, m.0, n.0, o.0) refl, o.1))))))

  write_bytes-Holds :
      {ram : Array} (c : Card)
      → Holds ram c
      → Ends (Holds (SelfTest.write_bytes ram)) (write_bytes fpga (service_bridge_safe stack) c)
  unfolding write_bytes SelfTest.write_bytes
  write_bytes-Holds c h =
      Ends-bind _ _ (ww-Holds 0x0200 0x0000 c (omega arith) refl (omega arith) h) (λ d i.
        Ends-bind _ _ (wb-Holds 0x0200 0xCA d (omega arith) (omega arith) i)
          (λ e j. wb-Holds 0x0201 0xFE e (omega arith) (omega arith) j))

  test_boardram-Ends :
      {ram : Array} (c : Card)
      → Holds ram c
      → Ends
          (λ r. (r.0 ≡ (SelfTest.test_boardram ram).0) × Holds (SelfTest.test_boardram ram).1 r.1)
          (test_boardram fpga (service_bridge_safe stack) c)
  unfolding test_boardram SelfTest.test_boardram
  test_boardram-Ends c h = Ends-bind _ _ (write_patterns-Holds c h) (λ d i.
      Ends-bind _ _ (readback-Holds d i) (λ r j. Ends-bind _ _ (write_bytes-Holds r.1 j.1) (λ e m.
        Ends-bind _ _ (check_word-Holds 0x0200 0xCAFE e (omega arith) refl m)
          (λ s n. Ends-some _ (rw (j.0, n.0) refl, n.1)))))

  -- The self test through the exchange passes whatever card memory held before, and leaves in it
  -- what the self test of the flat window leaves, if the FPGA answers each request by the same
  -- poll of the first attempt, with no response left over, and card memory holds bytes; the
  -- daemon serves its requests between the polls.
  pub test_boardram_passes :
      (c : Card)
      → has (rd64 0x8018 c) 1 ≡ false
      → IsBytes c.boardram
      → (d : Card) × (test_boardram fpga (service_bridge_safe stack) c ≡ some (0, d))
        × (d.boardram ≡ (SelfTest.test_boardram c.boardram).1)
  test_boardram_passes c quiet bytes =
      let t = test_boardram-Ends c (record { same = refl; bytes = bytes; quiet = quiet }) in
      (
        t.result.1,
        t.there
            ∙ ap (λ (x : ℕ). some (x, t.result.1))
                (t.holds.0 ∙ SelfTest.test_boardram_passes c.boardram),
        t.holds.1.same,
      )
