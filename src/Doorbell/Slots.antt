-- ===== src/Doorbell/Slots.antt =====
-- The slots of the DDR3 window that the FPGA reads and writes: the layout of a command and of the
-- shadow registers, and what the window holds after a turn of the daemon.
use a.Base.{
  ℕ, ◌+◌, ◌*◌, ◌/◌, ◌%◌, ◌^◌, ◌≤◌, ◌<◌, ◌≡◌, arith, refl, if◌then◌else◌, Bool, true, false, ◌&&◌,
}
use a.Base.{some, ◌>>=◌, Array, bit_or, has, bit_and_low, bit_or_fields, ◌<<<◌, ap, ◌∙◌}
use a.Base.Bits.{eq_of_bits, test_bit-or}
use a.Card.{Card, csr0}
use a.Registers.{registers_csr, chip_wput, write_csr0, chip_init}
use a.Registers.Access.{Keeps, chip_wput_register}
use a.Registers.Control.{write_csr0_init}
use native.Mathlib.Nat.{mod-eq_of_lt}
use a.Doorbell.{packed_csrs, push_csr_shadow, int_line, update_int_state, publish, rd64, wr64}
use a.Doorbell.{cmd_rap, cmd_data, obey_cmd, poll_turn, on_interrupt_cb, on_transmit_cb}

bit_or_comm : (a b : ℕ) → bit_or a b ≡ bit_or b a
bit_or_comm a b = eq_of_bits _ _ λ k. simp test_bit-or (ground arith)

pub high_field : (k q r : ℕ) → r < 2 ^ k → bit_or r (q <<< k) ≡ q * 2 ^ k + r
high_field k q r h = bit_or_comm r (q <<< k) ∙ bit_or_fields k q r h

-- The word that the FPGA posts to have `v` written to register `r`.
abbrev pub posted : ℕ → ℕ → ℕ
posted r v = 1 + 2 * r + 256 * v

-- A posted word is recognized, and its register and its value are read from it again.
pub posted_lem :
    (r v : ℕ)
    → r < 128
    → v < 0x10000
    → (has (posted r v) 1 ≡ true) × (cmd_rap (posted r v) ≡ r) × (cmd_data (posted r v) ≡ v)
unfolding cmd_rap cmd_data
posted_lem r v h k = (
  flag,
  omega (arith, bit_and_low 7 (posted r v / 2)),
  omega (arith, bit_and_low 16 (posted r v / 256)),
)
  where
    flag : has (posted r v) 1 ≡ true
    flag = unfold has in ground (arith, bit_and_low 1 (posted r v))

-- When every register has 16 bits, the four 16-bit fields of the shadow word are CSR0, CSR1, CSR2
-- and CSR3, lowest first.
pub packed_csrs_fields :
    (c : Card)
    → ((i : ℕ) → c.csr i < 0x10000)
    → let w = packed_csrs c in
      (w % 0x10000 ≡ c.csr 0)
      × (w / 2 ^ 16 % 0x10000 ≡ c.csr 1)
      × (w / 2 ^ 32 % 0x10000 ≡ c.csr 2)
      × (w / 2 ^ 48 % 0x10000 ≡ c.csr 3)
packed_csrs_fields c h = (
  omega (arith, whole, h 0),
  omega (arith, whole, h 0, h 1),
  omega (arith, whole, h 0, h 1, h 2),
  omega (arith, whole, h 0, h 1, h 2, h 3),
)
  where
    low : ℕ
    low = c.csr 1 * 2 ^ 16 + c.csr 0

    middle : ℕ
    middle = c.csr 2 * 2 ^ 32 + low

    whole : packed_csrs c ≡ c.csr 3 * 2 ^ 48 + middle
    whole =
        unfold packed_csrs registers_csr in
        ap (λ x. bit_or (bit_or x (c.csr 2 <<< 32)) (c.csr 3 <<< 48))
          (high_field 16 (c.csr 1) (c.csr 0) (h 0))
        ∙ ap (λ x. bit_or x (c.csr 3 <<< 48))
            (high_field 32 (c.csr 2) low (omega (arith, h 0, h 1)))
        ∙ high_field 48 (c.csr 3) middle (omega (arith, h 0, h 1, h 2))

-- What the FPGA reads is what the card holds.
pub record IsPublished (c : Card) : Type 0 where
  pub shadow : rd64 0x8010 c ≡ packed_csrs c
  pub line : rd64 0x8018 c ≡ (if has (csr0 c) 0x80 && has (csr0 c) 0x40 then 1 else 0)

pub publish-IsPublished : (c : Card) → IsPublished (publish c)
unfolding publish push_csr_shadow update_int_state packed_csrs registers_csr int_line
publish-IsPublished c = record { shadow = ground arith; line = ground arith }

publish_rest :
    (c : Card)
    → (rd64 0x8000 (publish c) ≡ rd64 0x8000 c)
      × (csr0 (publish c) ≡ csr0 c)
      × ((publish c).rap ≡ c.rap)
unfolding publish push_csr_shadow update_int_state
publish_rest c = (refl, refl, refl)

module _ (stack : Array) where
  poll_turn-posted :
      (c : Card) (r v : ℕ)
      → r < 128
      → v < 0x10000
      → rd64 0x8000 c ≡ posted r v
      → poll_turn stack c ≡ (
          chip_wput on_interrupt_cb (on_transmit_cb stack) 0 v (record c { rap = r }) >>= λ d.
          some (publish (wr64 0x8000 0 d)))
  unfolding poll_turn obey_cmd chip_wput
  poll_turn-posted c r v h k p =
      rw
        (
          p,
          (posted_lem r v h k).0,
          (posted_lem r v h k).1,
          (posted_lem r v h k).2,
          bit_and_low 7 r,
          mod-eq_of_lt h,
        )
        refl

  -- A word posted for a register other than CSR0 is obeyed without fail: the slot is cleared, the
  -- register is selected, CSR0 is kept, and what the FPGA reads is what the card holds.
  pub poll_turn_register :
      (c : Card) (r v : ℕ)
      → 1 ≤ r
      → r < 128
      → v < 0x10000
      → rd64 0x8000 c ≡ posted r v
      → (e : Card) × (poll_turn stack c ≡ some e)
        × (rd64 0x8000 e ≡ 0)
        × (e.rap ≡ r)
        × (csr0 e ≡ csr0 c)
        × IsPublished e
  poll_turn_register c r v l h k p =
      let w : (d : Card) × (chip_wput on_interrupt_cb (on_transmit_cb stack) 0 v
              (record c { rap = r })
            ≡ some d)
          × Keeps (record c { rap = r }) d =
        chip_wput_register on_interrupt_cb (on_transmit_cb stack) (record c { rap = r }) v l in
      let d : Card = wr64 0x8000 0 w.0 in
      (
        publish d,
        poll_turn-posted c r v h k p ∙ ap (λ t. t >>= λ d. some (publish (wr64 0x8000 0 d))) w.1,
        (publish_rest d).0,
        (publish_rest d).2 ∙ w.2.1,
        (publish_rest d).1 ∙ w.2.0,
        publish-IsPublished d,
      )

  chip_wput_csr0 :
      (c : Card) (v : ℕ)
      → chip_wput on_interrupt_cb (on_transmit_cb stack) 0 v (record c { rap = 0 })
        ≡ write_csr0 on_interrupt_cb (on_transmit_cb stack) (record c { rap = 0 }) v
  unfolding chip_wput
  chip_wput_csr0 c v = refl

  reported_rest :
      (on : Bool) (d : Card)
      → let x = if on then on_interrupt_cb d else d in
        (csr0 x ≡ csr0 d) × (x.am_initialized ≡ d.am_initialized)
  unfolding on_interrupt_cb publish push_csr_shadow update_int_state
  reported_rest on d = (ground arith, ground arith)

  -- INIT, posted without STRT and TDMD to the stopped chip that has none of the three set,
  -- initializes it: the slot is cleared, what the FPGA reads is what the card holds, and the
  -- interrupt line it reads is raised exactly when INEA was posted too.
  pub poll_turn_init :
      (c : Card) (v : ℕ)
      → v < 0x10000
      → rd64 0x8000 c ≡ posted 0 v
      → has (csr0 c) 4 ≡ true
      → has (csr0 c) 1 ≡ false
      → has (csr0 c) 2 ≡ false
      → has (csr0 c) 8 ≡ false
      → has v 1 ≡ true
      → has v 2 ≡ false
      → has v 8 ≡ false
      → (e : Card) × (poll_turn stack c ≡ some e)
        × (rd64 0x8000 e ≡ 0)
        × (e.am_initialized ≡ true)
        × IsPublished e
        × (rd64 0x8018 e ≡ (if has v 0x40 then 1 else 0))
  poll_turn_init c v k p a b d t i s m =
      let w : (d : Card) × (write_csr0 on_interrupt_cb (on_transmit_cb stack) (record c { rap = 0 })
              v
            ≡ some (if has v 0x40 then on_interrupt_cb d else d))
          × (has (csr0 d) 0x100 ≡ true)
          × (has (csr0 d) 0x80 ≡ true)
          × (has (csr0 d) 4 ≡ false)
          × (has (csr0 d) 0x10 ≡ false)
          × (has (csr0 d) 0x20 ≡ false)
          × (has (csr0 d) 0x40 ≡ has v 0x40)
          × (d.csr 3 ≡ 0)
          × (d.am_initialized ≡ true)
          × (d ≡ record (chip_init (record c { rap = 0 })) { csr = d.csr; am_initialized = true }) =
        write_csr0_init on_interrupt_cb (on_transmit_cb stack) (record c { rap = 0 }) v a b d t i s
          m in
      let x : Card = if has v 0x40 then on_interrupt_cb w.0 else w.0 in
      let e : Card = publish (wr64 0x8000 0 x) in
      let kept : (csr0 x ≡ csr0 w.0) × (x.am_initialized ≡ w.0.am_initialized) =
        reported_rest (has v 0x40) w.0 in
      let flags : csr0 e ≡ csr0 w.0 = (publish_rest (wr64 0x8000 0 x)).1 ∙ kept.0 in
      let done : IsPublished e = publish-IsPublished (wr64 0x8000 0 x) in
      (
        e,
        poll_turn-posted c 0 v (omega arith) k p
            ∙ ap (λ t. t >>= λ d. some (publish (wr64 0x8000 0 d))) (chip_wput_csr0 c v ∙ w.1),
        (publish_rest (wr64 0x8000 0 x)).0,
        unfold publish push_csr_shadow update_int_state in kept.1 ∙ w.9,
        done,
        done.line ∙ rw (flags, w.3, w.7) refl,
      )
