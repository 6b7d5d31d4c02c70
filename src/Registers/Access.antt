-- ===== src/Registers/Access.antt =====
-- How the 68k reaches the registers: RAP selects, CSR1 to CSR3 are locked while the chip is not
-- stopped, and the other registers are written without a call of the daemon.
use a.Base.{ℕ, ◌*◌, ◌/◌, ◌%◌, ◌≤◌, ◌<◌, ◌≡◌, refl, arith, ◌==◌, leb, if◌then◌else◌, true, false}
use a.Base.{bit_and, has, bit_and_low, update, Option, some}
use a.Base.Bits.{bit_and_step}
use a.Card.{Card, csr0}
use a.Registers.{chip_wput, chip_wget, write_stopped, write_other, chip_init_mask}

module _ (on_interrupt : Card → Card) (on_transmit : Card → Option Card) where
  -- A write of RAP followed by a read of RAP gives the seven low bits back, and changes nothing
  -- else.
  pub chip_wput_rap :
      (c : Card) (v : ℕ)
      → (d : Card) × (chip_wput on_interrupt on_transmit 2 v c ≡ some d)
        × (chip_wget d 2 ≡ v % 128)
        × (d ≡ record c { rap = d.rap })
  unfolding chip_wput chip_wget
  chip_wput_rap c v = (record c { rap = bit_and v 0x7f }, refl, bit_and_low 7 v, refl)

  -- While STOP is clear a write of CSR1, CSR2 or CSR3 changes nothing.
  pub chip_wput_locked :
      (c : Card) (v : ℕ)
      → has (csr0 c) 4 ≡ false
      → 1 ≤ c.rap
      → c.rap ≤ 3
      → chip_wput on_interrupt on_transmit 0 v c ≡ some c
  unfolding chip_wput write_stopped
  chip_wput_locked c v h l u = ground arith

  -- While STOP is set a write of 16 bits to CSR1, CSR2 or CSR3 is read back, CSR1 without its
  -- lowest bit, CSR2 as eight bits, CSR3 as three, and CSR0 is kept.
  pub chip_wput_stopped :
      (c : Card) (v : ℕ)
      → v < 0x10000
      → has (csr0 c) 4 ≡ true
      → 1 ≤ c.rap
      → c.rap ≤ 3
      → (d : Card) × (chip_wput on_interrupt on_transmit 0 v c ≡ some d)
        × (chip_wget d 0
            ≡ (if c.rap == 1 then v / 2 * 2 else if c.rap == 2 then v % 256 else v % 8))
        × (csr0 d ≡ csr0 c)
  unfolding chip_wput chip_wget write_stopped
  chip_wput_stopped c v b h l u = (
    record c { csr = update c.csr c.rap value },
    ground arith,
    ground (arith, bit_and_step v 0xfffe, bit_and_low 15 (v / 2), bit_and_low 8 v, bit_and_low 3 v),
    ground arith,
  )
    where
      value : ℕ
      value =
          if c.rap == 1
          then bit_and v 0xfffe
          else if c.rap == 2
          then bit_and v 0x00ff
          else bit_and v 7

-- `d` has the CSR0, the RAP and the slots of `c`.
abbrev pub Keeps : Card → Card → Type 0
Keeps c d = (csr0 d ≡ csr0 c) × (d.rap ≡ c.rap) × (d.slot ≡ c.slot)

write_stopped-Keeps : (c : Card) (n v : ℕ) → 1 ≤ n → Keeps c (write_stopped c n v)
unfolding write_stopped
write_stopped-Keeps c n v h = (ground arith, ground arith, ground arith)

pub write_other-Keeps : (c : Card) (v : ℕ) → Keeps c (write_other c v)
unfolding write_other chip_init_mask
write_other-Keeps c v = (ground arith, ground arith, ground arith)

module _ (on_interrupt : Card → Card) (on_transmit : Card → Option Card) where
  register_written : Card → ℕ → Card
  register_written c v =
      if leb 128 c.rap
      then c
      else if c.rap == 1
      then write_stopped c 1 (bit_and v 0xfffe)
      else if c.rap == 2
      then write_stopped c 2 (bit_and v 0xff)
      else if c.rap == 3
      then write_stopped c 3 (bit_and v 7)
      else write_other c v

  register_written-Keeps : (c : Card) (v : ℕ) → Keeps c (register_written c v)
  unfolding register_written
  register_written-Keeps c v = ground (
    arith,
    write_stopped-Keeps c 1 (bit_and v 0xfffe) (omega arith),
    write_stopped-Keeps c 2 (bit_and v 0xff) (omega arith),
    write_stopped-Keeps c 3 (bit_and v 7) (omega arith),
    write_other-Keeps c v,
  )

  -- A write of a register other than CSR0 always succeeds, calls nothing, and keeps CSR0, RAP and
  -- the slots of the window.
  pub chip_wput_register :
      (c : Card) (v : ℕ)
      → 1 ≤ c.rap
      → (d : Card) × (chip_wput on_interrupt on_transmit 0 v c ≡ some d) × Keeps c d
  unfolding chip_wput register_written
  chip_wput_register c v h = (register_written c v, ground arith, register_written-Keeps c v)
