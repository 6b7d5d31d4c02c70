-- ===== src/Registers/Control.antt =====
-- A write of CSR0, flag by flag.
use a.Base.{ℕ, ◌≡◌, ◌≢◌, refl, arith, if◌then◌else◌, Bool, true, false, not, ◌&&◌, ◌||◌}
use a.Base.{bit_and, bit_or, update, has, flags, not16, Option, some, ◌>>=◌, ap, ◌∙◌}
use a.Registers.Interrupt.{pending, rethink_lem, csr0_rethought_intr, csr0_rethought_other}
use a.Card.{Card, csr0, with_csr0}
use a.Registers.{
  csr0_written, switch_on, obey, demand, write_csr0, chip_init, rethink, csr0_rethought, init_block,
}

-- A write of CSR0 sets INEA to the bit written, adds the commands INIT, STRT, STOP and TDMD,
-- acknowledges each of IDON, TINT, RINT, MERR, MISS, CERR and BABL that is written as a one and
-- no other, clears ERR, and keeps TXON, RXON and INTR.
pub csr0_written_flags :
    (old v : ℕ)
    → let w = csr0_written old v in
      (has w 0x40 ≡ has v 0x40)
      × (has w 1 ≡ (has old 1 || has v 1))
      × (has w 2 ≡ (has old 2 || has v 2))
      × (has w 4 ≡ (has old 4 || has v 4))
      × (has w 8 ≡ (has old 8 || has v 8))
      × (has w 0x100 ≡ (has old 0x100 && not (has v 0x100)))
      × (has w 0x200 ≡ (has old 0x200 && not (has v 0x200)))
      × (has w 0x400 ≡ (has old 0x400 && not (has v 0x400)))
      × (has w 0x800 ≡ (has old 0x800 && not (has v 0x800)))
      × (has w 0x1000 ≡ (has old 0x1000 && not (has v 0x1000)))
      × (has w 0x2000 ≡ (has old 0x2000 && not (has v 0x2000)))
      × (has w 0x4000 ≡ (has old 0x4000 && not (has v 0x4000)))
      × (has w 0x8000 ≡ false)
      × (has w 0x10 ≡ has old 0x10)
      × (has w 0x20 ≡ has old 0x20)
      × (has w 0x80 ≡ has old 0x80)
unfolding csr0_written
csr0_written_flags old v = (
  simp flags (ground arith),
  simp flags (ground arith),
  simp flags (ground arith),
  simp flags (ground arith),
  simp flags (ground arith),
  simp flags (ground arith),
  simp flags (ground arith),
  simp flags (ground arith),
  simp flags (ground arith),
  simp flags (ground arith),
  simp flags (ground arith),
  simp flags (ground arith),
  simp flags (ground arith),
  simp flags (ground arith),
  simp flags (ground arith),
  simp flags (ground arith),
)

-- The flags that switching on decides: STOP goes, and TXON and RXON come unless the mode
-- disables them.
pub switch_on_flags :
    (mode v : ℕ)
    → (has (switch_on mode v) 4 ≡ false)
      × (has (switch_on mode v) 0x10 ≡ (has v 0x10 || not (has mode 2)))
      × (has (switch_on mode v) 0x20 ≡ (has v 0x20 || not (has mode 1)))
      × (has (switch_on mode v) 1 ≡ has v 1)
      × (has (switch_on mode v) 8 ≡ has v 8)
unfolding switch_on
switch_on_flags mode v = (
  simp flags (unfold has in ground arith),
  simp flags (unfold has in ground arith),
  simp flags (unfold has in ground arith),
  simp flags (unfold has in ground arith),
  simp flags (unfold has in ground arith),
)

module _ (on_interrupt : Card → Card) (on_transmit : Card → Option Card) (c : Card) (v : ℕ) where
  abbrev written : Card
  written = with_csr0 c (csr0_written (csr0 c) v)

  obey_stop :
      has (csr0 c) 4 ≡ false
      → has v 4 ≡ true
      → obey (csr0 c) written ≡ record c { csr = update (update written.csr 0 4) 3 0 }
  unfolding obey
  obey_stop h k = ground (arith, csr0_written_flags (csr0 c) v)

  -- STOP, written while the chip is not stopped, halts it: CSR0 becomes STOP alone, CSR3 is
  -- cleared, and nothing else is touched, transmitted or reported.
  pub write_csr0_stop :
      has (csr0 c) 4 ≡ false
      → has v 4 ≡ true
      → (d : Card) × (write_csr0 on_interrupt on_transmit c v ≡ some d)
        × (csr0 d ≡ 4)
        × (d.csr 3 ≡ 0)
        × ((n : ℕ) → n ≢ 0 → n ≢ 3 → d.csr n ≡ c.csr n)
        × (d ≡ record c { csr = d.csr })
  unfolding write_csr0
  write_csr0_stop h k = (
    record c {
      csr = update (update (update (update c.csr 0 (csr0_written (csr0 c) v)) 0 4) 3 0) 0 4;
    },
    ap (λ x. demand on_transmit x >>= λ d. some (rethink on_interrupt d)) (obey_stop h k)
        ∙ unfold demand rethink csr0_rethought has in refl,
    refl,
    refl,
    λ n p q. ground arith,
    refl,
  )

  demand_idle : (d : Card) → has (csr0 d) 8 ≡ false → demand on_transmit d ≡ some d
  unfolding demand
  demand_idle d h = rw h refl

  -- CSR0 as INIT leaves it, before `rethink`.
  abbrev after_init : Card
  after_init =
      let e = chip_init written in
      record e {
        csr = update (update e.csr 0 (bit_and (bit_or (csr0 e) 0x100) (not16 0x34))) 3 0;
        am_initialized = true;
      }

  csr-chip_init : (d : Card) → (chip_init d).csr ≡ d.csr
  unfolding chip_init
  csr-chip_init d = refl

  obey_init :
      has (csr0 c) 4 ≡ true
      → has (csr0 c) 1 ≡ false
      → has (csr0 c) 2 ≡ false
      → has v 1 ≡ true
      → has v 2 ≡ false
      → obey (csr0 c) written ≡ after_init
  unfolding obey
  obey_init stopped fresh idle init no_start = ground (arith, csr0_written_flags (csr0 c) v)

  after_init_flags :
      (has (csr0 after_init) 0x100 ≡ true)
      × (has (csr0 after_init) 4 ≡ false)
      × (has (csr0 after_init) 0x10 ≡ false)
      × (has (csr0 after_init) 0x20 ≡ false)
      × (has (csr0 after_init) 8 ≡ (has (csr0 c) 8 || has v 8))
      × (has (csr0 after_init) 0x40 ≡ has v 0x40)
  after_init_flags = rw csr-chip_init (
    simp flags (unfold has in ground arith),
    simp flags (unfold has in ground arith),
    simp flags (unfold has in ground arith),
    simp flags (unfold has in ground arith),
    simp flags (ground (arith, csr0_written_flags (csr0 c) v, no_8)),
    simp flags (ground (arith, csr0_written_flags (csr0 c) v, no_40)),
  )
    where
      no_8 : has 0x100 8 ≡ false
      no_8 = unfold has in refl

      no_40 : has 0x100 0x40 ≡ false
      no_40 = unfold has in refl

  -- INIT, written without STRT and TDMD to the stopped chip that has none of the three set, reads
  -- the initialization block and leaves the chip initialized and not running: IDON and INTR are
  -- set, STOP, TXON and RXON are clear, INEA is the bit written, CSR3 is cleared, all else is as
  -- chip_init leaves it; nothing is transmitted, and it tells the daemon exactly when INEA is
  -- written too.
  pub write_csr0_init :
      has (csr0 c) 4 ≡ true
      → has (csr0 c) 1 ≡ false
      → has (csr0 c) 2 ≡ false
      → has (csr0 c) 8 ≡ false
      → has v 1 ≡ true
      → has v 2 ≡ false
      → has v 8 ≡ false
      → (d : Card) × (write_csr0 on_interrupt on_transmit c v
          ≡ some (if has v 0x40 then on_interrupt d else d))
        × (has (csr0 d) 0x100 ≡ true)
        × (has (csr0 d) 0x80 ≡ true)
        × (has (csr0 d) 4 ≡ false)
        × (has (csr0 d) 0x10 ≡ false)
        × (has (csr0 d) 0x20 ≡ false)
        × (has (csr0 d) 0x40 ≡ has v 0x40)
        × (d.csr 3 ≡ 0)
        × (d.am_initialized ≡ true)
        × (d ≡ record (chip_init c) { csr = d.csr; am_initialized = true })
  unfolding write_csr0
  write_csr0_init stopped fresh idle no_demand init no_start no_transmit = (
    d,
    ap (λ x. demand on_transmit x >>= λ y. some (rethink on_interrupt y))
          (obey_init stopped fresh idle init no_start)
        ∙ ap (λ x. x >>= λ y. some (rethink on_interrupt y))
            (demand_idle after_init (ground (arith, after_init_flags)))
        ∙ ap some (told ∙ rw due refl),
    kept 0x100 refl (after_init_flags.0),
    csr0_rethought_intr (csr0 after_init) ∙ is_pending,
    kept 4 refl (after_init_flags.1),
    kept 0x10 refl (after_init_flags.2),
    kept 0x20 refl (after_init_flags.3),
    kept 0x40 refl (after_init_flags.5),
    refl,
    refl,
    unfold chip_init init_block in refl,
  )
    where
      d : Card
      d = with_csr0 after_init (csr0_rethought (csr0 after_init))

      is_pending : pending (csr0 after_init) ≡ true
      is_pending = ground (arith, after_init_flags)

      told :
          rethink on_interrupt after_init
          ≡ (if pending (csr0 after_init) && has (csr0 after_init) 0x40 then on_interrupt d else d)
      told = (rethink_lem on_interrupt after_init).0

      due : (pending (csr0 after_init) && has (csr0 after_init) 0x40) ≡ has v 0x40
      due = ground (arith, is_pending, after_init_flags)

      kept :
          (m : ℕ) {b : Bool}
          → bit_and (not16 0x80) m ≡ m
          → has (csr0 after_init) m ≡ b
          → has (csr0 d) m ≡ b
      kept m e f = csr0_rethought_other (csr0 after_init) m e ∙ f
