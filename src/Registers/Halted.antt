-- ===== src/Registers/Halted.antt =====
-- The stopped chip neither transmits nor receives: while STOP is set, TXON and RXON are clear.
use a.Base.{ℕ, ◌≡◌, refl, arith, ◌==◌, if◌then◌else◌, true, false, not}
use a.Base.{
  bit_and, bit_or, not16, has, flags, has-or, has-and, Option, some, ap, ◌∙◌, >>=-eq-some,
  Bool-cases, inl, inr, sym,
}
use mathlib.Core.Path.{subst}
use mathlib.Core.Option.{some-injective}
use a.Card.{Card, csr0, with_csr0}
use a.Registers.{
  csr0_written, switch_on, obey, demand, demand_done, write_csr0, chip_wput, chip_init,
  chip_init_mask, rethink, csr0_rethought,
}
use a.Registers.Access.{Keeps, chip_wput_register}
use a.Registers.Control.{csr0_written_flags, switch_on_flags}
use a.Registers.Interrupt.{csr0_rethought_kept}

-- The value of CSR0 belongs to a chip that is running or halted.
abbrev pub Halts : ℕ → Type 0
Halts v = has v 4 ≡ true → (has v 0x10 ≡ false) × (has v 0x20 ≡ false)

pub returned-Halts : (c d : Card) → some c ≡ some d → Halts (csr0 c) → Halts (csr0 d)
returned-Halts c d e h = subst (λ x. Halts (csr0 x)) (some-injective c d e) h

pub obey-Halts :
    (c : Card) (v : ℕ)
    → Halts (csr0 c)
    → Halts (csr0 (obey (csr0 c) (with_csr0 c (csr0_written (csr0 c) v))))
unfolding obey chip_init chip_init_mask
obey-Halts c v h s = (ground (arith, facts), ground (arith, facts))
  where
    w : ℕ
    w = csr0_written (csr0 c) v

    facts :
        (has (switch_on c.am_mode w) 4 ≡ false)
        × (has (bit_or (switch_on c.am_mode w) 0x100) 4 ≡ false)
        × (has (bit_and (bit_or w 0x100) (not16 0x34)) 4 ≡ false)
        × (has 4 0x10 ≡ false)
        × (has 4 0x20 ≡ false)
        × (has w 0x10 ≡ has (csr0 c) 0x10)
        × (has w 0x20 ≡ has (csr0 c) 0x20)
    facts = (
      (switch_on_flags c.am_mode w).0,
      rw has-or (rw (switch_on_flags c.am_mode w).0 (unfold has in refl)),
      simp flags refl,
      unfold has in refl,
      unfold has in refl,
      (csr0_written_flags (csr0 c) v).13,
      (csr0_written_flags (csr0 c) v).14,
    )

pub kept_flag : (v m : ℕ) → bit_and (not16 0x80) m ≡ m → has (csr0_rethought v) m ≡ has v m
kept_flag v m e =
    sym (has-and (csr0_rethought v) (not16 0x80) m ∙ ap (has (csr0_rethought v)) e)
    ∙ ap (λ x. has x m) (csr0_rethought_kept v)
    ∙ has-and v (not16 0x80) m
    ∙ ap (has v) e

rethought-Halts : (v : ℕ) → Halts v → Halts (csr0_rethought v)
rethought-Halts v h = rw (kept_flag v 4 refl, kept_flag v 0x10 refl, kept_flag v 0x20 refl) h

pub done-Halts : (v : ℕ) → Halts v → Halts (bit_and v (not16 8))
done-Halts v h = simp flags h

unfoldable pub switched_on : Card → Card
switched_on c = if not (has (csr0 c) 0x10) then with_csr0 c (switch_on c.am_mode (csr0 c)) else c

pub switched_on-Halts : (c : Card) → Halts (csr0 c) → Halts (csr0 (switched_on c))
unfolding switched_on
switched_on-Halts c h s = (
  ground (arith, h, (switch_on_flags c.am_mode (csr0 c)).0),
  ground (arith, h, (switch_on_flags c.am_mode (csr0 c)).0),
)

-- What the callbacks of the daemon may do to CSR0: the report of an interrupt leaves it, and a
-- transmission does not halt the chip with a flag on.
module _ (on_interrupt : Card → Card) (on_transmit : Card → Option Card)
    (reports : (c : Card) → csr0 (on_interrupt c) ≡ csr0 c)
    (transmits : (c d : Card) → Halts (csr0 c) → on_transmit c ≡ some d → Halts (csr0 d)) where
  rethink-Halts : (c : Card) → Halts (csr0 c) → Halts (csr0 (rethink on_interrupt c))
  unfolding rethink
  rethink-Halts c h =
      ground (arith, rethought-Halts (csr0 c) h, reports (with_csr0 c (csr0_rethought (csr0 c))))

  transmitted-Halts :
      (c d : Card)
      → Halts (csr0 c)
      → (if c.am_initialized then on_transmit (switched_on c) else some c) ≡ some d
      → Halts (csr0 d)
  transmitted-Halts c d h e = elim (Bool-cases c.am_initialized) [
    | inl i ↦ transmits (switched_on c) d (switched_on-Halts c h) (ground arith)
    | inr i ↦ returned-Halts c d (ground arith) h
  ]

  demand-Halts : (c d : Card) → Halts (csr0 c) → demand on_transmit c ≡ some d → Halts (csr0 d)
  unfolding demand demand_done switched_on
  demand-Halts c d h e = elim (Bool-cases (has (csr0 c) 8)) [
    | inl t ↦
        let w : (x : Card) × ((if c.am_initialized then on_transmit (switched_on c) else some c)
              ≡ some x)
            × (some (with_csr0 x (bit_and (csr0 x) (not16 8))) ≡ some d) =
          >>=-eq-some _ _ (ground (arith, e)) in
        returned-Halts (with_csr0 w.0 (bit_and (csr0 w.0) (not16 8))) d w.2
          (done-Halts (csr0 w.0) (transmitted-Halts c w.0 h w.1))
    | inr t ↦ returned-Halts c d (ground (arith, e)) h
  ]

  write_csr0-Halts :
      (c d : Card) (v : ℕ)
      → Halts (csr0 c)
      → write_csr0 on_interrupt on_transmit c v ≡ some d
      → Halts (csr0 d)
  unfolding write_csr0
  write_csr0-Halts c d v h e =
      let obeyed : Card = obey (csr0 c) (with_csr0 c (csr0_written (csr0 c) v)) in
      let w : (x : Card) × (demand on_transmit obeyed ≡ some x)
          × (some (rethink on_interrupt x) ≡ some d) =
        >>=-eq-some (demand on_transmit obeyed) (λ x. some (rethink on_interrupt x)) e in
      returned-Halts (rethink on_interrupt w.0) d w.2
        (rethink-Halts w.0 (demand-Halts obeyed w.0 (obey-Halts c v h) w.1))

  -- While STOP is set TXON and RXON are clear, and every write of a register keeps it so, if what
  -- the daemon does on a transmission keeps it so and its report of an interrupt leaves CSR0.
  pub chip_wput-Halts :
      (c d : Card) (reg_offset v : ℕ)
      → Halts (csr0 c)
      → chip_wput on_interrupt on_transmit reg_offset v c ≡ some d
      → Halts (csr0 d)
  unfolding chip_wput
  chip_wput-Halts c d reg_offset v h e = elim (Bool-cases (reg_offset == 2)) [
    | inl r ↦ returned-Halts (record c { rap = bit_and v 0x7f }) d (ground (arith, e)) h
    | inr r ↦ elim (Bool-cases (c.rap == 0)) [
      | inl z ↦ write_csr0-Halts c d v h (ground (arith, e))
      | inr z ↦
          let w : (x : Card) × (chip_wput on_interrupt on_transmit 0 v c ≡ some x) × Keeps c x =
            chip_wput_register on_interrupt on_transmit c v (ground arith) in
          let off : reg_offset == 2 ≡ false = r in
          returned-Halts w.0 d (sym w.1 ∙ ground (arith, e)) (rw w.2.0 h)
    ]
  ]
