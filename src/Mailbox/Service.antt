-- ===== src/Mailbox/Service.antt =====
-- How the daemon of arm/src/main_ddr3.cpp serves the requests of the FPGA: the layout of a request,
-- its answer, and registers written and read back through the mailbox.
pub mod Roundtrip
use a.Base.{
  ℕ, ◌+◌, ◌*◌, ◌/◌, ◌%◌, ◌≤◌, ◌<◌, ◌≡◌, refl, arith, ap, ◌∙◌, ◌==◌, ltb, if◌then◌else◌, Bool, true,
  false, not, ◌&&◌,
}
use a.Base.{Array, bit_and, bit_or, bit_and_low, has, Option, some, ◌>>=◌, kept_if, ◌<<<◌}
use a.Types.{csr0_intr, csr0_inea, csr0_init, csr0_tdmd, csr0_strt}
use a.Card.{Card, csr0}
use a.Registers.{chip_wget, chip_wput}
use a.Registers.Access.{chip_wput_stopped}
use a.Doorbell.{rd64, wr64}
use a.Doorbell.Slots.{high_field}
use a.Mailbox.{
  mbx_req_off, assert_mbx_int, put, on_interrupt_cb, on_transmit_cb, req_rw, req_addr, req_data,
  req_result, respond, early_interrupt, after_write, service_bridge,
}

-- The words that the FPGA posts to have the port `addr` read, and `v` written to it.
abbrev pub asked_read : ℕ → ℕ
asked_read addr = 1 + 4 * addr

abbrev pub asked_write : ℕ → ℕ → ℕ
asked_write addr v = 3 + 4 * addr + 1024 * v

asked_read_fields :
    (addr : ℕ)
    → addr < 256
    → (has (asked_read addr) 1 ≡ true)
      × (req_rw (asked_read addr) ≡ false)
      × (req_addr (asked_read addr) ≡ addr)
unfolding req_rw req_addr has
asked_read_fields addr l = (
  ground (arith, bit_and_low 1 (asked_read addr)),
  ground (arith, bit_and_low 1 (asked_read addr / 2)),
  omega (arith, bit_and_low 8 (asked_read addr / 4)),
)

pub asked_write_fields :
    (addr v : ℕ)
    → addr < 256
    → v < 0x10000
    → (has (asked_write addr v) 1 ≡ true)
      × (req_rw (asked_write addr v) ≡ true)
      × (req_addr (asked_write addr v) ≡ addr)
      × (req_data (asked_write addr v) ≡ v)
unfolding req_rw req_addr req_data has
asked_write_fields addr v l b = (
  ground (arith, bit_and_low 1 (asked_write addr v)),
  ground (arith, bit_and_low 1 (asked_write addr v / 2)),
  omega (arith, bit_and_low 8 (asked_write addr v / 4)),
  omega (arith, bit_and_low 16 (asked_write addr v / 1024)),
)

answer : (result : ℕ) → bit_or 1 (result <<< 1) ≡ 1 + 2 * result
answer result = high_field 1 result 1 (omega arith) ∙ omega arith

-- The interrupt before the response, by what a read shows.
shown : (addr : ℕ) (c : Card) → Card
shown addr c =
    if (addr == 0) && has (chip_wget c addr) 0x80 && has (chip_wget c addr) 0x40
    then assert_mbx_int c
    else c

module _ (stack : Array) where
  service_bridge-read :
      (c : Card) (addr : ℕ)
      → addr < 256
      → rd64 0x8000 c ≡ asked_read addr
      → service_bridge stack c ≡ some (respond (chip_wget c addr) (shown addr c))
  unfolding service_bridge early_interrupt req_result shown
  service_bridge-read c addr l e = let f = asked_read_fields addr l in rw (e, f.0, f.1, f.2) refl

  -- The request to read a port is served without a fault: it is cleared, the response has the
  -- value from bit 1 on, registers and card memory are kept, and the interrupt is asserted for
  -- the data port when the value that is read has the bits of INTR and INEA, whichever register
  -- it is, and is left as it was otherwise.
  pub service_bridge_answers :
      (c : Card) (addr : ℕ)
      → addr < 256
      → rd64 0x8000 c ≡ asked_read addr
      → let v = chip_wget c addr in
        (d : Card) × (service_bridge stack c ≡ some d)
        × (rd64 0x8000 d ≡ 0)
        × (rd64 0x8008 d ≡ 1 + 2 * v)
        × (rd64 0x8020 d ≡ (if (addr == 0) && has v 0x80 && has v 0x40 then 1 else rd64 0x8020 c))
        × (d.csr ≡ c.csr)
        × (d.rap ≡ c.rap)
        × (d.boardram ≡ c.boardram)
  unfolding respond shown assert_mbx_int
  service_bridge_answers c addr l e =
      let v = chip_wget c addr in
      (
        respond v (shown addr c),
        service_bridge-read c addr l e,
        ground arith,
        ground (arith, answer v),
        ground arith,
        ground arith,
        ground arith,
        ground arith,
      )

  pub service_bridge-write :
      (c : Card) (addr v : ℕ)
      → addr < 256
      → v < 0x10000
      → rd64 0x8000 c ≡ asked_write addr v
      → service_bridge stack c ≡ (
          put stack addr v (respond 0 (early_interrupt (asked_write addr v) c)) >>= λ d.
          some (after_write addr v d))
  unfolding service_bridge req_result
  service_bridge-write c addr v l b e =
      let f = asked_write_fields addr v l b in rw (e, f.0, f.1, f.2, f.3) refl
