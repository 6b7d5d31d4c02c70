-- ===== src/Doorbell.antt =====
-- arm/src/main_doorbell.cpp: the daemon of the flat DDR3 window. The FPGA posts a register write
-- in the CMD slot; the daemon obeys it and publishes CSR0 to CSR3 and the interrupt line. Offsets
-- of the slots are those of arm/include/a2065_ddr3_flat.h.
pub mod Slots
pub mod Station
pub mod SelfTest
pub mod Startup
pub mod Begin
pub mod Steps
pub mod Threads
use a.Base.{
  ℕ, ◌+◌, ◌*◌, ◌/◌, ◌%◌, ◌^◌, ◌==◌, ltb, if◌then◌else◌, Bool, true, false, ◌&&◌, Option, none, some,
  ◌>>=◌,
}
use a.Base.{Array, update, bit_and, bit_or, ◌<<<◌, ◌>>>◌, has}
use a.Types.{csr0_intr, csr0_inea, a2065_rap_off, a2065_rdp_off}
use a.Card.{Card, csr0}
use a.Registers.{registers_csr, chip_wput}
use a.Rings.Receive.{gotfunc}
use a.Rings.Transmit.{do_transmit}

abbrev pub ddr3_cmd_off : ℕ
ddr3_cmd_off = 0x8000

abbrev pub ddr3_csr_off : ℕ
ddr3_csr_off = 0x8010

abbrev pub ddr3_int_off : ℕ
ddr3_int_off = 0x8018

abbrev pub ddr3_mac_off : ℕ
ddr3_mac_off = 0x8028

abbrev pub rd64 : ℕ → Card → ℕ
rd64 off c = c.slot off

abbrev pub wr64 : ℕ → ℕ → Card → Card
wr64 off val c = record c { slot = update c.slot off val }

-- CSR0 to CSR3 in one word.
unfoldable pub packed_csrs : Card → ℕ
unfolding registers_csr
packed_csrs c =
    bit_or (bit_or (bit_or (csr0 c) (registers_csr 1 c <<< 16)) (registers_csr 2 c <<< 32))
      (registers_csr 3 c <<< 48)

unfoldable pub push_csr_shadow : Card → Card
push_csr_shadow c = wr64 ddr3_csr_off (packed_csrs c) c

unfoldable pub int_line : ℕ → ℕ
int_line v = if has v csr0_intr && has v csr0_inea then 1 else 0

unfoldable pub update_int_state : Card → Card
update_int_state c = wr64 ddr3_int_off (int_line (csr0 c)) c

unfoldable pub publish : Card → Card
unfolding push_csr_shadow update_int_state
publish c = update_int_state (push_csr_shadow c)

unfoldable pub on_interrupt_cb : Card → Card
unfolding publish
on_interrupt_cb c = publish c

-- The register and the value of a command.
unfoldable pub cmd_rap : ℕ → ℕ
cmd_rap cmd = bit_and (cmd >>> 1) 0x7f

unfoldable pub cmd_data : ℕ → ℕ
cmd_data cmd = bit_and (cmd >>> 8) 0xffff

-- `stack` is what the array `tmp` of `gotfunc` holds before it is filled.
module _ (stack : Array) where
  unfoldable pub on_transmit_cb : Card → Option Card
  on_transmit_cb c = do_transmit on_interrupt_cb stack c >>= λ r. some (publish r.1)

  -- One turn of `rx_thread`: `ethernet_recv` has returned `len` bytes in `rxbuf`.
  unfoldable pub rx_turn : Array → ℕ → Card → Option Card
  rx_turn rxbuf len c =
      if ltb 0 len
      then (gotfunc on_interrupt_cb stack rxbuf len c >>= λ d. some (publish d))
      else some c

  unfoldable pub obey_cmd : ℕ → Card → Option Card
  obey_cmd cmd c = chip_wput on_interrupt_cb on_transmit_cb a2065_rap_off (cmd_rap cmd) c >>= λ d.
      chip_wput on_interrupt_cb on_transmit_cb a2065_rdp_off (cmd_data cmd) d

  -- One turn of the polling loop of `main`.
  unfoldable pub poll_turn : Card → Option Card
  poll_turn c =
      let cmd = rd64 ddr3_cmd_off c in
      if has cmd 1 then (obey_cmd cmd c >>= λ d. some (publish (wr64 ddr3_cmd_off 0 d))) else some c

-- The idle counter of the polling loop and the nap it takes, in microseconds.
unfoldable pub backoff : Bool → ℕ → ℕ × ℕ
backoff true idle = (0, 0)
backoff false idle =
    if ltb idle 1000 then (idle + 1, 0) else if ltb idle 50000 then (idle + 1, 20) else (idle, 200)
