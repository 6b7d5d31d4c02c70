-- ===== src/Bridge.antt =====
-- arm/src/main.cpp: the daemon of the older transport, whose window has single bytes and words of 16
-- bits (arm/include/a2065_bridge.h). The FPGA answers the 68k when DONE is set.
pub mod Interrupt
pub mod Begin
pub mod Client
use a.Base.{
  ℕ, ◌+◌, ◌*◌, ◌/◌, ◌%◌, ◌^◌, ◌==◌, ltb, leb, if◌then◌else◌, Bool, true, false, not, Option, some,
  ◌>>=◌, Array, slice, u8, u16,
}
use a.Mac.{mac_set_addresses}
use a.Card.{Card}
use a.Registers.{chip_wget, chip_wput, registers_reset, registers_set_fakemac}
use a.Ethernet.{ethernet_close}
use a.Rings.Receive.{gotfunc}
use a.Rings.Transmit.{do_transmit}
use a.Doorbell.{rd64, wr64}
use a.Doorbell.Station.{commodore_mac}

abbrev pub bridge_reg_data : ℕ
bridge_reg_data = 0x0

abbrev pub bridge_reg_addr : ℕ
bridge_reg_addr = 0x2

abbrev pub bridge_reg_rw : ℕ
bridge_reg_rw = 0x3

abbrev pub bridge_reg_new_req : ℕ
bridge_reg_new_req = 0x4

abbrev pub bridge_reg_done : ℕ
bridge_reg_done = 0x5

abbrev pub bridge_reg_result : ℕ
bridge_reg_result = 0x6

abbrev pub bridge_int_set : ℕ
bridge_int_set = 0x10

abbrev pub bridge_int_clr : ℕ
bridge_int_clr = 0x11

abbrev pub bridge_read8 : ℕ → Card → ℕ
bridge_read8 off c = u8 (rd64 off c)

abbrev pub bridge_read16 : ℕ → Card → ℕ
bridge_read16 off c = u16 (rd64 off c)

abbrev pub bridge_write8 : ℕ → ℕ → Card → Card
bridge_write8 off v c = wr64 off (u8 v) c

abbrev pub bridge_write16 : ℕ → ℕ → Card → Card
bridge_write16 off v c = wr64 off (u16 v) c

unfoldable pub on_interrupt_cb : Card → Card
on_interrupt_cb c = bridge_write8 bridge_int_set 1 c

-- The result is written, and the FPGA is told that it is there.
unfoldable pub finish : ℕ → Card → Card
finish result c = bridge_write8 bridge_reg_done 1 (bridge_write16 bridge_reg_result result c)

-- `stack` is what the array `tmp` of `gotfunc` holds before it is filled.
module _ (stack : Array) where
  unfoldable pub on_transmit_cb : Card → Option Card
  on_transmit_cb c = do_transmit on_interrupt_cb stack c >>= λ r. some r.1

  unfoldable pub rx_turn : Array → ℕ → Card → Option Card
  rx_turn rxbuf len c = if ltb 0 len then gotfunc on_interrupt_cb stack rxbuf len c else some c

  unfoldable pub service_bridge : Card → Option Card
  unfolding finish
  service_bridge c =
      let addr_off = bridge_read8 bridge_reg_addr c in
      let written =
        chip_wput on_interrupt_cb on_transmit_cb addr_off (bridge_read16 bridge_reg_data c) c
        >>= λ d. some (finish 0 d) in
      if bridge_read8 bridge_reg_new_req c == 0
      then some c
      else if not (bridge_read8 bridge_reg_rw c == 0)
      then written
      else some (finish (chip_wget c addr_off) c)

  -- One turn of the loop of `main`, with its counter `tx_poll_counter`.
  unfoldable pub loop_turn : ℕ × Card → Option (ℕ × Card)
  unfolding service_bridge on_transmit_cb
  loop_turn (count, c) = service_bridge c >>= λ d.
      let sent = on_transmit_cb d >>= λ e. some (0, e) in
      if leb 1000 (count + 1) then sent else some (count + 1, d)

-- `host_mac` is all zero in the mode of the simulation.
unfoldable pub daemon_set_default_mac : Array → Card → Card
daemon_set_default_mac host_mac c =
    let m = commodore_mac host_mac in
    registers_set_fakemac m (record c { mac = mac_set_addresses (slice m 0 6) (slice m 0 6) c.mac })

unfoldable pub start_up : Array → Card → Card
unfolding daemon_set_default_mac
start_up host_mac c = daemon_set_default_mac host_mac (registers_reset c)

unfoldable pub shut_down : Card → Card
shut_down c = ethernet_close c
