-- ===== src/Doorbell/Startup.antt =====
-- The daemon's way into its loop and out of it: `main` of arm/src/main_doorbell.cpp. What
-- `ethernet_open` has made of the socket is in `sock_open` already.
use a.Base.{ℕ, ◌≡◌, refl, false, Option, Array, has}
use a.Ethernet.{ethernet_close}
use a.Card.{Card, csr0}
use a.Registers.{registers_reset, registers_set_fakemac}
use a.Doorbell.{
  ddr3_cmd_off, ddr3_csr_off, ddr3_int_off, rd64, wr64, publish, push_csr_shadow, update_int_state,
  int_line,
}
use a.Doorbell.Slots.{IsPublished, publish-IsPublished}
use a.Doorbell.Station.{daemon_set_default_mac, mbx_mac, write_mbx_mac}

unfoldable pub start_up : Array → Option Array → ℕ → Card → Card
start_up host_mac eth0 h c =
    let cleared = wr64 ddr3_int_off 0 (wr64 ddr3_csr_off 0 (wr64 ddr3_cmd_off 0 c)) in
    let named = daemon_set_default_mac host_mac eth0 h (registers_reset cleared) in
    publish (write_mbx_mac named.fakemac named)

unfoldable pub shut_down : Card → Card
shut_down c = ethernet_close (wr64 ddr3_int_off 0 c)

-- When the loop begins the chip is stopped and not initialized, no command is pending, the
-- interrupt line is low, what the FPGA reads is what the card holds, and the MAC slot has the
-- station address.
pub start_up_lem :
    (host_mac : Array) (eth0 : Option Array) (h : ℕ) (c : Card)
    → let d = start_up host_mac eth0 h c in
      (csr0 d ≡ 4)
      × (d.am_initialized ≡ false)
      × (rd64 0x8000 d ≡ 0)
      × (rd64 0x8018 d ≡ 0)
      × IsPublished d
      × (rd64 0x8028 d ≡ mbx_mac d.fakemac)
unfolding start_up publish push_csr_shadow update_int_state write_mbx_mac daemon_set_default_mac
    registers_reset registers_set_fakemac int_line has
start_up_lem host_mac eth0 h c = (refl, refl, refl, refl, publish-IsPublished _, refl)
