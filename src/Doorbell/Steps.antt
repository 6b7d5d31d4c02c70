-- ===== src/Doorbell/Steps.antt =====
-- What the turns of the threads of arm/src/main_doorbell.cpp keep, and what they publish when nothing
-- comes between; the steps inside a turn are those of Doorbell.Threads.
use a.Base.{ℕ, ◌/◌, ◌<◌, ◌≡◌, refl, arith, ltb, true}
use a.Base.{Array, Option, OnSome, OnSome-some, OnSome-bind, bit_and_low, has}
use a.Card.{Card}
use a.Registers.{chip_wput, registers_reset, registers_set_fakemac}
use a.Registers.Init.{RingsInside}
use a.Registers.WellFormed.{WellFormed, WellFormed-Survives, chip_wput-WellFormed}
use a.Rings.Receive.Preserve.{gotfunc-Survives}
use a.Rings.Transmit.Preserve.{do_transmit-Survives}
use a.Doorbell.{
  ddr3_cmd_off, rd64, wr64, publish, push_csr_shadow, update_int_state, on_interrupt_cb,
  on_transmit_cb, poll_turn, rx_turn, obey_cmd, cmd_data, cmd_rap,
}
use a.Doorbell.Slots.{IsPublished, publish-IsPublished}
use a.Doorbell.Station.{daemon_set_default_mac, write_mbx_mac}
use a.Doorbell.Startup.{start_up}

-- The card is well formed, and what the FPGA reads is what the card holds.
pub record Sound (c : Card) : Type 0 where
  pub formed : WellFormed c
  pub published : IsPublished c

pub slot-WellFormed :
    (c : Card) (slot : Array) → WellFormed c → WellFormed (record c { slot = slot })
slot-WellFormed c slot h = record {
  halts = h.halts;
  words = h.words;
  rings = record { receive = h.rings.receive; transmit = h.rings.transmit };
}

publish-WellFormed : (c : Card) → WellFormed c → WellFormed (publish c)
unfolding publish push_csr_shadow update_int_state
publish-WellFormed c h = slot-WellFormed c _ h

publish-Sound : (c : Card) → WellFormed c → Sound (publish c)
publish-Sound c h = record { formed = publish-WellFormed c h; published = publish-IsPublished c }

module _ (stack : Array) where
  pub on_interrupt_cb-WellFormed : (c : Card) → WellFormed c → WellFormed (on_interrupt_cb c)
  unfolding on_interrupt_cb
  on_interrupt_cb-WellFormed c h = publish-WellFormed c h

  on_transmit_cb-WellFormed : (c : Card) → WellFormed c → OnSome WellFormed (on_transmit_cb stack c)
  unfolding on_transmit_cb
  on_transmit_cb-WellFormed c h =
      OnSome-bind (λ r. WellFormed r.1)
        (do_transmit-Survives WellFormed-Survives on_interrupt_cb on_interrupt_cb-WellFormed stack c
          h)
        (λ r k. OnSome-some (publish-WellFormed r.1 k))

  put-WellFormed :
      (reg_offset v : ℕ) (c : Card)
      → v < 0x10000
      → WellFormed c
      → OnSome WellFormed (chip_wput on_interrupt_cb (on_transmit_cb stack) reg_offset v c)
  put-WellFormed =
      chip_wput-WellFormed on_interrupt_cb (on_transmit_cb stack) on_interrupt_cb-WellFormed
        on_transmit_cb-WellFormed

  pub obey_cmd-WellFormed :
      (cmd : ℕ) (c : Card) → WellFormed c → OnSome WellFormed (obey_cmd stack cmd c)
  unfolding obey_cmd cmd_rap cmd_data
  obey_cmd-WellFormed cmd c h =
      OnSome-bind WellFormed
        (put-WellFormed 2 (cmd_rap cmd) c (omega (arith, bit_and_low 7 (cmd / 2))) h)
        (λ d k. put-WellFormed 0 (cmd_data cmd) d (omega (arith, bit_and_low 16 (cmd / 256))) k)

  -- A turn that finds a command, and one that receives a frame, publish what the card holds.
  pub poll_turn-Sound :
      (c : Card)
      → WellFormed c
      → has (rd64 ddr3_cmd_off c) 1 ≡ true
      → OnSome Sound (poll_turn stack c)
  unfolding poll_turn
  poll_turn-Sound c h e = rw e (
      OnSome-bind WellFormed (obey_cmd-WellFormed (rd64 ddr3_cmd_off c) c h)
        (λ d k. OnSome-some (publish-Sound (wr64 ddr3_cmd_off 0 d) (slot-WellFormed d _ k))))

  pub rx_turn-Sound :
      (rxbuf : Array) (len : ℕ) (c : Card)
      → WellFormed c
      → ltb 0 len ≡ true
      → OnSome Sound (rx_turn stack rxbuf len c)
  unfolding rx_turn
  rx_turn-Sound rxbuf len c h e = rw e (
      OnSome-bind WellFormed
        (gotfunc-Survives WellFormed-Survives on_interrupt_cb on_interrupt_cb-WellFormed stack rxbuf
          len c h)
        (λ d k. OnSome-some (publish-Sound d k)))

registers_reset-WellFormed : (c : Card) → RingsInside c → WellFormed (registers_reset c)
unfolding registers_reset has
registers_reset-WellFormed c h = record {
  halts = λ s. (refl, refl);
  words = λ i. ground arith;
  rings = record { receive = h.receive; transmit = h.transmit };
}

pub start_up-Sound :
    (host_mac : Array) (eth0 : Option Array) (h : ℕ) (c : Card)
    → RingsInside c
    → Sound (start_up host_mac eth0 h c)
unfolding start_up daemon_set_default_mac registers_set_fakemac write_mbx_mac registers_reset
start_up-Sound host_mac eth0 h c r =
    let w : WellFormed (registers_reset c) = registers_reset-WellFormed c r in
    publish-Sound _ (record {
      halts = w.halts;
      words = w.words;
      rings = record { receive = r.receive; transmit = r.transmit };
    })
