-- ===== src/Doorbell/Threads/Typed.antt =====
-- The variables of the daemon of arm/src/main_doorbell.cpp stay in the ranges of their C types,
-- with the steps of its threads in any order.
use a.Base.{ℕ, ◌/◌, refl, arith, ltb, Bool}
use a.Base.{
  Array, Option, none, some, OnSome, OnSome-none, OnSome-some, OnSome-bind, kept_if, bit_and_low,
}
use a.Card.{Card}
use a.Ram.Bytes.{IsBytes}
use a.Registers.Typed.{Typed, Typed-Survives}
use a.Registers.Typed.Write.{Sized, chip_wput-Sized}
use a.Rings.Memory.{Bytes}
use a.Rings.Receive.{gotfunc}
use a.Rings.Receive.Bytes.{gotfunc-Bytes}
use a.Rings.Receive.Preserve.{gotfunc-Survives}
use a.Rings.Transmit.{do_transmit}
use a.Rings.Transmit.Bytes.{do_transmit-Bytes}
use a.Rings.Transmit.Preserve.{do_transmit-Survives}
use a.Doorbell.{
  publish, push_csr_shadow, update_int_state, on_interrupt_cb, on_transmit_cb, obey_cmd, cmd_rap,
  cmd_data,
}
use a.Doorbell.Threads.{
  Pc, idle, obeys, clears, reads_csrs, writes_shadow, reads_csr0, writes_line, publish_move, called,
  poll_move, rx_move,
}

slot-Typed : (c : Card) (slot : Array) → Typed c → Typed (record c { slot = slot })
slot-Typed c slot h = record {
  csr = h.csr;
  rap = h.rap;
  mode = h.mode;
  ladrf = h.ladrf;
  rlen = h.rlen;
  tlen = h.tlen;
  rdra = h.rdra;
  tdra = h.tdra;
  fakemac = h.fakemac;
}

slot-Bytes : (c : Card) (slot : Array) → Bytes c → Bytes (record c { slot = slot })
slot-Bytes c slot h = record { ram = h.ram; buffer = h.buffer; fake = h.fake; real = h.real }

pub slot-Sized : (c : Card) (slot : Array) → Sized c → Sized (record c { slot = slot })
slot-Sized c slot h = record {
  typed = slot-Typed c slot h.typed;
  bytes = slot-Bytes c slot h.bytes;
}

publish-Typed : (c : Card) → Typed c → Typed (publish c)
unfolding publish push_csr_shadow update_int_state
publish-Typed c h = slot-Typed c _ h

publish-Bytes : (c : Card) → Bytes c → Bytes (publish c)
unfolding publish push_csr_shadow update_int_state
publish-Bytes c h = slot-Bytes c _ h

pub publish-Sized : (c : Card) → Sized c → Sized (publish c)
publish-Sized c h = record { typed = publish-Typed c h.typed; bytes = publish-Bytes c h.bytes }

module _ (stack : Array) (b : IsBytes stack) where
  told-Typed : (c : Card) → Typed c → Typed (on_interrupt_cb c)
  unfolding on_interrupt_cb
  told-Typed c h = publish-Typed c h

  told-Bytes : (c : Card) → Bytes c → Bytes (on_interrupt_cb c)
  unfolding on_interrupt_cb
  told-Bytes c h = publish-Bytes c h

  told-Sized : (c : Card) → Sized c → Sized (on_interrupt_cb c)
  told-Sized c h = record { typed = told-Typed c h.typed; bytes = told-Bytes c h.bytes }

  do_transmit-Sized :
      (c : Card)
      → Sized c
      → OnSome (λ (r : Bool × Card). Sized r.1) (do_transmit on_interrupt_cb stack c)
  do_transmit-Sized c h =
      let typed : OnSome (λ (r : Bool × Card). Typed r.1) (do_transmit on_interrupt_cb stack c) =
        do_transmit-Survives Typed-Survives on_interrupt_cb told-Typed stack c h.typed in
      let bytes : OnSome (λ (r : Bool × Card). Bytes r.1) (do_transmit on_interrupt_cb stack c) =
        do_transmit-Bytes on_interrupt_cb told-Bytes stack b c h.bytes in
      record { holds = λ r e. record { typed = typed.holds r e; bytes = bytes.holds r e } }

  gotfunc-Sized :
      (rxbuf : Array) (len : ℕ) (c : Card)
      → IsBytes rxbuf
      → Sized c
      → OnSome Sized (gotfunc on_interrupt_cb stack rxbuf len c)
  gotfunc-Sized rxbuf len c r h =
      let typed : OnSome Typed (gotfunc on_interrupt_cb stack rxbuf len c) =
        gotfunc-Survives Typed-Survives on_interrupt_cb told-Typed stack rxbuf len c h.typed in
      let bytes : OnSome Bytes (gotfunc on_interrupt_cb stack rxbuf len c) =
        gotfunc-Bytes on_interrupt_cb told-Bytes stack rxbuf len c b r h.bytes in
      record { holds = λ d e. record { typed = typed.holds d e; bytes = bytes.holds d e } }

  on_transmit_cb-Sized : (c : Card) → Sized c → OnSome Sized (on_transmit_cb stack c)
  unfolding on_transmit_cb
  on_transmit_cb-Sized c h =
      OnSome-bind (λ (r : Bool × Card). Sized r.1) (do_transmit-Sized c h)
        (λ r k. OnSome-some (publish-Sized r.1 k))

  obey_cmd-Sized : (cmd : ℕ) (c : Card) → Sized c → OnSome Sized (obey_cmd stack cmd c)
  unfolding obey_cmd cmd_rap cmd_data
  obey_cmd-Sized cmd c h =
      let put =
        chip_wput-Sized on_interrupt_cb (on_transmit_cb stack) told-Sized on_transmit_cb-Sized in
      OnSome-bind Sized (put 2 (cmd_rap cmd) c (omega (arith, bit_and_low 7 (cmd / 2))) h)
        (λ d k. put 0 (cmd_data cmd) d (omega (arith, bit_and_low 16 (cmd / 256))) k)

  called-Sized :
      (pc : Pc) (o : Option Card)
      → OnSome Sized o
      → OnSome (λ (r : Pc × Card). Sized r.1) (called pc o)
  unfolding called
  called-Sized pc none h = OnSome-none
  called-Sized pc (some c) h = OnSome-some (h.holds c refl)

  publish_move-Sized : (pc : Pc) (c : Card) → Sized c → Sized (publish_move pc c).1
  unfolding publish_move
  publish_move-Sized idle c h = h
  publish_move-Sized (obeys cmd) c h = h
  publish_move-Sized clears c h = h
  publish_move-Sized reads_csrs c h = h
  publish_move-Sized (writes_shadow w) c h = slot-Sized c _ h
  publish_move-Sized reads_csr0 c h = h
  publish_move-Sized (writes_line v) c h = slot-Sized c _ h

  pub poll_move-Sized :
      (pc : Pc) (c : Card) → Sized c → OnSome (λ (r : Pc × Card). Sized r.1) (poll_move stack pc c)
  unfolding poll_move
  poll_move-Sized idle c h = OnSome-some h
  poll_move-Sized (obeys cmd) c h = called-Sized clears _ (obey_cmd-Sized cmd c h)
  poll_move-Sized clears c h = OnSome-some (slot-Sized c _ h)
  poll_move-Sized reads_csrs c h = OnSome-some (publish_move-Sized reads_csrs c h)
  poll_move-Sized (writes_shadow w) c h = OnSome-some (publish_move-Sized (writes_shadow w) c h)
  poll_move-Sized reads_csr0 c h = OnSome-some (publish_move-Sized reads_csr0 c h)
  poll_move-Sized (writes_line v) c h = OnSome-some (publish_move-Sized (writes_line v) c h)

  pub rx_move-Sized :
      (rxbuf : Array) (len : ℕ) (pc : Pc) (c : Card)
      → IsBytes rxbuf
      → Sized c
      → OnSome (λ (r : Pc × Card). Sized r.1) (rx_move stack rxbuf len pc c)
  unfolding rx_move
  rx_move-Sized rxbuf len idle c r h =
      kept_if (OnSome (λ (r : Pc × Card). Sized r.1)) (ltb 0 len)
        (called-Sized reads_csrs _ (gotfunc-Sized rxbuf len c r h)) (OnSome-some h)
  rx_move-Sized rxbuf len (obeys cmd) c r h = OnSome-some (publish_move-Sized (obeys cmd) c h)
  rx_move-Sized rxbuf len clears c r h = OnSome-some (publish_move-Sized clears c h)
  rx_move-Sized rxbuf len reads_csrs c r h = OnSome-some (publish_move-Sized reads_csrs c h)
  rx_move-Sized rxbuf len (writes_shadow w) c r h =
      OnSome-some (publish_move-Sized (writes_shadow w) c h)
  rx_move-Sized rxbuf len reads_csr0 c r h = OnSome-some (publish_move-Sized reads_csr0 c h)
  rx_move-Sized rxbuf len (writes_line v) c r h =
      OnSome-some (publish_move-Sized (writes_line v) c h)
