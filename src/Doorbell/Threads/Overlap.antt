-- ===== src/Doorbell/Threads/Overlap.antt =====
-- Publications of the two threads of arm/src/main_doorbell.cpp that overlap.
use a.Base.{ℕ, ◌≤◌, ◌≡◌, refl, arith, ltb, false, Bool-cases, inl, inr}
use a.Base.{
  Array, Option, none, some, OnSome, OnSome-none, OnSome-some, OnSome-bind, has, ◌&&◌, kept_if,
}
use a.Card.{Card, csr0}
use a.Registers.Ignore.{Ignores, Ignores-Survives, chip_wput-Ignores}
use a.Registers.Init.{RingsInside}
use a.Registers.WellFormed.{WellFormed, WellFormed-Survives}
use a.Rings.Receive.{gotfunc}
use a.Rings.Receive.Preserve.{gotfunc-Survives}
use a.Rings.Transmit.Preserve.{do_transmit-Survives}
use a.Doorbell.{
  ddr3_cmd_off, rd64, wr64, int_line, publish, push_csr_shadow, update_int_state, on_interrupt_cb,
  on_transmit_cb, obey_cmd, cmd_rap, cmd_data,
}
use a.Doorbell.Startup.{start_up}
use a.Doorbell.Steps.{
  on_interrupt_cb-WellFormed, obey_cmd-WellFormed, slot-WellFormed, start_up-Sound,
}
use a.Doorbell.Threads.{
  Pc, idle, obeys, clears, reads_csrs, writes_shadow, reads_csr0, writes_line, publish_move, called,
  poll_move, rx_move,
}

pub record Threads : Type 0 where
  pub card : Card
  pub poll : Pc
  pub rx : Pc

-- A step of a thread, a write of the Amiga to card memory, and the FPGA's word in the CMD slot.
pub data Step (s : Threads) : Threads → Type 0 where
  polls :
      (stack : Array) {r : Pc × Card}
      → poll_move stack s.poll s.card ≡ some r
      → Step s (record { card = r.1; poll = r.0; rx = s.rx })
  receives :
      (stack rxbuf : Array) (len : ℕ) {r : Pc × Card}
      → rx_move stack rxbuf len s.rx s.card ≡ some r
      → Step s (record { card = r.1; poll = s.poll; rx = r.0 })
  stores : (ram : Array) → Step s (record s { card = record s.card { boardram = ram } })
  posts : (word : ℕ) → Step s (record s { card = wr64 ddr3_cmd_off word s.card })

pub data Reach (c : Card) : Threads → Type 0 where
  begins :
      (host_mac : Array) (eth0 : Option Array) (h : ℕ)
      → Reach c (record { card = start_up host_mac eth0 h c; poll = idle; rx = idle })
  later : {s t : Threads} → Reach c s → Step s t → Reach c t

-- The slot of the interrupt line has a zero or a one.
record LineBit (c : Card) : Type 0 where
  bit : rd64 0x8018 c ≤ 1

LineBit-Ignores : Ignores LineBit
LineBit-Ignores = record {
  chip =
      λ d csr fakemac ram buf rap mode ladrf rlen rdra tlen tdra len tdr rdr iter init mac frames h.
        record { bit = h.bit };
}

publish-LineBit : (c : Card) → LineBit (publish c)
unfolding publish push_csr_shadow update_int_state int_line
publish-LineBit c = record { bit = ground arith }

module _ (stack : Array) where
  on_interrupt_cb-LineBit : (c : Card) → LineBit c → LineBit (on_interrupt_cb c)
  unfolding on_interrupt_cb
  on_interrupt_cb-LineBit c h = publish-LineBit c

  on_transmit_cb-LineBit : (c : Card) → LineBit c → OnSome LineBit (on_transmit_cb stack c)
  unfolding on_transmit_cb
  on_transmit_cb-LineBit c h =
      OnSome-bind (λ r. LineBit r.1)
        (do_transmit-Survives (Ignores-Survives LineBit-Ignores) on_interrupt_cb
          on_interrupt_cb-LineBit stack c h)
        (λ r k. OnSome-some (publish-LineBit r.1))

  obey_cmd-LineBit : (cmd : ℕ) (c : Card) → LineBit c → OnSome LineBit (obey_cmd stack cmd c)
  unfolding obey_cmd
  obey_cmd-LineBit cmd c h =
      let put =
        chip_wput-Ignores LineBit-Ignores on_interrupt_cb (on_transmit_cb stack)
          on_interrupt_cb-LineBit on_transmit_cb-LineBit in
      OnSome-bind LineBit (put 2 (cmd_rap cmd) c h) (λ d k. put 0 (cmd_data cmd) d k)

-- What holds of the card, and of a value of the line that a thread has yet to write.
record Valid (c : Card) : Type 0 where
  formed : WellFormed c
  line : LineBit c

IsBit : Pc → Type 0
IsBit (writes_line val) = val ≤ 1
IsBit _ = Unit

record Moved (r : Pc × Card) : Type 0 where
  valid : Valid r.1
  bit : IsBit r.0

record Holds (s : Threads) : Type 0 where
  valid : Valid s.card
  poll : IsBit s.poll
  rx : IsBit s.rx

called-Moved : (pc : Pc) (o : Option Card) → IsBit pc → OnSome Valid o → OnSome Moved (called pc o)
unfolding called
called-Moved pc none b h = OnSome-none
called-Moved pc (some c) b h = OnSome-some (record { valid = h.holds c refl; bit = b })

publish_move-Moved : (pc : Pc) (c : Card) → IsBit pc → Valid c → Moved (publish_move pc c)
unfolding publish_move IsBit int_line
publish_move-Moved idle c b h = record { valid = h; bit = tt }
publish_move-Moved (obeys cmd) c b h = record { valid = h; bit = tt }
publish_move-Moved clears c b h = record { valid = h; bit = tt }
publish_move-Moved reads_csrs c b h = record { valid = h; bit = tt }
publish_move-Moved (writes_shadow w) c b h = record {
  valid = record { formed = slot-WellFormed c _ h.formed; line = record { bit = h.line.bit } };
  bit = tt;
}
publish_move-Moved reads_csr0 c b h = record { valid = h; bit = ground arith }
publish_move-Moved (writes_line v) c b h = record {
  valid = record { formed = slot-WellFormed c _ h.formed; line = record { bit = b } };
  bit = tt;
}

module _ (stack : Array) where
  obey_cmd-Valid : (cmd : ℕ) (c : Card) → Valid c → OnSome Valid (obey_cmd stack cmd c)
  obey_cmd-Valid cmd c h = record {
    holds = λ d e. record {
      formed = (obey_cmd-WellFormed stack cmd c h.formed).holds d e;
      line = (obey_cmd-LineBit stack cmd c h.line).holds d e;
    };
  }

  gotfunc-Valid :
      (rxbuf : Array) (len : ℕ) (c : Card)
      → Valid c
      → OnSome Valid (gotfunc on_interrupt_cb stack rxbuf len c)
  gotfunc-Valid rxbuf len c h =
      let formed : OnSome WellFormed (gotfunc on_interrupt_cb stack rxbuf len c) =
        gotfunc-Survives WellFormed-Survives on_interrupt_cb (on_interrupt_cb-WellFormed stack)
          stack rxbuf len c h.formed in
      let line : OnSome LineBit (gotfunc on_interrupt_cb stack rxbuf len c) =
        gotfunc-Survives (Ignores-Survives LineBit-Ignores) on_interrupt_cb
          (on_interrupt_cb-LineBit stack) stack rxbuf len c h.line in
      record { holds = λ d e. record { formed = formed.holds d e; line = line.holds d e } }

  poll_move-Moved : (pc : Pc) (c : Card) → IsBit pc → Valid c → OnSome Moved (poll_move stack pc c)
  unfolding poll_move IsBit
  poll_move-Moved idle c b h = OnSome-some (record { valid = h; bit = ground arith })
  poll_move-Moved (obeys cmd) c b h = called-Moved clears _ tt (obey_cmd-Valid cmd c h)
  poll_move-Moved clears c b h = OnSome-some (record {
    valid = record { formed = slot-WellFormed c _ h.formed; line = record { bit = h.line.bit } };
    bit = tt;
  })
  poll_move-Moved reads_csrs c b h = OnSome-some (publish_move-Moved reads_csrs c b h)
  poll_move-Moved (writes_shadow w) c b h = OnSome-some (publish_move-Moved (writes_shadow w) c b h)
  poll_move-Moved reads_csr0 c b h = OnSome-some (publish_move-Moved reads_csr0 c b h)
  poll_move-Moved (writes_line v) c b h = OnSome-some (publish_move-Moved (writes_line v) c b h)

  rx_move-Moved :
      (rxbuf : Array) (len : ℕ) (pc : Pc) (c : Card)
      → IsBit pc
      → Valid c
      → OnSome Moved (rx_move stack rxbuf len pc c)
  unfolding rx_move IsBit
  rx_move-Moved rxbuf len idle c b h =
      kept_if (OnSome Moved) (ltb 0 len)
        (called-Moved reads_csrs _ tt (gotfunc-Valid rxbuf len c h))
        (OnSome-some (record { valid = h; bit = tt }))
  rx_move-Moved rxbuf len (obeys cmd) c b h = OnSome-some (publish_move-Moved (obeys cmd) c b h)
  rx_move-Moved rxbuf len clears c b h = OnSome-some (publish_move-Moved clears c b h)
  rx_move-Moved rxbuf len reads_csrs c b h = OnSome-some (publish_move-Moved reads_csrs c b h)
  rx_move-Moved rxbuf len (writes_shadow w) c b h =
      OnSome-some (publish_move-Moved (writes_shadow w) c b h)
  rx_move-Moved rxbuf len reads_csr0 c b h = OnSome-some (publish_move-Moved reads_csr0 c b h)
  rx_move-Moved rxbuf len (writes_line v) c b h =
      OnSome-some (publish_move-Moved (writes_line v) c b h)

Step-Holds : {s t : Threads} → Step s t → Holds s → Holds t
Step-Holds {s} (polls stack e) h =
    let m = (poll_move-Moved stack s.poll s.card h.poll h.valid).holds _ e in
    record { valid = m.valid; poll = m.bit; rx = h.rx }
Step-Holds {s} (receives stack rxbuf len e) h =
    let m = (rx_move-Moved stack rxbuf len s.rx s.card h.rx h.valid).holds _ e in
    record { valid = m.valid; poll = h.poll; rx = m.bit }
Step-Holds {s} (stores ram) h =
    let c : Card = s.card in
    record {
      valid = record {
        formed =
            WellFormed-Survives.reads c ram c.transmitbuffer c.transmitlen c.tdr_offset c.rdr_offset
              c.loopback_iter c.sent h.valid.formed;
        line = record { bit = h.valid.line.bit };
      };
      poll = h.poll;
      rx = h.rx;
    }
Step-Holds {s} (posts word) h = record {
  valid = record {
    formed = slot-WellFormed s.card _ h.valid.formed;
    line = record { bit = h.valid.line.bit };
  };
  poll = h.poll;
  rx = h.rx;
}

Reach-Holds : {c : Card} {s : Threads} → RingsInside c → Reach c s → Holds s
unfolding IsBit start_up
Reach-Holds {c} r (begins host_mac eth0 h) = record {
  valid = record { formed = (start_up-Sound host_mac eth0 h c r).formed; line = publish-LineBit _ };
  poll = tt;
  rx = tt;
}
Reach-Holds r (later reach step) = Step-Holds step (Reach-Holds r reach)

pub Reach-WellFormed : {c : Card} {s : Threads} → RingsInside c → Reach c s → WellFormed s.card
Reach-WellFormed r reach = (Reach-Holds r reach).valid.formed

-- However the steps of the polling thread, the receive thread, the Amiga's writes to card memory
-- and the FPGA's commands follow each other, publications that overlap included, TXON and RXON
-- are clear if STOP is set, the slot of the interrupt line has a zero or a one, and both rings
-- begin inside card memory, where they did so as the program began.
pub reachable_overlap :
    {c : Card} {s : Threads}
    → RingsInside c
    → Reach c s
    → (has (csr0 s.card) 0x10 && has (csr0 s.card) 4 ≡ false)
      × (has (csr0 s.card) 0x20 && has (csr0 s.card) 4 ≡ false)
      × (rd64 0x8018 s.card ≤ 1)
      × RingsInside s.card
reachable_overlap {s} r reach =
    let h : Valid s.card = (Reach-Holds r reach).valid in
    elim (Bool-cases (has (csr0 s.card) 4)) [
      | inl e ↦ (
        ground (arith, (h.formed.halts e).0),
        ground (arith, (h.formed.halts e).1),
        h.line.bit,
        h.formed.rings,
      )
      | inr e ↦ (ground (arith, e), ground (arith, e), h.line.bit, h.formed.rings)
    ]
