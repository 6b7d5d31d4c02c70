-- ===== src/Tests/Threads.antt =====
-- The two threads of the daemon of the DDR3 window, with a frame that comes before the chip is
-- initialized.
use a.Base.{◌≡◌, ◌≤◌, arith, refl, none, some, ◌&&◌, true, false, has}
use a.Card.{Card, csr0}
use a.Registers.{registers_reset, registers_set_fakemac}
use a.Registers.Init.{RingsInside}
use a.Rings.Receive.{gotfunc, rx_ready}
use a.Doorbell.{rd64, wr64, publish, packed_csrs, int_line}
use a.Doorbell.Slots.{posted}
use a.Doorbell.Startup.{start_up}
use a.Doorbell.Station.{daemon_set_default_mac, write_mbx_mac}
use a.Doorbell.Threads.{
  idle, reads_csrs, writes_shadow, reads_csr0, writes_line, publish_move, called, rx_move,
  poll_moves,
}
use a.Doorbell.Threads.Overlap.{Reach, begins, later, receives, posts, reachable_overlap}
use a.Doorbell.Threads.Ranges.{Bytewise, ReportsBytes, RunsOnBytes, reachable_typed}
use a.Registers.Typed.{Typed}
use a.Rings.Memory.{Bytes}
use a.Doorbell.Threads.Lost.{init_interrupt_lost}
use a.Ram.Bytes.{IsBytes}
use a.Tests.Data.{card, zeros, zeros-IsBytes, memory-IsBytes, fake-AllBytes, real-AllBytes}

-- The address of the card is all zero as the program begins.
abbrev fresh : Card
fresh = record card { fakemac = zeros }

abbrev begun : Card
begun = start_up zeros none 0 fresh

-- The frame is dropped, and the receive thread has published CSR0 to CSR3 and read CSR0 again.
abbrev shadowed : Card
shadowed = wr64 0x8010 (packed_csrs begun) begun

got : rx_move zeros zeros 60 idle begun ≡ some (reads_csrs, begun)
unfolding rx_move called gotfunc rx_ready has start_up publish write_mbx_mac daemon_set_default_mac
    registers_set_fakemac registers_reset
got = refl

low : int_line (csr0 shadowed) ≡ 0
unfolding int_line has start_up publish write_mbx_mac daemon_set_default_mac registers_set_fakemac
    registers_reset
low = refl

read : rx_move zeros zeros 60 reads_csr0 shadowed ≡ some (writes_line 0, shadowed)
unfolding rx_move publish_move
read = rw low refl

-- INIT and INEA are posted.
abbrev asked : Card
asked = wr64 0x8000 (posted 0 0x41) shadowed

asked-Reach : Reach fresh (record { card = asked; poll = idle; rx = writes_line 0 })
unfolding rx_move publish_move
asked-Reach =
    later
      (later
        (later
          (later (later (begins zeros none 0) (receives zeros zeros 60 got))
            (receives zeros zeros 60 {r = (writes_shadow (packed_csrs begun), begun)} refl))
          (receives zeros zeros 60 {r = (reads_csr0, shadowed)} refl))
        (receives zeros zeros 60 read))
      (posts (posted 0 0x41))

fresh-RingsInside : RingsInside fresh
fresh-RingsInside = record { receive = omega arith; transmit = omega arith }

reachable_overlap_example :
    (has (csr0 asked) 0x10 && has (csr0 asked) 4 ≡ false)
    × (has (csr0 asked) 0x20 && has (csr0 asked) 4 ≡ false)
    × (rd64 0x8018 asked ≤ 1)
    × RingsInside asked
reachable_overlap_example = reachable_overlap fresh-RingsInside asked-Reach

init_interrupt_lost_example :
    (d : Card) × Reach fresh (record { card = d; poll = idle; rx = idle })
    × (has (csr0 d) 0x80 ≡ true)
    × (has (csr0 d) 0x40 ≡ true)
    × (rd64 0x8018 d ≡ 0)
    × (poll_moves zeros 1000 idle d ≡ some (idle, d))
unfolding has start_up publish write_mbx_mac daemon_set_default_mac registers_set_fakemac
    registers_reset
init_interrupt_lost_example =
    init_interrupt_lost zeros 0x41 1000 asked-Reach (omega arith) refl refl refl refl refl refl refl
      refl refl

fresh-Typed : Typed fresh
fresh-Typed = record {
  csr = λ i. ground arith;
  rap = omega arith;
  mode = omega arith;
  ladrf = omega arith;
  rlen = omega arith;
  tlen = omega arith;
  rdra = omega arith;
  tdra = omega arith;
  fakemac = zeros-IsBytes;
}

fresh-Bytes : Bytes fresh
fresh-Bytes = record {
  ram = memory-IsBytes;
  buffer = zeros-IsBytes;
  fake = fake-AllBytes;
  real = real-AllBytes;
}

asked-RunsOnBytes : RunsOnBytes asked-Reach
unfolding RunsOnBytes Bytewise ReportsBytes asked-Reach
asked-RunsOnBytes = (((((((zeros-IsBytes, tt), framed), framed), framed), framed), tt))
  where
    framed : IsBytes zeros × IsBytes zeros
    framed = (zeros-IsBytes, zeros-IsBytes)

reachable_typed_example : Typed asked × Bytes asked
reachable_typed_example = reachable_typed asked-Reach asked-RunsOnBytes fresh-Typed fresh-Bytes
