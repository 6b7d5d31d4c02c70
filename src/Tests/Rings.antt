-- ===== src/Tests/Rings.antt =====
-- Frames that come in and go out.
use a.Base.{◌+◌, ◌-◌, ◌≤◌, ◌≡◌, arith, refl, Array, true}
use a.Base.{none, some, has, bit_or}
use a.Ram.{get_ram_byte, get_ram_word, put_ram_word, ram_read_block}
use a.Mac.{mungepacket}
use a.Mac.Frames.{mungepacket_twice}
use a.Card.{Card, csr0}
use a.Registers.{rethink, registers_csr0_set}
use a.Rings.Descriptor.{read_descriptor, buffer_addr}
use a.Rings.Receive.{append_crc, store_frame}
use a.Rings.Receive.Walk.{index, offset, current, Overruns}
use a.Rings.Receive.Ends.{store_frame_returns}
use a.Base.{◌⊎◌}
use a.Rings.Receive.Deliver.{store_frame_missed}
use a.Rings.Transmit.{Gathered, starts, tmd1_at, tx_scan, tx_gather, tx_fuel, tx_ready, do_transmit}
use a.Rings.Transmit.Gather.{tx_gather_returns}
use a.Rings.Transmit.Send.{IsFrame, tx_md, tx_frame, tx_left, do_transmit_sends}
use a.Tests.Data.{card, zeros, zeros-IsBytes, memory-IsBytes, unit, unit-IsUnit}

abbrev silent : Card → Card
silent c = c

-- The descriptor is the Amiga's.
abbrev full : Card
full = record card { boardram = zeros }

store_frame_missed_example :
    (e : Card) × (store_frame silent zeros 60 full ≡ some (rethink silent e))
    × (csr0 e ≡ bit_or (csr0 full) 0x1000)
    × (e.boardram ≡ put_ram_word zeros (offset full + 2) (current full).md1)
    × (e.rdr_offset ≡ index full)
unfolding has read_descriptor get_ram_word get_ram_byte
store_frame_missed_example = store_frame_missed silent zeros 60 full (omega arith) refl

store_frame_returns_example :
    ((e : Card) × (store_frame silent zeros 60 card ≡ some e))
    ⊎ (Overruns (append_crc zeros 60) 64 0 true card × (store_frame silent zeros 60 card ≡ none))
store_frame_returns_example =
    store_frame_returns silent zeros 60 card zeros-IsBytes memory-IsBytes (omega arith)

-- A frame to another station.
abbrev foreign : Array
foreign i = 2

tx_gather_returns_example :
    (g : Gathered) × (tx_gather tx_fuel 0 card ≡ some g) × (g.outsize ≤ 4096)
tx_gather_returns_example = tx_gather_returns card memory-IsBytes

card_frame : IsFrame card 0
unfolding has read_descriptor buffer_addr get_ram_word get_ram_byte put_ram_word ram_read_block
card_frame = record {
  inside = omega arith;
  owned = refl;
  ended = refl;
  at_least = omega arith;
  at_most = omega arith;
  no_loopback = refl;
  no_collision = refl;
  no_checksum = refl;
  elsewhere = refl;
}

-- The frame, which is no IPv4 frame, in its translation.
card_translated :
    (q : Array) × (mungepacket unit (tx_frame card 0) (65536 - (tx_md card 0).md2)
      ≡ some (65536 - (tx_md card 0).md2, q))
    × (mungepacket unit q (65536 - (tx_md card 0).md2)
        ≡ some (65536 - (tx_md card 0).md2, tx_frame card 0))
unfolding read_descriptor buffer_addr get_ram_word get_ram_byte put_ram_word ram_read_block
card_translated =
    mungepacket_twice unit unit-IsUnit (tx_frame card 0) (65536 - (tx_md card 0).md2) (omega arith)
      (omega arith)

do_transmit_sends_example :
    do_transmit silent zeros card
    ≡ some (true, rethink silent (registers_csr0_set 0x0200 (tx_left card 0 card_translated.0)))
unfolding tx_ready tx_scan starts tmd1_at has get_ram_word get_ram_byte put_ram_word
do_transmit_sends_example =
    do_transmit_sends card 0 silent zeros card_translated.0 (65536 - (tx_md card 0).md2) card_frame
      refl refl refl card_translated.1
