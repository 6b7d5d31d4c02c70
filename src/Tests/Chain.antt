-- ===== src/Tests/Chain.antt =====
-- A frame of 70 bytes in two transmit buffers.
use a.Base.{◌≡◌, arith, refl, Array, List, [], ◌∷◌, true, has, slice}
use a.Base.{some}
use a.Ram.{get_ram_byte, get_ram_word, put_ram_word, ram_read_block}
use a.Ram.Bytes.{IsBytes, put_ram_word-IsBytes}
use a.Mac.{mungepacket}
use a.Mac.Frames.{mungepacket_twice}
use a.Card.{Card}
use a.Registers.{rethink, registers_csr0_set}
use a.Rings.Descriptor.{Descriptor, read_descriptor, buffer_addr}
use a.Rings.Transmit.{starts, tmd1_at, tx_scan, tx_ready, do_transmit}
use a.Rings.Transmit.Chain.{IsChain, Clear, last, next, chain_buffer}
use a.Rings.Transmit.Chain.Gather.{Released}
use a.Rings.Transmit.Chain.Send.{do_transmit_chain}
use a.Tests.Data.{card, zeros, zeros-IsBytes, unit, unit-IsUnit}

-- Forty bytes at 0x2000 and thirty at 0x2800, behind the descriptors at 0x200 and 0x208.
abbrev first_memory : Array
first_memory =
    put_ram_word (put_ram_word (put_ram_word zeros 0x200 0x2000) 0x202 0x8200) 0x204 0xffd8

abbrev chained_memory : Array
chained_memory =
    put_ram_word (put_ram_word (put_ram_word first_memory 0x208 0x2800) 0x20a 0x8100) 0x20c 0xffe2

chained_memory-IsBytes : IsBytes chained_memory
chained_memory-IsBytes = put_ram_word-IsBytes _ 0x20c 0xffe2 (
    put_ram_word-IsBytes _ 0x20a 0x8100 (
      put_ram_word-IsBytes _ 0x208 0x2800 (
        put_ram_word-IsBytes _ 0x204 0xffd8 (
          put_ram_word-IsBytes _ 0x202 0x8200
            (put_ram_word-IsBytes zeros 0x200 0x2000 zeros-IsBytes)))))

abbrev chaining : Card
chaining = record card { boardram = chained_memory; am_tdr_tlen = 2 }

abbrev parts : List Descriptor
parts =
    record { md0 = 0x2000; md1 = 0x8200; md2 = 0xffd8; md3 = 0 }
    ∷ record { md0 = 0x2800; md1 = 0x8100; md2 = 0xffe2; md3 = 0 }
    ∷ []

chaining-IsChain : IsChain 0x200 2 chained_memory 0 0 parts
unfolding has read_descriptor buffer_addr get_ram_word get_ram_byte put_ram_word Clear
chaining-IsChain =
    next (record { inside = omega arith; reads = refl; own = refl; room = omega arith }) refl
      (
        λ a p q. (
          λ e. omega (arith, e),
          λ e. omega (arith, e),
          λ e. omega (arith, e),
          λ e. omega (arith, e),
        ),
        λ a p q. (
          λ e. omega (arith, e),
          λ e. omega (arith, e),
          λ e. omega (arith, e),
          λ e. omega (arith, e),
        ),
        tt,
      )
      (last (record { inside = omega arith; reads = refl; own = refl; room = omega arith }) refl
        (omega arith))

translated :
    (q : Array) × (mungepacket unit (chain_buffer chained_memory parts 0 zeros) 70 ≡ some (70, q))
    × (mungepacket unit q 70 ≡ some (70, chain_buffer chained_memory parts 0 zeros))
unfolding chain_buffer buffer_addr get_ram_word get_ram_byte put_ram_word ram_read_block
translated =
    mungepacket_twice unit unit-IsUnit (chain_buffer chained_memory parts 0 zeros) 70 (omega arith)
      (omega arith)

silent : Card → Card
silent c = c

do_transmit_chain_example :
    (d : Card) × (do_transmit silent zeros chaining
      ≡ some (true, rethink silent (registers_csr0_set 0x0200 d)))
    × (d.sent ≡ slice translated.0 0 70 ∷ [])
    × Released 0x200 2 d.boardram 0 parts
unfolding tx_ready tx_scan starts tmd1_at has get_ram_word get_ram_byte put_ram_word chain_buffer
    ram_read_block buffer_addr
do_transmit_chain_example =
    do_transmit_chain silent zeros translated.0 70 0 chaining parts chaining-IsChain (omega arith)
      chained_memory-IsBytes refl refl refl refl refl refl refl translated.1
