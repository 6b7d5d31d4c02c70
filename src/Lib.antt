-- ===== src/Lib.antt =====
-- The ARM daemon of the A2065 Ethernet card: an Am7990 LANCE that is emulated in software behind a
-- DDR3 window which the 68k, through the FPGA, and the daemon share.
--
-- How the parts work together. The FPGA posts each register write of the 68k in the CMD slot of the
-- window. The polling loop (arm/src/main_doorbell.cpp) hands it to the registers
-- (arm/src/registers.cpp), which keep CSR0 to CSR127 and call back on an interrupt and on a
-- transmission. Transmission and reception (arm/src/rings.cpp) walk rings of descriptors in card
-- memory (arm/include/boardram_access.h), translate station addresses (arm/src/mac.cpp), add the
-- checksum (arm/src/crc32.cpp) and hand frames to the socket (arm/src/ethernet.cpp). After each
-- turn CSR0 to CSR3 and the interrupt line are published in the window. The daemon of the mailbox
-- (arm/src/main_ddr3.cpp) puts the same registers and rings behind slots in which the FPGA posts
-- reads too and waits for the response; it holds and refreshes the interrupt line, defers writes
-- that arrive while it waits for card memory, and tries transmissions again.
--
-- Which file models which part:
--   Types       arm/include/a2065_types.h: flags, sizes, addresses
--   Ram         arm/include/boardram_access.h without BOARDRAM_REMOTE: bytes, words, blocks
--   Crc         arm/src/crc32.cpp; Crc.Reference has the bit-by-bit CRC it is compared with
--   Mac         arm/src/mac.cpp: mungepacket; MacUnit is the pair of static addresses
--   Card        the static variables of all files in one record
--   Registers   arm/src/registers.cpp: chip_wput, chip_wget, chip_init, rethink, registers_reset
--   Ethernet    arm/src/ethernet.cpp: ethernet_send and ethernet_close on the card; Ethernet.Socket
--               has the socket itself, Ethernet.Open what ethernet_open promises
--   Rings       arm/src/rings.cpp: gotfunc (Rings.Receive), do_transmit (Rings.Transmit)
--   Doorbell    arm/src/main_doorbell.cpp and arm/include/a2065_ddr3_flat.h; Doorbell.Steps has
--               what its turns keep, Doorbell.Threads the steps inside a turn between which the
--               threads change, with the Amiga and the FPGA, Doorbell.Begin its beginning
--   Mailbox     arm/src/main_ddr3.cpp; Mailbox.Queue has the ring of deferred writes as a queue,
--               Mailbox.Steps its turns, the FPGA and the Amiga as steps
--   Remote      arm/src/boardram_remote.cpp, arm/include/boardram_access.h with BOARDRAM_REMOTE, and
--               the self test of arm/src/main_ddr3.cpp (Remote.SelfTest)
--   Bridge      arm/src/main.cpp and arm/include/a2065_bridge.h, the older transport; Bridge.Begin has
--               its beginning, Bridge.Client the exchange of arm/src/bridge_client.cpp with it
--   Base, Tests shared helpers, and the examples
--
-- Conventions. A byte array is a function from indices; a machine word is a natural number whose
-- wrap-around is written out. A static variable is a field of Card, and an operation takes the card
-- and returns the new one. `none` is an access outside an array of 4096 bytes, where the source has
-- no defined behaviour. The callbacks that registers.cpp is given are parameters, and so are what
-- the kernel answers (descriptors, a received frame, hardware addresses, host name, process number, time) and
-- the contents of the array tmp of gotfunc before it is filled (`stack`).
--
-- Fuel. fold_sum makes three rounds, more than a 32-bit sum needs. The loop of do_transmit has 4098
-- rounds and that of gotfunc one more than the frame has bytes: each round but the last takes at
-- least one byte, as a buffer has at least one. The loop over the deferred writes has eight rounds:
-- its ring holds seven, and none is added while it runs as long as card memory is at hand. The exchange with remote card memory has
-- the source's three attempts of 10000 polls.
--
-- Not modelled: debug output and the reading of arguments; what happens inside a call of the chip
-- under the lock, which is one step, and in the daemons of the mailbox and of the older transport
-- the interleaving inside a turn: there a turn of the loop or of the receive thread is one step, so
-- what is said of sequences of turns is said of runs in which they do not overlap. In the daemon of
-- the mailbox the rings and the registers find card memory at hand, as they do while no request is
-- posted during an exchange: Remote has the exchange itself, with what the FPGA does before each
-- poll as a parameter and the daemon's service between the polls.
-- Neither modelled: pauses; the functions of ethernet.cpp for systems without Linux; mapping the
-- window (arm/src/bridge.cpp, bridge_ddr3.cpp); the other diagnostic tools; the FPGA design under fpga.
pub mod Base
pub mod Types
pub mod Ram
pub mod Crc
pub mod Mac
pub mod Card
pub mod Registers
pub mod Ethernet
pub mod Rings
pub mod Doorbell
pub mod Mailbox
pub mod Remote
pub mod Bridge
pub mod Tests
