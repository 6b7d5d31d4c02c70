-- ===== src/Tests.antt =====
-- The theorems at concrete inputs: a card with one receive and one transmit descriptor, frames, and
-- words of memory.
mod Data
mod Memory
mod Packets
mod Control
mod Rings
mod Daemon
mod Steps
mod Mailbox
mod Remote
mod Bridge
mod Socket
mod Threads
mod Chain
