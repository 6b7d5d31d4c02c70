-- ===== src/Rings.antt =====
-- The parts of arm/src/rings.cpp that its two walks share: the descriptors in card memory.
pub mod Descriptor
pub mod Memory
pub mod Receive
pub mod Transmit
