-- ===== src/Card.antt =====
-- The static variables of arm/src/registers.cpp, rings.cpp, mac.cpp, ethernet.cpp
-- and main_ddr3.cpp, the card memory, and the slots of the window, in one record.
use a.Base.{ℕ, Bool, Option, List, Array, update}
use a.Mac.{MacUnit}

pub record Card : Type 0 where
  -- registers.cpp
  pub csr : Array
  pub rap : ℕ
  pub am_initialized : Bool
  pub am_mode : ℕ
  pub am_ladrf : ℕ
  pub am_rdr_rlen : ℕ
  pub am_rdr_rdra : ℕ
  pub am_tdr_tlen : ℕ
  pub am_tdr_tdra : ℕ
  pub tdr_offset : ℕ
  pub rdr_offset : ℕ
  pub fakemac : Array
  pub boardram : Array
  -- mac.cpp
  pub mac : MacUnit
  -- rings.cpp
  pub transmitbuffer : Array
  pub transmitlen : ℕ
  pub loopback_iter : ℕ
  -- ethernet.cpp: whether the socket is open, and the frames handed to it, the latest first
  pub sock_open : Bool
  pub sent : List (List ℕ)
  -- the slots of the window that is shared with the FPGA, by byte offset: 64-bit words in
  -- main_doorbell.cpp and main_ddr3.cpp, single bytes and 16-bit words in main.cpp
  pub slot : Array
  -- main_ddr3.cpp: `none` stands for the -1 of `last_mbx_int`
  pub last_mbx_int : Option ℕ
  pub int_hold : ℕ
  pub deferred_csr0_queue : Array
  pub deferred_csr0_head : ℕ
  pub deferred_csr0_tail : ℕ
  pub tdmd_retry : ℕ
  pub int_refresh : ℕ

abbrev pub csr0 : Card → ℕ
csr0 c = c.csr 0

abbrev pub with_csr0 : Card → ℕ → Card
with_csr0 c v = record c { csr = update c.csr 0 v }
