-- ===== src/Tests/Data.antt =====
-- A running card, its memory and its addresses, for the examples.
use a.Base.{none, ℕ, arith, refl, Array, [], ◌∷◌, update, true, false, ◌==◌, if◌then◌else◌}
use a.Mac.{MacUnit}
use a.Mac.Swap.{IsUnit}
use a.Mac.Dhcp.{AllBytes}
use a.Ram.{put_ram_word}
use a.Ram.Bytes.{IsBytes, put_ram_word-IsBytes}
use a.Card.{Card}

abbrev pub unit : MacUnit
unit = record {
  fakemac = 0x00 ∷ 0x80 ∷ 0x10 ∷ 1 ∷ 2 ∷ 3 ∷ [];
  realmac = 0x00 ∷ 0x80 ∷ 0x10 ∷ 4 ∷ 5 ∷ 6 ∷ [];
}

pub unit-IsUnit : IsUnit unit
unit-IsUnit = record { fake_length = refl; real_length = refl }

pub fake-AllBytes : AllBytes unit.fakemac
fake-AllBytes =
    (omega arith, (omega arith, (omega arith, (omega arith, (omega arith, (omega arith, tt))))))

pub real-AllBytes : AllBytes unit.realmac
real-AllBytes =
    (omega arith, (omega arith, (omega arith, (omega arith, (omega arith, (omega arith, tt))))))

abbrev pub zeros : Array
zeros = λ i. 0

pub zeros-IsBytes : IsBytes zeros
zeros-IsBytes j = omega arith

-- A receive descriptor at 0x100 with a buffer of 1024 bytes at 0x1000, and a transmit descriptor
-- at 0x200 with a frame of 64 bytes at 0x2000.
abbrev pub receive_memory : Array
receive_memory =
    put_ram_word (put_ram_word (put_ram_word zeros 0x100 0x1000) 0x102 0x8000) 0x104 0xfc00

abbrev pub memory : Array
memory =
    put_ram_word (put_ram_word (put_ram_word receive_memory 0x200 0x2000) 0x202 0x8300) 0x204 0xffc0

pub memory-IsBytes : IsBytes memory
memory-IsBytes = put_ram_word-IsBytes _ 0x204 0xffc0 (
    put_ram_word-IsBytes _ 0x202 0x8300 (
      put_ram_word-IsBytes _ 0x200 0x2000 (
        put_ram_word-IsBytes _ 0x104 0xfc00 (
          put_ram_word-IsBytes _ 0x102 0x8000
            (put_ram_word-IsBytes zeros 0x100 0x1000 zeros-IsBytes)))))

-- CSR0 has INEA, RXON, TXON, STRT and INIT.
abbrev pub card : Card
card = record {
  csr = update zeros 0 0x73;
  rap = 0;
  am_initialized = true;
  am_mode = 0;
  am_ladrf = 0;
  am_rdr_rlen = 1;
  am_rdr_rdra = 0x100;
  am_tdr_tlen = 1;
  am_tdr_tdra = 0x200;
  tdr_offset = 0;
  rdr_offset = 0;
  fakemac = λ i. if i == 0 then 2 else i;
  boardram = memory;
  mac = unit;
  transmitbuffer = zeros;
  transmitlen = 0;
  loopback_iter = 0;
  sock_open = true;
  sent = [];
  slot = zeros;
  last_mbx_int = none;
  int_hold = 0;
  deferred_csr0_queue = zeros;
  deferred_csr0_head = 0;
  deferred_csr0_tail = 0;
  tdmd_retry = 0;
  int_refresh = 0;
}

-- The chip after a reset, with `word` in the CMD slot.
abbrev pub stopped : ℕ → Card
stopped word = record card {
  csr = update zeros 0 4;
  am_initialized = false;
  slot = update zeros 0x8000 word;
}
