-- ===== src/Mailbox/Bounds.antt =====
-- The invariant of the daemon of arm/src/main_ddr3.cpp: its counters and its ring stay in their
-- ranges, and what it takes for the interrupt line is what the slot has.
pub mod Operations
use a.Base.{ℕ, ◌+◌, ◌-◌, ◌%◌, ◌≤◌, ◌<◌, ◌≡◌, refl, arith, ◌==◌, ltb, leb, if◌then◌else◌, true, not}
use a.Base.{
  Array, Option, none, some, OnSome, OnSome-some, OnSome-bind, kept_if, Bool-cases, inl, inr,
}
use a.Card.{Card, csr0}
use a.Registers.Ignore.{Ignores, Ignores-Survives, chip_wput-Ignores}
use a.Registers.Survive.{Survives}
use a.Registers.WellFormed.{WellFormed, WellFormed-Survives, chip_wput-WellFormed}
use a.Rings.Receive.Preserve.{gotfunc-Survives}
use a.Rings.Transmit.{do_transmit}
use a.Rings.Transmit.Preserve.{do_transmit-Survives}
use a.Doorbell.{rd64, wr64, int_line}
use a.Mailbox.{
  mbx_int_off, mbx_req_off, mbx_rsp_off, int_hold_iter, schedule_tdmd_retry, assert_mbx_int,
  on_interrupt_cb, on_transmit_cb, write_mbx_int, rx_turn, put, defer, refresh, hold,
}

-- The line that the daemon takes itself to have written, and the slot.
unfoldable pub Told : Option ℕ → ℕ → Type 0
Told none w = Unit
Told (some v) w = (w ≡ v) × (v ≤ 1)

pub record Bounded (c : Card) : Type 0 where
  pub retry : c.tdmd_retry ≤ 16
  pub held : c.int_hold ≤ int_hold_iter
  pub refreshed : c.int_refresh < 10
  pub head : c.deferred_csr0_head < 8
  pub tail : c.deferred_csr0_tail < 8
  pub words : (i : ℕ) → c.deferred_csr0_queue i < 0x10000
  pub told : Told c.last_mbx_int (rd64 mbx_int_off c)

pub record Sound (c : Card) : Type 0 where
  pub formed : WellFormed c
  pub bounded : Bounded c

pub Bounded-Ignores : Ignores Bounded
Bounded-Ignores = record {
  chip =
      λ c csr fakemac ram buf rap mode ladrf rlen rdra tlen tdra len tdr rdr iter init mac frames h.
        record {
          retry = h.retry;
          held = h.held;
          refreshed = h.refreshed;
          head = h.head;
          tail = h.tail;
          words = h.words;
          told = h.told;
        };
}

-- The daemon's own variables and the slots are not the chip's.
pub beside-WellFormed :
    (c : Card) (slot queue : Array) (last : Option ℕ) (hold head tail retry refresh : ℕ)
    → WellFormed c
    → WellFormed (record c {
      slot = slot;
      last_mbx_int = last;
      int_hold = hold;
      deferred_csr0_queue = queue;
      deferred_csr0_head = head;
      deferred_csr0_tail = tail;
      tdmd_retry = retry;
      int_refresh = refresh;
    })
beside-WellFormed c slot queue last hold head tail retry refresh h = record {
  halts = h.halts;
  words = h.words;
  rings = record { receive = h.rings.receive; transmit = h.rings.transmit };
}

pub Sound-Survives : Survives Sound
Sound-Survives = record {
  reads = λ c ram buf len tdr rdr iter frames h. record {
    formed = WellFormed-Survives.reads c ram buf len tdr rdr iter frames h.formed;
    bounded = (Ignores-Survives Bounded-Ignores).reads c ram buf len tdr rdr iter frames h.bounded;
  };
  touches = λ c w t h. record {
    formed = WellFormed-Survives.touches c w t h.formed;
    bounded = (Ignores-Survives Bounded-Ignores).touches c w t h.bounded;
  };
}

pub assert_mbx_int-WellFormed : (c : Card) → WellFormed c → WellFormed (assert_mbx_int c)
unfolding assert_mbx_int
assert_mbx_int-WellFormed c h = beside-WellFormed c _ _ _ _ _ _ _ _ h

pub assert_mbx_int-Bounded : (c : Card) → Bounded c → Bounded (assert_mbx_int c)
unfolding assert_mbx_int Told
assert_mbx_int-Bounded c h = record {
  retry = h.retry;
  held = omega arith;
  refreshed = h.refreshed;
  head = h.head;
  tail = h.tail;
  words = h.words;
  told = (refl, omega arith);
}

pub assert_mbx_int-Sound : (c : Card) → Sound c → Sound (assert_mbx_int c)
assert_mbx_int-Sound c h = record {
  formed = assert_mbx_int-WellFormed c h.formed;
  bounded = assert_mbx_int-Bounded c h.bounded;
}

pub tdmd_retry-Sound : (c : Card) (n : ℕ) → n ≤ 16 → Sound c → Sound (record c { tdmd_retry = n })
tdmd_retry-Sound c n l h = record {
  formed = beside-WellFormed c _ _ _ _ _ _ _ _ h.formed;
  bounded = record {
    retry = l;
    held = h.bounded.held;
    refreshed = h.bounded.refreshed;
    head = h.bounded.head;
    tail = h.bounded.tail;
    words = h.bounded.words;
    told = h.bounded.told;
  };
}

pub int_hold-Sound :
    (c : Card) (n : ℕ) → n ≤ int_hold_iter → Sound c → Sound (record c { int_hold = n })
int_hold-Sound c n l h = record {
  formed = beside-WellFormed c _ _ _ _ _ _ _ _ h.formed;
  bounded = record {
    retry = h.bounded.retry;
    held = l;
    refreshed = h.bounded.refreshed;
    head = h.bounded.head;
    tail = h.bounded.tail;
    words = h.bounded.words;
    told = h.bounded.told;
  };
}

pub int_refresh-Sound : (c : Card) (n : ℕ) → n < 10 → Sound c → Sound (record c { int_refresh = n })
int_refresh-Sound c n l h = record {
  formed = beside-WellFormed c _ _ _ _ _ _ _ _ h.formed;
  bounded = record {
    retry = h.bounded.retry;
    held = h.bounded.held;
    refreshed = l;
    head = h.bounded.head;
    tail = h.bounded.tail;
    words = h.bounded.words;
    told = h.bounded.told;
  };
}

pub deferred_csr0_tail-Sound :
    (c : Card) (n : ℕ) → n < 8 → Sound c → Sound (record c { deferred_csr0_tail = n })
deferred_csr0_tail-Sound c n l h = record {
  formed = beside-WellFormed c _ _ _ _ _ _ _ _ h.formed;
  bounded = record {
    retry = h.bounded.retry;
    held = h.bounded.held;
    refreshed = h.bounded.refreshed;
    head = h.bounded.head;
    tail = l;
    words = h.bounded.words;
    told = h.bounded.told;
  };
}

-- The slots of the exchange are not that of the interrupt.
pub req-Sound : (c : Card) (v : ℕ) → Sound c → Sound (wr64 mbx_req_off v c)
req-Sound c v h = record {
  formed = beside-WellFormed c _ _ _ _ _ _ _ _ h.formed;
  bounded = record {
    retry = h.bounded.retry;
    held = h.bounded.held;
    refreshed = h.bounded.refreshed;
    head = h.bounded.head;
    tail = h.bounded.tail;
    words = h.bounded.words;
    told = h.bounded.told;
  };
}

pub rsp-Sound : (c : Card) (v : ℕ) → Sound c → Sound (wr64 mbx_rsp_off v c)
rsp-Sound c v h = record {
  formed = beside-WellFormed c _ _ _ _ _ _ _ _ h.formed;
  bounded = record {
    retry = h.bounded.retry;
    held = h.bounded.held;
    refreshed = h.bounded.refreshed;
    head = h.bounded.head;
    tail = h.bounded.tail;
    words = h.bounded.words;
    told = h.bounded.told;
  };
}

pub written-Sound :
    (c : Card) (v : ℕ)
    → v ≤ 1
    → Sound c
    → Sound (record (wr64 mbx_int_off v c) { last_mbx_int = some v })
unfolding Told
written-Sound c v l h = record {
  formed = beside-WellFormed c _ _ _ _ _ _ _ _ h.formed;
  bounded = record {
    retry = h.bounded.retry;
    held = h.bounded.held;
    refreshed = h.bounded.refreshed;
    head = h.bounded.head;
    tail = h.bounded.tail;
    words = h.bounded.words;
    told = (refl, l);
  };
}
