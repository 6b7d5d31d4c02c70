-- ===== src/Tests/Mailbox.antt =====
-- The daemon of the mailbox.
use a.Base.{
  ℕ, ◌+◌, ◌*◌, ◌/◌, ◌%◌, ◌≤◌, ◌<◌, ◌≡◌, arith, refl, [], ◌∷◌, ◌++◌, length, ltb, ◌==◌, ◌>>=◌,
  update, if◌then◌else◌, ◌&&◌, some, has,
}
use a.Card.{Card, csr0}
use a.Registers.{chip_wget, registers_reset, registers_set_fakemac}
use a.Registers.Init.{RingsInside}
use a.Doorbell.{rd64, wr64}
use a.Mailbox.{
  defer, drain_loop, service_bridge, start_up, clear_slots, daemon_set_default_mac, write_mbx_mac,
}
use a.Mailbox.Queue.{pending, InRing, pending-defer}
use a.Mailbox.Queue.Drain.{obey_all}
use a.Mailbox.Steps.{Fresh, begins, later, asks, Reach-Sound, reachable_bounds}
use a.Mailbox.Settle.{Idle, turns, loop_settles, Behind, slot_stuck}
use a.Mailbox.Service.{asked_read, asked_write, service_bridge_answers}
use a.Mailbox.Service.Roundtrip.{exchange, exchange_roundtrip}
use a.Mailbox.Deferred.{safe_exchange, drain_register, deferred_redirected}
use a.Tests.Data.{card, stopped, zeros}

card-InRing : InRing card
card-InRing = record { head = omega arith; tail = omega arith }

pending-defer_example :
    pending (defer 0x8000 card)
    ≡ (if ltb (length (pending card)) 7 then pending card ++ 0x8000 ∷ [] else pending card)
pending-defer_example = pending-defer 0x8000 card card-InRing

-- Two deferred writes, the ring having gone round, with CSR4 selected.
abbrev deferring : Card
deferring = record card {
  rap = 4;
  deferred_csr0_queue = update (update zeros 7 0x40) 0 0x4;
  deferred_csr0_tail = 7;
  deferred_csr0_head = 1;
}

drain_register_example :
    (d : Card) × (drain_loop zeros 8 deferring ≡ some d)
    × (obey_all zeros (pending deferring) deferring ≡ some d)
    × (pending d ≡ [])
    × (csr0 d ≡ csr0 deferring)
    × (d.rap ≡ 4)
drain_register_example =
    drain_register zeros deferring (record { head = omega arith; tail = omega arith }) (omega arith)

card-Fresh : Fresh card
card-Fresh = record {
  rings = record { receive = omega arith; transmit = omega arith };
  last = refl;
  held = refl;
  head = refl;
  tail = refl;
  queue = λ i. refl;
  retry = refl;
  refreshed = refl;
}

-- The daemon that has begun, and a request to read CSR0.
abbrev begun : Card
begun = start_up zeros card

abbrev asked : Card
asked = wr64 0x8000 (asked_read 0) begun

reachable_bounds_example :
    (asked.tdmd_retry ≤ 16)
    × (asked.int_hold ≤ 100)
    × (asked.int_refresh < 10)
    × (asked.deferred_csr0_head < 8)
    × (asked.deferred_csr0_tail < 8)
    × ((i : ℕ) → asked.csr i < 0x10000)
    × RingsInside asked
reachable_bounds_example = reachable_bounds card-Fresh (later (begins zeros) (asks (asked_read 0)))

begun-Idle : Idle begun
unfolding has start_up clear_slots daemon_set_default_mac registers_set_fakemac write_mbx_mac
    registers_reset
begun-Idle = record { unasked = refl; drained = refl; untried = refl }

loop_settles_example :
    (e : Card) × (turns zeros 101 begun ≡ some e)
    × (csr0 e ≡ csr0 begun)
    × (rd64 0x8020 e ≡ (if has (csr0 begun) 0x80 && has (csr0 begun) 0x40 then 1 else 0))
loop_settles_example = loop_settles zeros begun (Reach-Sound card-Fresh (begins zeros)) begun-Idle

-- The line is down in CSR0 and last_mbx_int, and up in the slot.
abbrev overtaken : Card
overtaken = record (wr64 0x8020 1 begun) { last_mbx_int = some 0; int_hold = 1 }

overtaken-Idle : Idle overtaken
unfolding has start_up clear_slots daemon_set_default_mac registers_set_fakemac write_mbx_mac
    registers_reset
overtaken-Idle = record { unasked = refl; drained = refl; untried = refl }

overtaken-Behind : Behind overtaken
unfolding has start_up clear_slots daemon_set_default_mac registers_set_fakemac write_mbx_mac
    registers_reset
overtaken-Behind = record { last = refl; low = refl; up = refl }

slot_stuck_example :
    (d : Card) × (turns zeros 1000 overtaken ≡ some d)
    × (csr0 d ≡ csr0 overtaken)
    × (rd64 0x8020 d ≡ 1)
slot_stuck_example = slot_stuck zeros 1000 overtaken overtaken-Idle overtaken-Behind

deferred_redirected_example :
    (d : Card) × ((safe_exchange zeros (asked_write 0 0x47f) card >>= λ x.
    safe_exchange zeros (asked_write 2 4) x >>= λ y. drain_loop zeros 8 y)
      ≡ some d)
    × (pending d ≡ [])
    × (csr0 d ≡ csr0 card)
    × (d.rap ≡ 4)
deferred_redirected_example =
    deferred_redirected zeros card 4 0x47f card-InRing refl (omega arith) (omega arith)
      (omega arith)

exchange_roundtrip_example :
    (d : Card) × ((exchange zeros (asked_write 2 1) (stopped 0) >>= λ x.
    exchange zeros (asked_write 0 0x1235) x >>= λ y. exchange zeros (asked_read 0) y)
      ≡ some d)
    × (rd64 0x8008 d
        ≡ 1 + 2 * (if 1 == 1 then 0x1235 / 2 * 2 else if 1 == 2 then 0x1235 % 256 else 0x1235 % 8))
    × (csr0 d ≡ csr0 (stopped 0))
unfolding has
exchange_roundtrip_example =
    exchange_roundtrip zeros (stopped 0) 1 0x1235 (omega arith) (omega arith) (omega arith) refl

-- CSR1 is selected and shows the bits that are INTR and INEA in CSR0.
abbrev showing : Card
showing = record card {
  csr = update zeros 1 0xc0;
  rap = 1;
  slot = update zeros 0x8000 (asked_read 0);
}

service_bridge_answers_example :
    let v = chip_wget showing 0 in
    (d : Card) × (service_bridge zeros showing ≡ some d)
    × (rd64 0x8000 d ≡ 0)
    × (rd64 0x8008 d ≡ 1 + 2 * v)
    × (rd64 0x8020 d ≡ (if (0 == 0) && has v 0x80 && has v 0x40 then 1 else rd64 0x8020 showing))
    × (d.csr ≡ showing.csr)
    × (d.rap ≡ showing.rap)
    × (d.boardram ≡ showing.boardram)
service_bridge_answers_example = service_bridge_answers zeros showing 0 (omega arith) refl
