-- ===== src/Tests/Steps.antt =====
-- A run of the daemon of the DDR3 window beside the Amiga.
use a.Base.{ap, ◌∙◌, ◌/◌, ◌%◌, ◌^◌, ◌≡◌, arith, refl, none, some, if◌then◌else◌, ◌&&◌, true, has}
use a.Card.{Card, csr0}
use a.Registers.Init.{RingsInside}
use a.Doorbell.{rd64, wr64, publish, poll_turn}
use a.Doorbell.Station.{daemon_set_default_mac, write_mbx_mac}
use a.Registers.{registers_reset, registers_set_fakemac}
use a.Doorbell.Slots.{posted, IsPublished, poll_turn_init}
use a.Doorbell.Startup.{start_up}
use a.Doorbell.Threads.{idle, called, moves_alone}
use a.Doorbell.Threads.Overlap.{Threads, Reach, begins, later, posts}
use a.Doorbell.Threads.Window.{Alone, polls, reachable_window}
use a.Tests.Data.{card, zeros}

card-RingsInside : RingsInside card
card-RingsInside = record { receive = omega arith; transmit = omega arith }

-- INIT and INEA are posted to the daemon that has just begun.
abbrev waiting : Card
waiting = wr64 0x8000 (posted 0 0x41) (start_up zeros none 0 card)

abbrev waits : Threads
waits = record { card = waiting; poll = idle; rx = idle }

waits-Reach : Reach card waits
waits-Reach = later (begins zeros none 0) (posts (posted 0 0x41))

initialized :
    (e : Card) × (poll_turn zeros waiting ≡ some e)
    × (rd64 0x8000 e ≡ 0)
    × (e.am_initialized ≡ true)
    × IsPublished e
    × (rd64 0x8018 e ≡ (if has 0x41 0x40 then 1 else 0))
unfolding has start_up publish write_mbx_mac daemon_set_default_mac registers_set_fakemac
    registers_reset
initialized =
    poll_turn_init zeros waiting 0x41 (omega arith) refl refl refl refl refl refl refl refl

alone : Alone waits initialized.0
unfolding called has
alone =
    polls zeros refl refl ((moves_alone zeros zeros 0 waiting).0 ∙ ap (called idle) initialized.1)

reachable_window_example :
    let d = initialized.0 in
    let w = rd64 0x8010 d in
    (w % 0x10000 ≡ d.csr 0)
    × (w / 2 ^ 16 % 0x10000 ≡ d.csr 1)
    × (w / 2 ^ 32 % 0x10000 ≡ d.csr 2)
    × (w / 2 ^ 48 % 0x10000 ≡ d.csr 3)
    × (rd64 0x8018 d ≡ (if has (csr0 d) 0x80 && has (csr0 d) 0x40 then 1 else 0))
    × RingsInside d
reachable_window_example = reachable_window card-RingsInside waits-Reach alone
