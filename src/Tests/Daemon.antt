-- ===== src/Tests/Daemon.antt =====
-- The daemon of the DDR3 window.
use a.Base.{◌≡◌, arith, refl, if◌then◌else◌, true, some, has}
use a.Card.{Card}
use a.Doorbell.{rd64, poll_turn}
use a.Doorbell.Slots.{posted, IsPublished, poll_turn_init}
use a.Tests.Data.{stopped, zeros}

abbrev filtering : Card
filtering = stopped (posted 8 0xbeef)

abbrev initializing : Card
initializing = stopped (posted 0 0x41)

poll_turn_init_example :
    (e : Card) × (poll_turn zeros initializing ≡ some e)
    × (rd64 0x8000 e ≡ 0)
    × (e.am_initialized ≡ true)
    × IsPublished e
    × (rd64 0x8018 e ≡ (if has 0x41 0x40 then 1 else 0))
unfolding has
poll_turn_init_example =
    poll_turn_init zeros initializing 0x41 (omega arith) refl refl refl refl refl refl refl refl
