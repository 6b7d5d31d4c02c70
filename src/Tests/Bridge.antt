-- ===== src/Tests/Bridge.antt =====
-- The daemon of the older transport, with its interrupt asserted.
use a.Base.{has, ◌>>=◌, ◌%◌, ℕ, ◌≡◌, refl, some, update}
use a.Card.{Card}
use a.Doorbell.{rd64, wr64}
use a.Bridge.{loop_turn, service_bridge}
use a.Bridge.Interrupt.{rests, later, turns, asks, never_taken_back}
use a.Registers.{chip_wget}
use a.Bridge.Client.{write_reg, read_reg, select_and_read, read_too_late}
use a.Tests.Data.{card, zeros}

abbrev asserting : ℕ × Card
asserting = (0, record card { slot = update zeros 0x10 1 })

-- A turn without a request, and then one to acknowledge the interrupt.
abbrev acknowledging : ℕ × Card
acknowledging = (1, wr64 0x4 1 (wr64 0x0 0x440 (wr64 0x3 1 (wr64 0x2 0 asserting.1))))

idle_turn : loop_turn zeros asserting ≡ some (1, asserting.1)
unfolding loop_turn service_bridge
idle_turn = refl

never_taken_back_example :
    (rd64 0x10 acknowledging.1 ≡ 1) × (rd64 0x11 acknowledging.1 ≡ rd64 0x11 asserting.1)
never_taken_back_example =
    never_taken_back {s = asserting} {t = acknowledging} refl
      (later (later rests (turns zeros idle_turn)) (asks 0 1 0x440 1))

select_and_read_example :
    (e : Card) × ((write_reg (service_bridge zeros) 2 0 card >>= λ d.
    read_reg (service_bridge zeros) 0 d)
      ≡ some (chip_wget (record card { rap = 0 % 0x80 }) 0 % 0x10000, e))
    × (e.csr ≡ card.csr)
    × (e.rap ≡ 0 % 0x80)
select_and_read_example = select_and_read zeros card 0 refl

-- CSR0 of the card is not zero.
csr0_read : chip_wget (record card { rap = 0 }) 0 ≡ 0x73
unfolding chip_wget has
csr0_read = refl

read_too_late_example :
    (e : Card) × ((write_reg (service_bridge zeros) 2 0 card >>= λ d.
    service_bridge zeros d >>= λ f. read_reg (service_bridge zeros) 0 f)
      ≡ some (0, e))
read_too_late_example = read_too_late zeros card 0 refl
