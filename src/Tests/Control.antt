-- ===== src/Tests/Control.antt =====
-- Writes of the registers.
use a.Base.{ℕ, ◌%◌, ◌≡◌, ◌≢◌, refl, if◌then◌else◌, true, false, not}
use a.Base.{Option, some, has, ◌||◌}
use a.Card.{Card, csr0, with_csr0}
use a.Registers.{switch_on, write_csr0, chip_init, chip_wput, chip_wget}
use a.Registers.Control.{switch_on_flags, write_csr0_stop, write_csr0_init}
use a.Registers.Access.{chip_wput_rap}
use a.Tests.Data.{card, stopped}

-- A daemon that does nothing.
abbrev silent : Card → Card
silent c = c

abbrev idle : Card → Option Card
idle c = some c

-- RINT is pending.
abbrev received : Card
received = with_csr0 card 0x473

switch_on_flags_example :
    (has (switch_on 1 7) 4 ≡ false)
    × (has (switch_on 1 7) 0x10 ≡ (has 7 0x10 || not (has 1 2)))
    × (has (switch_on 1 7) 0x20 ≡ (has 7 0x20 || not (has 1 1)))
    × (has (switch_on 1 7) 1 ≡ has 7 1)
    × (has (switch_on 1 7) 8 ≡ has 7 8)
switch_on_flags_example = switch_on_flags 1 7

write_csr0_stop_example :
    (d : Card) × (write_csr0 silent idle card 0x44 ≡ some d)
    × (csr0 d ≡ 4)
    × (d.csr 3 ≡ 0)
    × ((n : ℕ) → n ≢ 0 → n ≢ 3 → d.csr n ≡ card.csr n)
    × (d ≡ record card { csr = d.csr })
unfolding has
write_csr0_stop_example = write_csr0_stop silent idle card 0x44 refl refl

write_csr0_init_example :
    (d : Card) × (write_csr0 silent idle (stopped 0) 0x41
      ≡ some (if has 0x41 0x40 then silent d else d))
    × (has (csr0 d) 0x100 ≡ true)
    × (has (csr0 d) 0x80 ≡ true)
    × (has (csr0 d) 4 ≡ false)
    × (has (csr0 d) 0x10 ≡ false)
    × (has (csr0 d) 0x20 ≡ false)
    × (has (csr0 d) 0x40 ≡ has 0x41 0x40)
    × (d.csr 3 ≡ 0)
    × (d.am_initialized ≡ true)
    × (d ≡ record (chip_init (stopped 0)) { csr = d.csr; am_initialized = true })
unfolding has
write_csr0_init_example =
    write_csr0_init silent idle (stopped 0) 0x41 refl refl refl refl refl refl refl

chip_wput_rap_example :
    (d : Card) × (chip_wput silent idle 2 200 card ≡ some d)
    × (chip_wget d 2 ≡ 200 % 128)
    × (d ≡ record card { rap = d.rap })
chip_wput_rap_example = chip_wput_rap silent idle card 200

abbrev selected : Card
selected = record (stopped 0) { rap = 2 }
