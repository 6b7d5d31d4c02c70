-- ===== src/Doorbell/Threads/Window.antt =====
-- What the FPGA reads of the daemon of arm/src/main_doorbell.cpp after a turn that nothing
-- interrupted, whatever overlapped before it.
use a.Base.{ℕ, ◌/◌, ◌%◌, ◌^◌, ◌<◌, ◌≡◌, refl, arith, ap, sym, ◌∙◌, if◌then◌else◌, ◌&&◌, true}
use a.Base.{Array, Option, none, some, OnSome, has}
use a.Card.{Card, csr0}
use a.Registers.Init.{RingsInside}
use a.Registers.WellFormed.{WellFormed}
use a.Doorbell.{rd64, poll_turn, rx_turn}
use a.Doorbell.Slots.{packed_csrs_fields}
use a.Doorbell.Steps.{Sound, poll_turn-Sound, rx_turn-Sound}
use a.Doorbell.Threads.{idle, called, poll_moves, rx_moves, moves_alone}
use a.Doorbell.Threads.Overlap.{Threads, Reach, Reach-WellFormed}

-- One thread runs through its turn and the other one, wherever it stands, does not: the polling
-- thread finds a command, or the receive thread a frame.
pub data Alone (s : Threads) : Card → Type 0 where
  polls :
      (stack : Array) {d : Card}
      → s.poll ≡ idle
      → has (rd64 0x8000 s.card) 1 ≡ true
      → poll_moves stack 7 s.poll s.card ≡ some (idle, d)
      → Alone s d
  receives :
      (stack rxbuf : Array) (len : ℕ) {d : Card}
      → s.rx ≡ idle
      → 0 < len
      → rx_moves stack rxbuf len 5 s.rx s.card ≡ some (idle, d)
      → Alone s d

called-Sound :
    (o : Option Card) (d : Card) → OnSome Sound o → called idle o ≡ some (idle, d) → Sound d
unfolding called
called-Sound none d h e = absurd (ground (arith, e))
called-Sound (some c) d h e = let same : c ≡ d = ground (arith, e) in rw (sym same) (h.holds c refl)

Alone-Sound : {s : Threads} {d : Card} → WellFormed s.card → Alone s d → Sound d
Alone-Sound {s} {d} w (polls stack rest posted e) =
    called-Sound (poll_turn stack s.card) d (poll_turn-Sound stack s.card w posted) (
      sym (moves_alone stack stack 0 s.card).0
      ∙ ap (λ pc. poll_moves stack 7 pc s.card) (sym rest)
      ∙ e)
Alone-Sound {s} {d} w (receives stack rxbuf len rest l e) =
    called-Sound (rx_turn stack rxbuf len s.card) d
      (rx_turn-Sound stack rxbuf len s.card w (ground (arith, l)))
      (sym (moves_alone stack rxbuf len s.card).1
        ∙ ap (λ pc. rx_moves stack rxbuf len 5 pc s.card) (sym rest)
        ∙ e)

-- However the steps of both threads, the Amiga's writes and the FPGA's commands followed each
-- other before, overlapping publications included, once one thread has run through its turn with
-- nothing else in between, the polling thread with a command or the receive thread with a frame,
-- the four 16-bit fields of the shadow word are CSR0 to CSR3, the slot of the interrupt line has
-- a one exactly when INTR and INEA are both set, and both rings begin inside card memory, where
-- they did so as the program began.
pub reachable_window :
    {c d : Card} {s : Threads}
    → RingsInside c
    → Reach c s
    → Alone s d
    → let w = rd64 0x8010 d in
      (w % 0x10000 ≡ d.csr 0)
      × (w / 2 ^ 16 % 0x10000 ≡ d.csr 1)
      × (w / 2 ^ 32 % 0x10000 ≡ d.csr 2)
      × (w / 2 ^ 48 % 0x10000 ≡ d.csr 3)
      × (rd64 0x8018 d ≡ (if has (csr0 d) 0x80 && has (csr0 d) 0x40 then 1 else 0))
      × RingsInside d
reachable_window {d} r reach alone =
    let s : Sound d = Alone-Sound (Reach-WellFormed r reach) alone in
    rw s.published.shadow (
      let f = packed_csrs_fields d s.formed.words in
      (f.0, f.1, f.2, f.3, s.published.line, s.formed.rings))
