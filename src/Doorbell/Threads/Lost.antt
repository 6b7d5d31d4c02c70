-- ===== src/Doorbell/Threads/Lost.antt =====
-- An interrupt that is lost between `update_int_state` of one thread of arm/src/main_doorbell.cpp,
-- which has read CSR0 and not yet written the line, and a turn of the other.
use a.Base.{
  ℕ, zero, suc, ◌<◌, ◌≡◌, refl, arith, if◌then◌else◌, Bool, true, false, ◌&&◌, Array, some, has, ap,
  ◌∙◌, sym, >>=-eq-some,
}
use mathlib.Core.Path.{subst}
use mathlib.Core.Option.{some-injective}
use a.Card.{Card, csr0}
use a.Doorbell.{rd64, wr64}
use a.Doorbell.Slots.{posted, poll_turn_init}
use a.Doorbell.Threads.{
  Pc, idle, writes_line, publish_move, called, poll_move, rx_move, poll_moves, poll_moves-idle,
  moves_alone,
}
use a.Doorbell.Threads.Overlap.{Reach, later, polls, receives}

-- The polling thread goes on alone.
pub poll_moves-Reach :
    (stack : Array) (n : ℕ) {b c d : Card} {p q r : Pc}
    → Reach b (record { card = c; poll = p; rx = r })
    → poll_moves stack n p c ≡ some (q, d)
    → Reach b (record { card = d; poll = q; rx = r })
unfolding poll_moves
poll_moves-Reach stack zero {b} {r} h e =
    subst (λ (x : Pc × Card). Reach b (record { card = x.1; poll = x.0; rx = r }))
      (some-injective _ _ e) h
poll_moves-Reach stack (suc n) {c} {p} h e =
    let m = >>=-eq-some (poll_move stack p c) (λ r. poll_moves stack n r.0 r.1) e in
    poll_moves-Reach stack n (later h (polls stack m.1)) m.2

abbrev bit : Bool → ℕ
bit b = if b then 1 else 0

raised : (a b : Bool) → bit (a && b) ≡ 1 → (a ≡ true) × (b ≡ true)
raised true true e = (refl, refl)
raised true false e = absurd (omega (arith, e))
raised false b e = absurd (omega (arith, e))

-- INIT with INEA, without STRT and TDMD, is posted to the stopped chip that has none of the three
-- set while the receive thread has read that the line is low and not yet written it. When the
-- polling thread has obeyed it and both threads are at rest again, INTR and INEA are set and the
-- slot of the interrupt line has a zero, and however often the polling thread looks for a command
-- meanwhile it leaves it so.
pub init_interrupt_lost :
    {b c : Card} (stack : Array) (v n : ℕ)
    → Reach b (record { card = c; poll = idle; rx = writes_line 0 })
    → v < 0x10000
    → rd64 0x8000 c ≡ posted 0 v
    → has (csr0 c) 4 ≡ true
    → has (csr0 c) 1 ≡ false
    → has (csr0 c) 2 ≡ false
    → has (csr0 c) 8 ≡ false
    → has v 1 ≡ true
    → has v 2 ≡ false
    → has v 8 ≡ false
    → has v 0x40 ≡ true
    → (d : Card) × Reach b (record { card = d; poll = idle; rx = idle })
      × (has (csr0 d) 0x80 ≡ true)
      × (has (csr0 d) 0x40 ≡ true)
      × (rd64 0x8018 d ≡ 0)
      × (poll_moves stack n idle d ≡ some (idle, d))
unfolding rx_move publish_move called
init_interrupt_lost {b} {c} stack v n reach l p s i t m vi vt vm ve =
    let w = poll_turn_init stack c v l p s i t m vi vt vm in
    let e : Card = w.0 in
    let turn : poll_moves stack 7 idle c ≡ some (idle, e) =
      (moves_alone stack stack 0 c).0 ∙ ap (called idle) w.1 in
    let done : Reach b (record { card = e; poll = idle; rx = writes_line 0 }) =
      poll_moves-Reach stack 7 reach turn in
    let up = raised (has (csr0 e) 0x80) (has (csr0 e) 0x40) (sym w.4.line ∙ w.5 ∙ ap bit ve) in
    (
      wr64 0x8018 0 e,
      later done (receives stack stack 0 refl),
      up.0,
      up.1,
      refl,
      poll_moves-idle stack n (wr64 0x8018 0 e) (ap (λ (x : ℕ). has x 1) w.2 ∙ unfold has in refl),
    )
