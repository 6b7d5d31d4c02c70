-- ===== src/Mailbox/Settle.antt =====
-- The interrupt line of arm/src/main_ddr3.cpp while nothing happens: the hold, and the slot of the line
-- when it agrees with last_mbx_int and when it does not.
use a.Base.{
  ℕ, zero, suc, ◌+◌, ◌-◌, ◌≤◌, ◌≡◌, refl, arith, sym, ap, ◌∙◌, ◌==◌, ltb, leb, Bool, if◌then◌else◌,
  true, false, ◌&&◌,
}
use a.Base.{Array, has, Option, none, some, ◌>>=◌, kept_if, Bool-cases, inl, inr}
use mathlib.Core.Path.{subst}
use a.Card.{Card, csr0}
use a.Doorbell.{rd64, wr64, int_line}
use a.Mailbox.{
  mbx_int_off, write_mbx_int, service_bridge, drain_loop, retry, refresh, hold, loop_turn,
}
use a.Mailbox.Bounds.{Told, Sound}
use a.Mailbox.Bounds.Operations.{hold-Sound, refresh-Sound}

-- No request, no deferred write and no transmission to try again.
pub record Idle (c : Card) : Type 0 where
  pub unasked : has (rd64 0x8000 c) 1 ≡ false
  pub drained : c.deferred_csr0_tail ≡ c.deferred_csr0_head
  pub untried : c.tdmd_retry ≡ 0

-- What a turn without work leaves alone.
record Steady (c d : Card) : Type 0 where
  csr0 : csr0 d ≡ csr0 c
  asked : rd64 0x8000 d ≡ rd64 0x8000 c
  head : d.deferred_csr0_head ≡ c.deferred_csr0_head
  tail : d.deferred_csr0_tail ≡ c.deferred_csr0_tail
  retry : d.tdmd_retry ≡ c.tdmd_retry

Steady-refl : (c : Card) → Steady c c
Steady-refl c = record { csr0 = refl; asked = refl; head = refl; tail = refl; retry = refl }

Steady-trans : {c d e : Card} → Steady c d → Steady d e → Steady c e
Steady-trans h k = record {
  csr0 = k.csr0 ∙ h.csr0;
  asked = k.asked ∙ h.asked;
  head = k.head ∙ h.head;
  tail = k.tail ∙ h.tail;
  retry = k.retry ∙ h.retry;
}

Steady-Idle : {c d : Card} → Steady c d → Idle c → Idle d
Steady-Idle h k = record {
  unasked = ap (λ w. has w 1) h.asked ∙ k.unasked;
  drained = h.tail ∙ k.drained ∙ sym h.head;
  untried = h.retry ∙ k.untried;
}

-- The card after `write_mbx_int`, by the line it has told.
written : Card → Card
written c = record (wr64 mbx_int_off (int_line (csr0 c)) c) {
  last_mbx_int = some (int_line (csr0 c));
}

write_mbx_int_lem :
    (c : Card)
    → Steady c (write_mbx_int c)
      × ((write_mbx_int c).last_mbx_int ≡ some (int_line (csr0 c)))
      × ((write_mbx_int c).int_hold ≡ c.int_hold)
unfolding write_mbx_int written
write_mbx_int_lem c = by_last c.last_mbx_int refl
  where
    Wanted : Card → Type 0
    Wanted d = Steady c d × (d.last_mbx_int ≡ some (int_line (csr0 c))) × (d.int_hold ≡ c.int_hold)

    new : Wanted (written c)
    new = (record { csr0 = refl; asked = refl; head = refl; tail = refl; retry = refl }, refl, refl)

    by_last :
        (o : Option ℕ)
        → c.last_mbx_int ≡ o
        → Wanted (elim o [
          | none ↦ written c
          | some last ↦ if int_line (csr0 c) == last then c else written c
        ])
    by_last none e = new
    by_last (some last) e = elim (Bool-cases (int_line (csr0 c) == last)) [
      | inl k ↦ rw k (Steady-refl c, e ∙ ap some (ground arith), refl)
      | inr k ↦ rw k new
    ]

refresh_lem :
    (c : Card)
    → Steady c (refresh c)
      × ((refresh c).last_mbx_int ≡ c.last_mbx_int)
      × ((refresh c).int_hold ≡ c.int_hold)
unfolding refresh
refresh_lem c = by_last c.last_mbx_int
  where
    Wanted : Card → Type 0
    Wanted d = Steady c d × (d.last_mbx_int ≡ c.last_mbx_int) × (d.int_hold ≡ c.int_hold)

    counted : (n : ℕ) → Wanted (record c { int_refresh = n })
    counted n =
        (record { csr0 = refl; asked = refl; head = refl; tail = refl; retry = refl }, refl, refl)

    again : Wanted (record (wr64 mbx_int_off 1 c) { int_refresh = 0 })
    again =
        (record { csr0 = refl; asked = refl; head = refl; tail = refl; retry = refl }, refl, refl)

    by_last :
        (o : Option ℕ)
        → Wanted (elim o [
          | none ↦ record c { int_refresh = 0 }
          | some last ↦
              if last == 1
              then (if leb 10 (c.int_refresh + 1)
                  then record (wr64 mbx_int_off 1 c) { int_refresh = 0 }
                  else record c { int_refresh = c.int_refresh + 1 })
              else record c { int_refresh = 0 }
        ])
    by_last none = counted 0
    by_last (some last) =
        kept_if Wanted (last == 1)
          (kept_if Wanted (leb 10 (c.int_refresh + 1)) again (counted (c.int_refresh + 1)))
          (counted 0)

-- A turn of the hold: it counts down, and where it is over the line is told.
hold_lem :
    (c : Card)
    → Steady c (hold c)
      × ((hold c).int_hold ≡ c.int_hold - 1)
      × (c.int_hold ≡ 0 → (hold c).last_mbx_int ≡ some (int_line (csr0 c)))
unfolding hold
hold_lem c = elim (Bool-cases (ltb 0 c.int_hold)) [
  | inl e ↦ rw e (
    record { csr0 = refl; asked = refl; head = refl; tail = refl; retry = refl },
    refl,
    λ z. absurd (ground arith),
  )
  | inr e ↦ rw e (let w = write_mbx_int_lem c in (w.0, w.2 ∙ ground arith, λ z. w.1))
]

idle_turn : Card → Card
idle_turn c = refresh (hold c)

idle_turn_lem :
    (c : Card)
    → Steady c (idle_turn c)
      × ((idle_turn c).int_hold ≡ c.int_hold - 1)
      × (c.int_hold ≡ 0 → (idle_turn c).last_mbx_int ≡ some (int_line (csr0 c)))
unfolding idle_turn
idle_turn_lem c =
    let h = hold_lem c in
    let r = refresh_lem (hold c) in (Steady-trans h.0 r.0, r.2 ∙ h.1, λ z. r.1 ∙ h.2 z)

idle_turn-Sound : (c : Card) → Sound c → Sound (idle_turn c)
unfolding idle_turn
idle_turn-Sound c h = refresh-Sound (hold c) (hold-Sound c h)

-- `n` turns of the loop.
unfoldable pub turns : Array → ℕ → Card → Option Card
turns stack zero c = some c
turns stack (suc n) c = loop_turn stack c >>= λ d. turns stack n d

told_slot : (c : Card) (v : ℕ) → Sound c → c.last_mbx_int ≡ some v → rd64 mbx_int_off c ≡ v
unfolding Told
told_slot c v h e = (subst (λ o. Told o (rd64 mbx_int_off c)) e h.bounded.told).0

module _ (stack : Array) where
  loop_turn-Idle : (c : Card) → Idle c → loop_turn stack c ≡ some (idle_turn c)
  unfolding loop_turn service_bridge drain_loop retry idle_turn
  loop_turn-Idle c h =
      let ended : (c.deferred_csr0_tail == c.deferred_csr0_head) ≡ true =
        ground (arith, h.drained) in
      let over : ltb 0 c.tdmd_retry ≡ false = ground (arith, h.untried) in
      rw (h.unasked, ended, over) refl

  settles :
      (n : ℕ) (c : Card)
      → Sound c
      → Idle c
      → c.int_hold ≤ n
      → (d : Card) × (turns stack (suc n) c ≡ some d)
        × Steady c d
        × (rd64 mbx_int_off d ≡ int_line (csr0 c))
  unfolding turns
  settles zero c s i l =
      let t = idle_turn_lem c in
      (
        idle_turn c,
        ap (λ o. o >>= λ d. some d) (loop_turn-Idle c i),
        t.0,
        told_slot (idle_turn c) _ (idle_turn-Sound c s) (t.2 (omega arith)),
      )
  settles (suc n) c s i l =
      let t = idle_turn_lem c in
      let later =
        settles n (idle_turn c) (idle_turn-Sound c s) (Steady-Idle t.0 i) (omega (arith, t.1)) in
      (
        later.0,
        ap (λ o. o >>= λ d. turns stack (suc n) d) (loop_turn-Idle c i) ∙ later.1,
        Steady-trans t.0 later.2,
        later.3 ∙ ap int_line t.0.csr0,
      )

  -- From any state in which the daemon's variables are in their ranges, the slot of the interrupt
  -- line has what last_mbx_int says, where it says anything, the registers have 16 bits, TXON and
  -- RXON are clear if STOP is set, both rings begin inside card memory, and there is no request,
  -- deferred write or transmission to try again, 101 turns of the loop, with nothing else
  -- happening, end without a fault, keep CSR0 and leave the slot of the interrupt line at one
  -- exactly when INTR and INEA are both set.
  pub loop_settles :
      (c : Card)
      → Sound c
      → Idle c
      → (e : Card) × (turns stack 101 c ≡ some e)
        × (csr0 e ≡ csr0 c)
        × (rd64 0x8020 e ≡ (if has (csr0 c) 0x80 && has (csr0 c) 0x40 then 1 else 0))
  unfolding int_line
  loop_settles c s i = let e = settles 100 c s i s.bounded.held in (e.0, e.1, e.2.csr0, e.3)

-- The daemon takes the line to be down, as CSR0 has it, and the slot has a one.
pub record Behind (c : Card) : Type 0 where
  pub last : c.last_mbx_int ≡ some 0
  pub low : has (csr0 c) 0x80 && has (csr0 c) 0x40 ≡ false
  pub up : rd64 0x8020 c ≡ 1

hold-Behind : (c : Card) → Behind c → hold c ≡ record c { int_hold = c.int_hold - 1 }
unfolding hold write_mbx_int int_line
hold-Behind c h =
    let line : ℕ = int_line (csr0 c) in
    let told : Card = record (wr64 mbx_int_off line c) { last_mbx_int = some line } in
    let seen : Option ℕ → Card =
      λ o. elim o [ none ↦ told | some last ↦ if line == last then c else told ] in
    let down : (line == 0) ≡ true = rw h.low refl in
    elim (Bool-cases (ltb 0 c.int_hold)) [
      | inl held ↦ rw held refl
      | inr over ↦
          let same : c.int_hold ≡ c.int_hold - 1 = ground arith in
          rw over (
            ap seen h.last
            ∙ ap (λ (b : Bool). if b then c else told) down
            ∙ ap (λ n. record c { int_hold = n }) same)
    ]

refresh-Behind : (c : Card) → Behind c → refresh c ≡ record c { int_refresh = 0 }
unfolding refresh
refresh-Behind c h =
    let seen : Option ℕ → Card = λ o. elim o [
      | none ↦ record c { int_refresh = 0 }
      | some last ↦
          if last == 1
          then (if leb 10 (c.int_refresh + 1)
              then record (wr64 mbx_int_off 1 c) { int_refresh = 0 }
              else record c { int_refresh = c.int_refresh + 1 })
          else record c { int_refresh = 0 }
    ] in
    ap seen h.last

Behind-idle_turn :
    (c : Card) → Behind c → idle_turn c ≡ record c { int_hold = c.int_hold - 1; int_refresh = 0 }
unfolding idle_turn
Behind-idle_turn c h =
    ap refresh (hold-Behind c h)
    ∙ refresh-Behind (record c { int_hold = c.int_hold - 1 })
        (record { last = h.last; low = h.low; up = h.up })

-- Once last_mbx_int says that the interrupt line is down, as CSR0 does, while the slot of the
-- line has a one, however many turns the loop makes with no request, deferred write or
-- transmission to try again and nothing else happening, none of them faults, and the slot keeps
-- its one and CSR0 its value.
pub slot_stuck :
    (stack : Array) (n : ℕ) (c : Card)
    → Idle c
    → Behind c
    → (d : Card) × (turns stack n c ≡ some d) × (csr0 d ≡ csr0 c) × (rd64 0x8020 d ≡ 1)
unfolding turns
slot_stuck stack zero c i h = (c, refl, refl, h.up)
slot_stuck stack (suc n) c i h =
    let d : Card = record c { int_hold = c.int_hold - 1; int_refresh = 0 } in
    let at_d : Idle d = record { unasked = i.unasked; drained = i.drained; untried = i.untried } in
    let rest = slot_stuck stack n d at_d (record { last = h.last; low = h.low; up = h.up }) in
    (
      rest.0,
      ap (λ o. o >>= turns stack n) (loop_turn-Idle stack c i ∙ ap some (Behind-idle_turn c h))
          ∙ rest.1,
      rest.2,
      rest.3,
    )
