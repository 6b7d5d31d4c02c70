-- ===== src/Registers/WellFormed.antt =====
-- The invariant of the card: the stopped chip is off, every register has 16 bits, and both rings
-- begin inside card memory.
use a.Base.{ℕ, ◌^◌, ◌≤◌, ◌<◌, ◌≡◌, arith, ◌==◌, leb, if◌then◌else◌, Bool, true, false}
use a.Base.{
  bit_and, bit_or, not16, has, update, Array, Option, some, ◌∙◌, Bool-cases, inl, inr, sym, OnSome,
  OnSome-some, OnSome-bind,
}
use a.Base.Bits.{bit_and-lt, bit_or-lt}
use a.Base.Flags.{clear-lt}
use mathlib.Core.Path.{subst}
use a.Card.{Card, csr0, with_csr0}
use a.Registers.{
  csr0_written, switch_on, obey, demand, demand_done, write_csr0, chip_wput, chip_init,
  chip_init_mask, write_stopped, write_other,
}
use a.Registers.Halted.{Halts, obey-Halts, switched_on, done-Halts}
use a.Registers.Control.{switch_on_flags}
use a.Registers.Init.{RingsInside, chip_init-IsBlockRing, write_other-RingsInside}
use a.Registers.Access.{write_other-Keeps}
use a.Registers.Survive.{Survives, rethink-Survives}

pub record WellFormed (c : Card) : Type 0 where
  pub halts : Halts (csr0 c)
  pub words : (i : ℕ) → c.csr i < 0x10000
  pub rings : RingsInside c

pub words-update :
    (csr : Array) (i v : ℕ)
    → ((j : ℕ) → csr j < 0x10000)
    → v < 0x10000
    → (j : ℕ) → update csr i v j < 0x10000
words-update csr i v h b j = ground (arith, h j)

pub WellFormed-Survives : Survives WellFormed
WellFormed-Survives = record {
  reads = λ c ram buf len tdr rdr iter frames h. record {
    halts = h.halts;
    words = h.words;
    rings = record { receive = h.rings.receive; transmit = h.rings.transmit };
  };
  touches = λ c w t h. record {
    halts = λ s. (t.txon (h.halts (sym t.stop ∙ s)).0, t.rxon (h.halts (sym t.stop ∙ s)).1);
    words = words-update c.csr 0 w h.words (t.words (h.words 0));
    rings = record { receive = h.rings.receive; transmit = h.rings.transmit };
  };
}

pub csr0_written-lt : (old v : ℕ) → old < 2 ^ 16 → v < 2 ^ 16 → csr0_written old v < 2 ^ 16
unfolding csr0_written
csr0_written-lt old v h k = bit_and-lt 16 _ _ (
    clear-lt _ _ (
      bit_or-lt 16 _ _ (bit_or-lt 16 _ _ (bit_and-lt 16 old _ h) (bit_and-lt 16 v _ k))
        (bit_and-lt 16 v _ k)))

pub switch_on-lt : (mode v : ℕ) → v < 2 ^ 16 → switch_on mode v < 2 ^ 16
unfolding switch_on
switch_on-lt mode v h = ground (
  arith,
  bit_and-lt 16 v 0xfffb h,
  bit_or-lt 16 (bit_and v 0xfffb) 0x10,
  bit_or-lt 16 (bit_and v 0xfffb) 0x20,
  bit_or-lt 16 (bit_or (bit_and v 0xfffb) 0x10) 0x20,
)

csr-WellFormed :
    (c : Card) (csr : Array)
    → Halts (csr 0)
    → ((i : ℕ) → csr i < 0x10000)
    → RingsInside c
    → WellFormed (record c { csr = csr })
csr-WellFormed c csr a b r = record {
  halts = a;
  words = b;
  rings = record { receive = r.receive; transmit = r.transmit };
}

pub obey-words :
    (old : ℕ) (c : Card) → ((i : ℕ) → c.csr i < 0x10000) → (i : ℕ) → (obey old c).csr i < 0x10000
unfolding obey chip_init chip_init_mask
obey-words old c h i = ground (
  arith,
  h i,
  switch_on-lt c.am_mode (csr0 c) (h 0),
  bit_or-lt 16 (switch_on c.am_mode (csr0 c)) 0x100,
  bit_or-lt 16 (csr0 c) 0x100 (h 0),
  bit_and-lt 16 (bit_or (csr0 c) 0x100) 0xffcb,
)

chip_init-RingsInside : (c : Card) → RingsInside (chip_init c)
chip_init-RingsInside c = record {
  receive = (chip_init-IsBlockRing c).0.inside;
  transmit = (chip_init-IsBlockRing c).1.inside;
}

obey-RingsInside : (old : ℕ) (c : Card) → RingsInside c → RingsInside (obey old c)
unfolding obey
obey-RingsInside old c h =
    let d : Card = with_csr0 c (switch_on c.am_mode (csr0 c)) in
    record {
      receive =
          ground (
            arith,
            (chip_init-RingsInside c).receive,
            (chip_init-RingsInside d).receive,
            h.receive,
          );
      transmit = ground (
        arith,
        (chip_init-RingsInside c).transmit,
        (chip_init-RingsInside d).transmit,
        h.transmit,
      );
    }

commanded-WellFormed :
    (c : Card) (v : ℕ)
    → v < 0x10000
    → WellFormed c
    → WellFormed (obey (csr0 c) (with_csr0 c (csr0_written (csr0 c) v)))
commanded-WellFormed c v b h =
    let w : ℕ = csr0_written (csr0 c) v in
    record {
      halts = obey-Halts c v h.halts;
      words =
          obey-words (csr0 c) (with_csr0 c w)
            (words-update c.csr 0 w h.words (csr0_written-lt (csr0 c) v (h.words 0) b));
      rings =
          obey-RingsInside (csr0 c) (with_csr0 c w)
            (record { receive = h.rings.receive; transmit = h.rings.transmit });
    }

write_stopped-WellFormed :
    (c : Card) (n v : ℕ) → 1 ≤ n → v < 0x10000 → WellFormed c → WellFormed (write_stopped c n v)
unfolding write_stopped
write_stopped-WellFormed c n v l b h = elim (Bool-cases (has (csr0 c) 4)) [
  | inr e ↦ rw e h
  | inl e ↦ rw e (
      csr-WellFormed c (update c.csr n v) (subst Halts (unchanged n l) h.halts)
        (words-update c.csr n v h.words b) h.rings)
]
  where
    unchanged : (n : ℕ) → 1 ≤ n → csr0 c ≡ update c.csr n v 0
    unchanged n l = ground arith

write_other-WellFormed :
    (c : Card) (v : ℕ) → v < 0x10000 → WellFormed c → WellFormed (write_other c v)
write_other-WellFormed c v b h = record {
  halts = subst Halts (sym (write_other-Keeps c v).0) h.halts;
  words = λ i. unfold write_other chip_init_mask in ground (arith, h.words i);
  rings = write_other-RingsInside c v h.rings;
}

switched_on-WellFormed : (c : Card) → WellFormed c → WellFormed (switched_on c)
unfolding switched_on
switched_on-WellFormed c h = elim (Bool-cases (has (csr0 c) 0x10)) [
  | inl e ↦ rw e h
  | inr e ↦
      let v : ℕ = switch_on c.am_mode (csr0 c) in
      rw e (
        csr-WellFormed c (update c.csr 0 v)
          (λ s. absurd (ground (arith, s, (switch_on_flags c.am_mode (csr0 c)).0)))
          (words-update c.csr 0 v h.words (switch_on-lt c.am_mode (csr0 c) (h.words 0))) h.rings)
]

demand_done-WellFormed : (c : Card) → WellFormed c → WellFormed (demand_done c)
unfolding demand_done
demand_done-WellFormed c h =
    csr-WellFormed c (update c.csr 0 (bit_and (csr0 c) (not16 8))) (done-Halts (csr0 c) h.halts)
      (words-update c.csr 0 _ h.words (bit_and-lt 16 (csr0 c) _ (h.words 0))) h.rings

module _ (on_interrupt : Card → Card) (on_transmit : Card → Option Card)
    (reports : (c : Card) → WellFormed c → WellFormed (on_interrupt c))
    (transmits : (c : Card) → WellFormed c → OnSome WellFormed (on_transmit c)) where
  tried-WellFormed :
      (b : Bool) (c : Card)
      → WellFormed c
      → OnSome WellFormed (if b then on_transmit (switched_on c) else some c)
  tried-WellFormed true c h = transmits (switched_on c) (switched_on-WellFormed c h)
  tried-WellFormed false c h = OnSome-some h

  demand-WellFormed : (c : Card) → WellFormed c → OnSome WellFormed (demand on_transmit c)
  unfolding demand switched_on
  demand-WellFormed c h = elim (Bool-cases (has (csr0 c) 8)) [
    | inr e ↦ rw e (OnSome-some h)
    | inl e ↦ rw e (
        OnSome-bind WellFormed (tried-WellFormed c.am_initialized c h)
          (λ d k. OnSome-some (demand_done-WellFormed d k)))
  ]

  write_csr0-WellFormed :
      (c : Card) (v : ℕ)
      → v < 0x10000
      → WellFormed c
      → OnSome WellFormed (write_csr0 on_interrupt on_transmit c v)
  unfolding write_csr0
  write_csr0-WellFormed c v b h =
      OnSome-bind WellFormed (demand-WellFormed _ (commanded-WellFormed c v b h))
        (λ d k. OnSome-some (rethink-Survives WellFormed-Survives on_interrupt reports d k))

  -- Every write of a register keeps the card well formed.
  pub chip_wput-WellFormed :
      (reg_offset v : ℕ) (c : Card)
      → v < 0x10000
      → WellFormed c
      → OnSome WellFormed (chip_wput on_interrupt on_transmit reg_offset v c)
  unfolding chip_wput
  chip_wput-WellFormed reg_offset v c b h = elim (Bool-cases (reg_offset == 2)) [
    | inl r ↦ rw r (
        OnSome-some (record {
          halts = h.halts;
          words = h.words;
          rings = record { receive = h.rings.receive; transmit = h.rings.transmit };
        }))
    | inr r ↦ elim (Bool-cases (leb 128 c.rap)) [
      | inl l ↦ rw (r, l) (OnSome-some h)
      | inr l ↦ elim (Bool-cases (c.rap == 0)) [
        | inl z ↦ rw (r, l, z) (write_csr0-WellFormed c v b h)
        | inr z ↦ elim (Bool-cases (c.rap == 1)) [
          | inl e ↦
              rw (r, l, z, e)
                (OnSome-some (write_stopped-WellFormed c 1 _ (omega arith) (bit_and-lt 16 v _ b) h))
          | inr e ↦ elim (Bool-cases (c.rap == 2)) [
            | inl f ↦
                rw (r, l, z, e, f)
                  (OnSome-some
                    (write_stopped-WellFormed c 2 _ (omega arith) (bit_and-lt 16 v _ b) h))
            | inr f ↦ elim (Bool-cases (c.rap == 3)) [
              | inl g ↦
                  rw (r, l, z, e, f, g)
                    (OnSome-some
                      (write_stopped-WellFormed c 3 _ (omega arith) (bit_and-lt 16 v _ b) h))
              | inr g ↦ rw (r, l, z, e, f, g) (OnSome-some (write_other-WellFormed c v b h))
            ]
          ]
        ]
      ]
    ]
  ]
