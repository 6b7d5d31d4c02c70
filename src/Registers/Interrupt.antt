-- ===== src/Registers/Interrupt.antt =====
-- `rethink`: when INTR is set and when the daemon is told.
use a.Base.{ℕ, ◌≡◌, refl, arith, ◌==◌, if◌then◌else◌, Bool, ◌&&◌, ◌||◌}
use a.Base.{
  bit_and, has, flags, not16, has-split, Bool-cases, inl, inr, sym, has-and, bit_and_assoc,
}
use a.Base.Flags.{bit_and_or, bit_and-or, single, bit_or-zero_right}
use a.Card.{Card, csr0, with_csr0}
use a.Registers.{csr0_rethought, rethink, int_and_enable, int_sources}

-- Some event is pending.
abbrev pub pending : ℕ → Bool
pending v =
    has v 0x4000
    || (has v 0x1000 || (has v 0x0800 || (has v 0x0400 || (has v 0x0200 || has v 0x0100))))

-- A test for INTR and INEA together.
pub int_and_enable_lem :
    (v : ℕ) → (bit_and v int_and_enable == int_and_enable) ≡ (has v 0x80 && has v 0x40)
int_and_enable_lem v = ground (arith, bit_and_or v 0x80 0x40, single 7 v, single 6 v)

sources_lem : (v : ℕ) → has v int_sources ≡ pending v
sources_lem v =
    rw
      (
        has-split v 0x4000 0x1f00,
        has-split v 0x1000 0x0f00,
        has-split v 0x0800 0x0700,
        has-split v 0x0400 0x0300,
        has-split v 0x0200 0x0100,
      )
      refl

cleared_lem : (v : ℕ) → has (bit_and v (not16 0x80)) int_sources ≡ pending v
cleared_lem v = rw has-and (sources_lem v)

pub csr0_rethought_intr : (v : ℕ) → has (csr0_rethought v) 0x80 ≡ pending v
unfolding csr0_rethought
csr0_rethought_intr v = elim (Bool-cases (pending v)) [
  | inl e ↦ rw (cleared_lem v, e) (simp flags (unfold has in ground arith))
  | inr e ↦ rw (cleared_lem v, e) (simp flags)
]

pub csr0_rethought_kept : (v : ℕ) → bit_and (csr0_rethought v) (not16 0x80) ≡ bit_and v (not16 0x80)
unfolding csr0_rethought
csr0_rethought_kept v = elim (Bool-cases (pending v)) [
  | inl e ↦ rw (cleared_lem v, e, bit_and-or, bit_and_assoc) (bit_or-zero_right _)
  | inr e ↦ rw (cleared_lem v, e, bit_and_assoc) refl
]

-- A flag other than INTR is not changed.
pub csr0_rethought_other :
    (v m : ℕ) → bit_and (not16 0x80) m ≡ m → has (csr0_rethought v) m ≡ has v m
csr0_rethought_other v m h =
    rw (sym h)
      (rw (sym (has-and (csr0_rethought v) (not16 0x80) m), csr0_rethought_kept, has-and) refl)

-- rethink sets INTR exactly when some event is pending, keeps every other flag, and tells the
-- daemon exactly when INTR and INEA are then both set.
pub rethink_lem :
    (on_interrupt : Card → Card) (c : Card)
    → let d = with_csr0 c (csr0_rethought (csr0 c)) in
      (rethink on_interrupt c
        ≡ (if pending (csr0 c) && has (csr0 c) 0x40 then on_interrupt d else d))
      × (has (csr0 d) 0x80 ≡ pending (csr0 c))
      × (bit_and (csr0 d) (not16 0x80) ≡ bit_and (csr0 c) (not16 0x80))
unfolding rethink
rethink_lem on_interrupt c = (
  rw
      (
        int_and_enable_lem (csr0_rethought (csr0 c)),
        csr0_rethought_intr (csr0 c),
        csr0_rethought_other (csr0 c) 0x40 refl,
      )
      refl,
  csr0_rethought_intr (csr0 c),
  csr0_rethought_kept (csr0 c),
)
