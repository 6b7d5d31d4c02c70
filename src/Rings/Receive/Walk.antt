-- ===== src/Rings/Receive/Walk.antt =====
-- The walk over the receive ring.
use a.Base.{ℕ, zero, suc, ◌+◌, ◌-◌, ◌%◌, ◌≤◌, ◌<◌, ◌≡◌, arith, leb, Bool, true, false}
use a.Base.{ltb, ◌⊎◌, none, some, Array, has, Bool-cases, inl, inr, refl}
use a.Ram.Bytes.{IsBytes, get_ram_word-lt, ram_write_block-IsBytes}
use a.Types.{rx_own, max_packet_size}
use a.Card.{Card}
use a.Rings.Descriptor.{Descriptor, descriptor_off, read_descriptor, put_flags-IsBytes}
use a.Rings.Receive.{Walked, fill_buffer, no_buffer, rx_walk}

pub fill_buffer-IsBytes :
    (d : Array) (len insize : ℕ) (first : Bool) (i off : ℕ) (md : Descriptor) (c : Card)
    → IsBytes d
    → IsBytes c.boardram
    → IsBytes (fill_buffer d len insize first i off md c).boardram
unfolding fill_buffer
fill_buffer-IsBytes d len insize first i off md c h b =
    put_flags-IsBytes off _ _ (record c { rdr_offset = i + 1; boardram = _ })
      (ram_write_block-IsBytes d _ insize (65536 - md.md2) c.boardram h b)

buffer_size_bounds :
    (ram : Array) (off : ℕ) → IsBytes ram → 1 ≤ 65536 - (read_descriptor ram off).md2
unfolding read_descriptor
buffer_size_bounds ram off h = omega (arith, get_ram_word-lt ram (off + 4) h)

-- The descriptor that the walk stands at.
module _ (c : Card) where
  abbrev pub index : ℕ
  index = c.rdr_offset % c.am_rdr_rlen

  abbrev pub offset : ℕ
  offset = descriptor_off c.am_rdr_rdra index

  abbrev pub current : Descriptor
  current = read_descriptor c.boardram offset

  abbrev pub positioned : Card
  positioned = record c { rdr_offset = index }

-- From `insize` stored bytes on, the walk comes to a buffer of the chip that ends beyond the 4096
-- bytes of `tmp`, having filled those before it.
pub data Overruns (d : Array) (len : ℕ) : ℕ → Bool → Card → Type 0 where
  beyond :
      {insize : ℕ} {first : Bool} {c : Card}
      → has (current c).md1 0x8000 ≡ true
      → 4096 < insize + (65536 - (current c).md2)
      → Overruns d len insize first c
  goes_on :
      {insize : ℕ} {first : Bool} {c : Card}
      → has (current c).md1 0x8000 ≡ true
      → insize + (65536 - (current c).md2) < len
      → Overruns d len
          (insize + (65536 - (current c).md2))
          false
          (fill_buffer d len insize first (index c) (offset c) (current c) (positioned c))
      → Overruns d len insize first c

pub Overruns-none :
    (d : Array) (len fuel : ℕ) {insize : ℕ} {first : Bool} {c : Card}
    → Overruns d len insize first c
    → rx_walk d len fuel insize first c ≡ none
unfolding rx_walk
Overruns-none d len zero o = refl
Overruns-none d len (suc f) {insize} {first} {c} (beyond own l) =
    let out : ltb max_packet_size (insize + (65536 - (current c).md2)) ≡ true = ground (arith, l) in
    rw (own, out) refl
Overruns-none d len (suc f) {insize} {first} {c} (goes_on own l o) =
    let more : leb len (insize + (65536 - (current c).md2)) ≡ false = ground (arith, l) in
    let rest = Overruns-none d len f o in
    elim (Bool-cases (ltb max_packet_size (insize + (65536 - (current c).md2)))) [
      | inl out ↦ rw (own, out) refl
      | inr room ↦ rw (own, room, more) rest
    ]

-- The walk has enough fuel: it returns, or comes to a buffer that is too long.
pub rx_walk_returns :
    (d : Array) (len fuel insize : ℕ) (first : Bool) (c : Card)
    → IsBytes d
    → IsBytes c.boardram
    → len < insize + fuel
    → insize < len
    → ((w : Walked) × (rx_walk d len fuel insize first c ≡ some w)) ⊎ Overruns d len insize first c
unfolding rx_walk
rx_walk_returns d len zero insize first c h b p r = absurd (omega arith)
rx_walk_returns d len (suc f) insize first c h b p r =
    let md : Descriptor = current c in
    let filled : Card = fill_buffer d len insize first (index c) (offset c) md (positioned c) in
    let some_bytes : 1 ≤ 65536 - md.md2 = buffer_size_bounds c.boardram (offset c) b in
    let end : ℕ = insize + (65536 - md.md2) in
    elim (Bool-cases (has md.md1 rx_own)) [
      | inr e ↦ inl ((no_buffer first (offset c) md (positioned c), false), rw e refl)
      | inl own ↦ elim (Bool-cases (ltb max_packet_size end)) [
        | inl out ↦ inr (beyond own (ground arith))
        | inr room ↦ elim (Bool-cases (leb len end)) [
          | inl last ↦ inl ((filled, true), rw (own, room, last) refl)
          | inr more ↦
              elim (rx_walk_returns d len f end false filled h
                (fill_buffer-IsBytes d len insize first (index c) (offset c) md (positioned c) h b)
                (omega arith) (ground arith)) [
                  | inl w ↦ inl (w.0, rw (own, room, more) w.1)
                  | inr o ↦ inr (goes_on own (ground arith) o)
                ]
        ]
      ]
    ]

module _ (d : Array) (len fuel : ℕ) (c : Card) where
  -- No buffer for the frame at all.
  pub rx_walk-no_buffer :
      has (current c).md1 rx_own ≡ false
      → rx_walk d len (suc fuel) 0 true c
        ≡ some (no_buffer true (offset c) (current c) (positioned c), false)
  unfolding rx_walk
  rx_walk-no_buffer h = rw h refl

  -- One buffer holds the whole frame.
  pub rx_walk_one_buffer :
      has (current c).md1 rx_own ≡ true
      → 65536 - (current c).md2 ≤ 4096
      → len ≤ 65536 - (current c).md2
      → rx_walk d len (suc fuel) 0 true c
        ≡ some (fill_buffer d len 0 true (index c) (offset c) (current c) (positioned c), true)
  unfolding rx_walk
  rx_walk_one_buffer h k l = ground arith
