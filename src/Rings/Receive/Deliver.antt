-- ===== src/Rings/Receive/Deliver.antt =====
-- What a stored frame looks like in card memory.
use a.Base.{
  ℕ, suc, ◌+◌, ◌*◌, ◌%◌, ◌^◌, ◌≤◌, ◌<◌, ◌≡◌, ◌≢◌, refl, arith, leb, if◌then◌else◌, true, false,
}
use a.Base.{bit_and, bit_or, has, flags, bit_and_low, some, ap, ◌∙◌, Array, Bool-cases, inl, inr}
use a.Ram.{get_ram_word, put_ram_word, get_ram_byte}
use a.Ram.Words.{get_ram_word-put_ram_word, get_ram_word-put_ram_word_ne, get_ram_byte-put_ram_word}
use a.Card.{Card, csr0}
use a.Registers.{rethink, registers_csr0_set}
use a.Rings.Descriptor.{Descriptor, buffer_addr, put_flags}
use a.Rings.Receive.{store_frame, rx_walk, rx_done, append_crc}
use a.Rings.Receive.{filled_flags, no_buffer}
use a.Rings.Receive.Walk.{index, offset, current, positioned, rx_walk-no_buffer}

-- The flags that a descriptor is handed back with.
pub filled_flags_last :
    (insize len : ℕ) (md : Descriptor)
    → len ≤ insize
    → (has (filled_flags true insize len md) 0x8000 ≡ false)
      × (has (filled_flags true insize len md) 0x0200 ≡ true)
      × (has (filled_flags true insize len md) 0x0100 ≡ true)
unfolding filled_flags
filled_flags_last insize len md h = elim (Bool-cases (leb len insize)) [
  | inl e ↦ rw e (
    simp flags (unfold has in refl),
    simp flags (unfold has in ground arith),
    simp flags (unfold has in ground arith),
  )
  | inr e ↦ absurd (ground arith)
]

pub buffer_addr-lt : (md : Descriptor) → buffer_addr md < 0x8000
unfolding buffer_addr
buffer_addr-lt md = omega (arith, bit_and_low 15 (bit_or md.md0 (bit_and md.md1 0xff * 2 ^ 16)))

-- The flags and the count of a descriptor as the Amiga reads them afterwards.
pub put_flags_lem :
    (off md1 md3 : ℕ) (c : Card)
    → md1 < 0x10000
    → md3 < 0x10000
    → off + 7 < 0x1_0000_0000
    → (get_ram_word (put_flags off md1 md3 c).boardram (off + 2) ≡ md1)
      × (get_ram_word (put_flags off md1 md3 c).boardram (off + 6) ≡ md3)
unfolding put_flags
put_flags_lem off md1 md3 c h k l = ground (
  arith,
  get_ram_word-put_ram_word_ne (put_ram_word c.boardram (off + 2) md1) (off + 6) md3 (off + 2),
  get_ram_word-put_ram_word c.boardram (off + 2) md1,
  get_ram_word-put_ram_word (put_ram_word c.boardram (off + 2) md1) (off + 6) md3,
)

-- Address `a` is none of the four bytes that hold the flags and the count of the descriptor.
abbrev pub Apart : ℕ → ℕ → Type 0
Apart off a =
    ((off + 2) % 0x8000 ≢ a % 0x8000)
    × ((off + 3) % 0x8000 ≢ a % 0x8000)
    × ((off + 6) % 0x8000 ≢ a % 0x8000)
    × ((off + 7) % 0x8000 ≢ a % 0x8000)

pub put_flags-Apart :
    (off md1 md3 : ℕ) (c : Card) (a : ℕ)
    → md1 < 0x10000
    → md3 < 0x10000
    → off + 7 < 0x1_0000_0000
    → Apart off a
    → get_ram_byte (put_flags off md1 md3 c).boardram a ≡ get_ram_byte c.boardram a
unfolding put_flags
put_flags-Apart off md1 md3 c a h k l m = ground (
  arith,
  get_ram_byte-put_ram_word (put_ram_word c.boardram (off + 2) md1) (off + 6) md3 a,
  get_ram_byte-put_ram_word c.boardram (off + 2) md1 a,
)

-- A frame in its buffer: `len` counts the checksum.
pub record IsDelivered (d : Array) (len : ℕ) (c e : Card) : Type 0 where
  pub owned_by_amiga : has (get_ram_word e.boardram (offset c + 2)) 0x8000 ≡ false
  pub start : has (get_ram_word e.boardram (offset c + 2)) 0x0200 ≡ true
  pub end : has (get_ram_word e.boardram (offset c + 2)) 0x0100 ≡ true
  pub count : get_ram_word e.boardram (offset c + 6) ≡ len
  pub advanced : e.rdr_offset ≡ index c + 1
  pub bytes :
      (j : ℕ)
      → j < len
      → Apart (offset c) (buffer_addr (current c) + j)
      → get_ram_byte e.boardram (buffer_addr (current c) + j) ≡ d j

-- What the program does once a frame is stored: RINT is set, INTR follows from it, and in loopback
-- mode (0x0004) the round is counted.
abbrev pub reported : (Card → Card) → Card → Card
reported on_interrupt e =
    let d : Card = rethink on_interrupt (registers_csr0_set 0x0400 e) in
    if has d.am_mode 0x0004 then record d { loopback_iter = d.loopback_iter + 1 } else d

append_crc_frame : (q : Array) (len j : ℕ) → j < len → append_crc q len j ≡ q j
unfolding append_crc
append_crc_frame q len j h = ground arith

-- With no buffer for it, as the Amiga owns the next descriptor, a frame of at most 4092 bytes is
-- dropped: MISS is set in CSR0 as it was, INTR follows from CSR0 as the callback does, the walk
-- stays at the descriptor, and of card memory only its flags word is written, with the value it
-- had.
pub store_frame_missed :
    (on_interrupt : Card → Card) (q : Array) (len : ℕ) (c : Card)
    → len ≤ 4092
    → has (current c).md1 0x8000 ≡ false
    → (e : Card) × (store_frame on_interrupt q len c ≡ some (rethink on_interrupt e))
      × (csr0 e ≡ bit_or (csr0 c) 0x1000)
      × (e.boardram ≡ put_ram_word c.boardram (offset c + 2) (current c).md1)
      × (e.rdr_offset ≡ index c)
unfolding store_frame
store_frame_missed on_interrupt q len c l own =
    (e, ground (arith, walk, done), seen.0, seen.1, seen.2)
  where
    e : Card
    e = no_buffer true (offset c) (current c) (positioned c)

    walk : rx_walk (append_crc q len) (len + 4) (len + 5) 0 true c ≡ some (e, false)
    walk =
        ap (λ (n : ℕ). rx_walk (append_crc q len) (len + 4) n 0 true c) {x = len + 5}
          {y = suc (len + 4)} (omega arith)
        ∙ rx_walk-no_buffer (append_crc q len) (len + 4) (len + 4) c own

    done : rx_done on_interrupt (e, false) ≡ rethink on_interrupt e
    done = unfold rx_done in refl

    seen :
        (csr0 e ≡ bit_or (csr0 c) 0x1000)
        × (e.boardram ≡ put_ram_word c.boardram (offset c + 2) (current c).md1)
        × (e.rdr_offset ≡ index c)
    seen = unfold no_buffer registers_csr0_set in (refl, refl, refl)
