-- ===== src/Rings/Transmit/Gather.antt =====
-- The loop of `do_transmit` over a chain of descriptors ends, and stays inside `transmitbuffer`.
use a.Base.{ℕ, zero, suc, ◌+◌, ◌%◌, ◌≤◌, ◌<◌, ◌≡◌, arith, ltb}
use a.Base.{Option, none, some, Array, bit_and, has, not16, Bool-cases, inl, inr, refl}
use a.Ram.Bytes.{IsBytes, get_ram_word-lt}
use a.Types.{tx_own, tx_enp}
use a.Card.{Card}
use a.Rings.Descriptor.{Descriptor, descriptor_off, read_descriptor, put_flags, put_flags-IsBytes}
use a.Rings.Transmit.{Gathered, tx_size, not_owned, take_buffer, taken_size, tx_gather, tx_fuel}

-- Every descriptor takes at least one byte, and at most 4096.
tx_size_bounds :
    (ram : Array) (off : ℕ)
    → IsBytes ram
    → (1 ≤ tx_size (read_descriptor ram off)) × (tx_size (read_descriptor ram off) ≤ 4096)
unfolding tx_size read_descriptor
tx_size_bounds ram off h = ground (arith, get_ram_word-lt ram (off + 4) h)

taken_size_bounds :
    (outsize : ℕ) (md : Descriptor) (c : Card)
    → outsize + tx_size md ≤ 4096
    → (outsize + tx_size md ≤ taken_size outsize md c) × (taken_size outsize md c ≤ 4096)
unfolding taken_size
taken_size_bounds outsize md c h = ground arith

-- The loop has ended and left at most 4096 bytes.
abbrev pub Fits : Option Gathered → Type 0
Fits none = ⊥
Fits (some g) = g.outsize ≤ 4096

not_owned-Fits :
    (outsize off : ℕ) (md : Descriptor) (c : Card)
    → outsize ≤ 4096
    → (not_owned outsize off md c).outsize ≤ 4096
unfolding not_owned
not_owned-Fits outsize off md c h = h

taken_ram :
    (outsize i off md1 md3 : ℕ) (md : Descriptor) (c : Card)
    → IsBytes c.boardram
    → IsBytes (put_flags off md1 md3 (take_buffer outsize i md c)).boardram
taken_ram outsize i off md1 md3 md c h =
    put_flags-IsBytes off md1 md3 (take_buffer outsize i md c) (unfold take_buffer in h)

tx_gather-Fits :
    (fuel outsize : ℕ) (c : Card)
    → IsBytes c.boardram
    → outsize ≤ 4096
    → 4096 < outsize + fuel
    → Fits (tx_gather fuel outsize c)
unfolding tx_gather
tx_gather-Fits zero outsize c b h f = absurd (omega arith)
tx_gather-Fits (suc fuel) outsize c b h f =
    let i : ℕ = c.tdr_offset % c.am_tdr_tlen in
    let off : ℕ = descriptor_off c.am_tdr_tdra i in
    let md : Descriptor = read_descriptor c.boardram off in
    let here : Card = record c { tdr_offset = i } in
    let next : Card =
      put_flags off (bit_and md.md1 (not16 tx_own)) md.md3 (take_buffer outsize i md here) in
    let some_bytes : 1 ≤ tx_size md = (tx_size_bounds c.boardram off b).0 in
    elim (Bool-cases (has md.md1 tx_own)) [
      | inr free ↦ rw free (not_owned-Fits outsize off md here h)
      | inl own ↦ elim (Bool-cases (ltb 4096 (outsize + tx_size md))) [
        | inl full ↦ rw (own, full) h
        | inr room ↦
            let bounds : (outsize + tx_size md ≤ taken_size outsize md here)
                × (taken_size outsize md here ≤ 4096) =
              taken_size_bounds outsize md here (ground arith) in
            elim (Bool-cases (has md.md1 tx_enp)) [
              | inl last ↦ rw (own, room, last) (bounds.1)
              | inr more ↦
                  rw (own, room, more)
                    (tx_gather-Fits fuel (taken_size outsize md here) next
                      (taken_ram outsize i off (bit_and md.md1 (not16 tx_own)) md.md3 md here b)
                      bounds.1 (omega arith))
            ]
      ]
    ]

-- When card memory holds bytes the loop of do_transmit ends, whatever its descriptors say, and
-- what it has copied fits transmitbuffer.
pub tx_gather_returns :
    (c : Card)
    → IsBytes c.boardram
    → (g : Gathered) × (tx_gather tx_fuel 0 c ≡ some g) × (g.outsize ≤ 4096)
tx_gather_returns c b =
    go (tx_gather tx_fuel 0 c) refl (tx_gather-Fits tx_fuel 0 c b (omega arith) enough)
  where
    enough : 4096 < 0 + tx_fuel
    enough = unfold tx_fuel in omega arith

    go :
        (r : Option Gathered)
        → tx_gather tx_fuel 0 c ≡ r
        → Fits r
        → (g : Gathered) × (tx_gather tx_fuel 0 c ≡ some g) × (g.outsize ≤ 4096)
    go none e f = absurd f
    go (some g) e f = (g, e, f)
