-- ===== src/Rings/Transmit/Chain.antt =====
-- A frame in several buffers: the loop of `do_transmit` over a chain of descriptors.
pub mod Gather
pub mod Send
use a.Base.{
  ℕ, zero, suc, ◌+◌, ◌-◌, ◌*◌, ◌%◌, ◌≤◌, ◌<◌, ◌≡◌, ◌≢◌, refl, sym, arith, ◌==◌, ltb, Bool, true,
  false, ap, ◌∙◌,
}
use a.Base.{
  Option, none, some, Array, List, [], ◌∷◌, ◌++◌, slice, bit_and, has, not16, length, bit_and_low,
  u32, fun_ext, flags,
}
use native.Mathlib.Nat.{mod-eq_of_lt}
use mathlib.Core.Path.{subst}
use a.Types.{tx_own, tx_enp, mode_loop}
use a.Ram.{get_ram_word, get_ram_byte, ram_read_block}
use a.Ram.Bytes.{IsBytes, get_ram_word-lt}
use a.Ram.Blocks.{ram_read_block_lem}
use a.Card.{Card}
use a.Rings.Descriptor.{
  Descriptor, descriptor_off, read_descriptor, buffer_addr, put_flags, put_flags-IsBytes,
}
use a.Rings.Receive.Deliver.{Apart, put_flags-Apart, put_flags_lem, buffer_addr-lt}
use a.Rings.Transmit.Send.{tx_size_lem}
use a.Rings.Transmit.{Gathered, tx_size, take_buffer, taken_size, tx_gather}

abbrev pub size_of : Descriptor → ℕ
size_of md = 65536 - md.md2

abbrev pub total : List Descriptor → ℕ
total [] = 0
total (md ∷ ps) = size_of md + total ps

-- The buffers of the chain, one behind the other from `out` on.
unfoldable pub chain_buffer : Array → List Descriptor → ℕ → Array → Array
chain_buffer ram [] out dst = dst
chain_buffer ram (md ∷ ps) out dst =
    chain_buffer ram ps (out + size_of md)
      (ram_read_block ram (buffer_addr md) out (size_of md) dst)

module _ (base len : ℕ) where
  -- What is read of the descriptors from `i` on, and of their buffers, is none of the bytes that
  -- handing back the descriptor at `off` writes.
  unfoldable pub Clear : ℕ → ℕ → List Descriptor → Type 0
  Clear off i [] = Unit
  Clear off i (md ∷ ps) =
      ((a : ℕ) → descriptor_off base i ≤ a → a < descriptor_off base i + 8 → Apart off a)
      × ((a : ℕ) → buffer_addr md ≤ a → a < buffer_addr md + size_of md → Apart off a)
      × Clear off ((i + 1) % len) ps

  -- Descriptor `i` is the chip's, and its buffer still fits.
  pub record Owned (ram : Array) (i out : ℕ) (md : Descriptor) : Type 0 where
    pub inside : i < len
    pub reads : read_descriptor ram (descriptor_off base i) ≡ md
    pub own : has md.md1 tx_own ≡ true
    pub room : out + size_of md ≤ 4096

  -- The chain that begins at descriptor `i`, with `out` bytes before it.
  pub data IsChain (ram : Array) : ℕ → ℕ → List Descriptor → Type 0 where
    last :
        {i out : ℕ} {md : Descriptor}
        → Owned ram i out md
        → has md.md1 tx_enp ≡ true
        → 60 ≤ out + size_of md
        → IsChain ram i out (md ∷ [])
    next :
        {i out : ℕ} {md : Descriptor} {ps : List Descriptor}
        → Owned ram i out md
        → has md.md1 tx_enp ≡ false
        → Clear (descriptor_off base i) ((i + 1) % len) ps
        → IsChain ram ((i + 1) % len) (out + size_of md) ps
        → IsChain ram i out (md ∷ ps)

pub word_ext :
    (ram ram' : Array) (off : ℕ)
    → off + 1 < 0x1_0000_0000
    → get_ram_byte ram off ≡ get_ram_byte ram' off
    → get_ram_byte ram (off + 1) ≡ get_ram_byte ram' (off + 1)
    → get_ram_word ram off ≡ get_ram_word ram' off
unfolding get_ram_word
word_ext ram ram' off h a b = rw (mod-eq_of_lt h, a, b) refl

descriptor_ext :
    (ram ram' : Array) (off : ℕ)
    → off + 7 < 0x1_0000_0000
    → ((a : ℕ) → off ≤ a → a < off + 8 → get_ram_byte ram a ≡ get_ram_byte ram' a)
    → read_descriptor ram off ≡ read_descriptor ram' off
unfolding read_descriptor
descriptor_ext ram ram' off h e =
    let w : (a : ℕ) → off ≤ a → a + 1 < off + 8 → get_ram_word ram a ≡ get_ram_word ram' a =
      λ a p q.
        word_ext ram ram' a (omega arith) (e a (omega arith) (omega arith))
          (e (a + 1) (omega arith) (omega arith)) in
    rw
      (
        w off (omega arith) (omega arith),
        w (off + 2) (omega arith) (omega arith),
        w (off + 4) (omega arith) (omega arith),
        w (off + 6) (omega arith) (omega arith),
      )
      refl

buffer_ext :
    (ram ram' : Array) (addr out size : ℕ) (dst : Array)
    → addr + size ≤ 0x1_0000_0000
    → ((a : ℕ) → addr ≤ a → a < addr + size → get_ram_byte ram a ≡ get_ram_byte ram' a)
    → ram_read_block ram addr out size dst ≡ ram_read_block ram' addr out size dst
buffer_ext ram ram' addr out size dst h e = fun_ext λ j. ground (
  arith,
  ram_read_block_lem ram addr out size dst j h,
  ram_read_block_lem ram' addr out size dst j h,
  e (addr + (j - out)),
)

-- A descriptor is handed back: nothing that `Clear` names is touched.
module _ (base len : ℕ) (fits : base + len * 8 ≤ 0x8000) (off md1 md3 : ℕ) (c : Card)
    (m1 : md1 < 0x10000) (m3 : md3 < 0x10000) (o : off + 7 < 0x1_0000_0000) where
  abbrev ram' : Array
  ram' = (put_flags off md1 md3 c).boardram

  off_lem : (i : ℕ) → i < len → descriptor_off base i + 8 ≤ 0x8000
  off_lem i h = omega (arith, fits)

  Owned-put_flags :
      {i out : ℕ} {md : Descriptor}
      → ((a : ℕ) → descriptor_off base i ≤ a → a < descriptor_off base i + 8 → Apart off a)
      → Owned base len c.boardram i out md
      → Owned base len ram' i out md
  Owned-put_flags {i} ap_ own = record {
    inside = own.inside;
    reads =
        descriptor_ext ram' c.boardram (descriptor_off base i) (omega (arith, off_lem i own.inside))
          (λ a p q. put_flags-Apart off md1 md3 c a m1 m3 o (ap_ a p q))
        ∙ own.reads;
    own = own.own;
    room = own.room;
  }

  pub IsChain-put_flags :
      (ps : List Descriptor) {i out : ℕ}
      → Clear base len off i ps
      → IsChain base len c.boardram i out ps
      → IsChain base len ram' i out ps
  unfolding Clear
  IsChain-put_flags [] cl chain = elim chain [ ]
  IsChain-put_flags (md ∷ ps) cl (last own e h) = last (Owned-put_flags cl.0 own) e h
  IsChain-put_flags (md ∷ ps) cl (next own e d chain) =
      next (Owned-put_flags cl.0 own) e d (IsChain-put_flags ps cl.2 chain)

  pub chain_buffer-put_flags :
      (i : ℕ) (ps : List Descriptor) (out : ℕ) (dst : Array)
      → Clear base len off i ps
      → chain_buffer ram' ps out dst ≡ chain_buffer c.boardram ps out dst
  unfolding chain_buffer Clear
  chain_buffer-put_flags i [] out dst cl = refl
  chain_buffer-put_flags i (md ∷ ps) out dst cl =
      ap (chain_buffer ram' ps (out + size_of md)) (
        buffer_ext ram' c.boardram (buffer_addr md) out (size_of md) dst
          (omega (arith, buffer_addr-lt md))
          (λ a p q. put_flags-Apart off md1 md3 c a m1 m3 o (cl.1 a p q)))
      ∙ chain_buffer-put_flags ((i + 1) % len) ps _ _ cl.2
