-- ===== src/Rings/Descriptor.antt =====
-- Descriptors of arm/src/rings.cpp: four words in card memory, the second of which holds the flags.
use a.Base.{ℕ, ◌+◌, ◌*◌, Array, bit_and, bit_or, u32, ◌<<<◌}
use a.Types.{ram_mask}
use a.Ram.{get_ram_word, put_ram_word}
use a.Ram.Bytes.{IsBytes, put_ram_word-IsBytes}
use a.Card.{Card}

-- The four words at `off`.
pub record Descriptor : Type 0 where
  pub md0 : ℕ
  pub md1 : ℕ
  pub md2 : ℕ
  pub md3 : ℕ

-- The offset of descriptor `i` of the ring at `base`.
abbrev pub descriptor_off : ℕ → ℕ → ℕ
descriptor_off base i = u32 (base + i * 8)

unfoldable pub read_descriptor : Array → ℕ → Descriptor
read_descriptor ram off = record {
  md0 = get_ram_word ram off;
  md1 = get_ram_word ram (off + 2);
  md2 = get_ram_word ram (off + 4);
  md3 = get_ram_word ram (off + 6);
}

-- Where the buffer of a descriptor begins in card memory.
unfoldable pub buffer_addr : Descriptor → ℕ
buffer_addr d = bit_and (bit_or d.md0 (bit_and d.md1 0xff <<< 16)) ram_mask

-- `put_ram_word(off + 2, md1); put_ram_word(off + 6, md3)`
unfoldable pub put_flags : ℕ → ℕ → ℕ → Card → Card
put_flags off md1 md3 c = record c {
  boardram = put_ram_word (put_ram_word c.boardram (off + 2) md1) (off + 6) md3;
}

pub put_flags-IsBytes :
    (off md1 md3 : ℕ) (c : Card) → IsBytes c.boardram → IsBytes (put_flags off md1 md3 c).boardram
unfolding put_flags
put_flags-IsBytes off md1 md3 c h =
    put_ram_word-IsBytes (put_ram_word c.boardram (off + 2) md1) (off + 6) md3
      (put_ram_word-IsBytes c.boardram (off + 2) md1 h)
