-- ===== src/Ram/Bytes.antt =====
-- Card memory holds bytes: every write keeps it so, and words read from it have 16 bits.
use a.Base.{ℕ, zero, suc, ◌+◌, ◌*◌, ◌/◌, ◌<◌, arith, Array, update, u8, u32}
use a.Base.Bits.{bit_or-lt}
use a.Ram.{
  cell, get_ram_byte, get_ram_word, put_ram_byte, put_ram_word, write_loop, ram_write_block,
}

abbrev pub IsBytes : Array → Type 0
IsBytes p = (j : ℕ) → p j < 256

pub get_ram_byte-lt : (ram : Array) (off : ℕ) → IsBytes ram → get_ram_byte ram off < 256
unfolding get_ram_byte
get_ram_byte-lt ram off h = h (cell off)

pub get_ram_word-lt : (ram : Array) (off : ℕ) → IsBytes ram → get_ram_word ram off < 0x10000
unfolding get_ram_word
get_ram_word-lt ram off h =
    bit_or-lt 16 (get_ram_byte ram off * 256) (get_ram_byte ram (u32 (off + 1)))
      (omega (arith, get_ram_byte-lt ram off h))
      (omega (arith, get_ram_byte-lt ram (u32 (off + 1)) h))

pub update-IsBytes : (p : Array) (i v : ℕ) → IsBytes p → v < 256 → IsBytes (update p i v)
update-IsBytes p i v h l j = ground (arith, h j)

pub put_ram_byte-IsBytes :
    (ram : Array) (off v : ℕ) → IsBytes ram → IsBytes (put_ram_byte ram off v)
unfolding put_ram_byte
put_ram_byte-IsBytes ram off v h = update-IsBytes ram (cell off) (u8 v) h (omega arith)

pub put_ram_word-IsBytes :
    (ram : Array) (off v : ℕ) → IsBytes ram → IsBytes (put_ram_word ram off v)
unfolding put_ram_word
put_ram_word-IsBytes ram off v h =
    put_ram_byte-IsBytes (put_ram_byte ram off (v / 256)) (u32 (off + 1)) (u8 v)
      (put_ram_byte-IsBytes ram off (v / 256) h)

write_loop-IsBytes :
    (src : Array) (off at i n : ℕ) (ram : Array)
    → IsBytes src
    → IsBytes ram
    → IsBytes (write_loop src off at i n ram)
unfolding write_loop
write_loop-IsBytes src off at i zero ram s h = h
write_loop-IsBytes src off at i (suc n) ram s h =
    write_loop-IsBytes src off at (i + 1) n (update ram (cell (u32 (off + i))) (src (at + i))) s
      (update-IsBytes ram (cell (u32 (off + i))) (src (at + i)) h (s (at + i)))

pub ram_write_block-IsBytes :
    (src : Array) (off at len : ℕ) (ram : Array)
    → IsBytes src
    → IsBytes ram
    → IsBytes (ram_write_block src off at len ram)
unfolding ram_write_block
ram_write_block-IsBytes src off at len ram s h = write_loop-IsBytes src off at 0 len ram s h
