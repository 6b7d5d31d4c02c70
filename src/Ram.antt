-- ===== src/Ram.antt =====
-- arm/include/boardram_access.h, the build without BOARDRAM_REMOTE: the 32 KB of card memory
-- that the 68k and the daemon share. A 68k word is stored low byte first, so byte `off` of the
-- 68k stands at index `off ^ 1`.
use a.Base.{ℕ, zero, suc, ◌+◌, bit_and, bit_or, bit_xor, Array, update, u8, u32, ◌<<<◌, ◌>>>◌}
pub mod Words
pub mod Blocks
pub mod Bytes
use a.Types.{ram_mask}

-- The index of a byte in `boardram`.
abbrev pub cell : ℕ → ℕ
cell off = bit_and (bit_xor off 1) ram_mask

unfoldable pub get_ram_byte : Array → ℕ → ℕ
get_ram_byte ram off = ram (cell off)

unfoldable pub get_ram_word : Array → ℕ → ℕ
unfolding get_ram_byte
get_ram_word ram off = bit_or (get_ram_byte ram off <<< 8) (get_ram_byte ram (u32 (off + 1)))

unfoldable pub put_ram_byte : Array → ℕ → ℕ → Array
put_ram_byte ram off v = update ram (cell off) (u8 v)

unfoldable pub put_ram_word : Array → ℕ → ℕ → Array
unfolding put_ram_byte
put_ram_word ram off v = put_ram_byte (put_ram_byte ram off (v >>> 8)) (u32 (off + 1)) (u8 v)

-- The loop of `ram_read_block` at index `i`, with `n` rounds left; `dst` begins at `at`.
unfoldable pub read_loop : Array → ℕ → ℕ → ℕ → ℕ → Array → Array
read_loop ram off at i zero dst = dst
read_loop ram off at i (suc n) dst =
    read_loop ram off at (i + 1) n (update dst (at + i) (ram (cell (u32 (off + i)))))

unfoldable pub ram_read_block : Array → ℕ → ℕ → ℕ → Array → Array
unfolding read_loop
ram_read_block ram off at len dst = read_loop ram off at 0 len dst

-- The loop of `ram_write_block`; `src` begins at `at`.
unfoldable pub write_loop : Array → ℕ → ℕ → ℕ → ℕ → Array → Array
write_loop src off at i zero ram = ram
write_loop src off at i (suc n) ram =
    write_loop src off at (i + 1) n (update ram (cell (u32 (off + i))) (src (at + i)))

unfoldable pub ram_write_block : Array → ℕ → ℕ → ℕ → Array → Array
unfolding write_loop
ram_write_block src off at len ram = write_loop src off at 0 len ram
