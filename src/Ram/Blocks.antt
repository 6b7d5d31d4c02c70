-- ===== src/Ram/Blocks.antt =====
-- `ram_read_block` and `ram_write_block`: which bytes move, and that a block survives the way
-- into card memory and back.
use a.Base.{ℕ, zero, suc, ◌+◌, ◌-◌, ◌%◌, ◌≤◌, ◌<◌, ◌≡◌, arith}
use a.Base.{Array, update, ltb, leb, ◌&&◌, if◌then◌else◌, u32}
use native.Mathlib.Nat.{mod-eq_of_lt}
use a.Ram.{cell, get_ram_byte, read_loop, write_loop, ram_read_block, ram_write_block}
use a.Ram.Words.{cell-injective, cell-mod}

module _ (ram : Array) (off at : ℕ) where
  read_loop_lem :
      (n i : ℕ) (dst : Array) (j : ℕ)
      → off + i + n ≤ 0x1_0000_0000
      → read_loop ram off at i n dst j ≡ (
          if leb (at + i) j && ltb j (at + i + n) then get_ram_byte ram (off + (j - at)) else dst j)
  unfolding read_loop get_ram_byte
  read_loop_lem zero i dst j h = ground arith
  read_loop_lem (suc n) i dst j h = ground (
    arith,
    mod-eq_of_lt {n = off + i} {m = 0x1_0000_0000} (omega arith),
    read_loop_lem n (i + 1) (update dst (at + i) (ram (cell (u32 (off + i))))) j (omega arith),
  )

  -- `ram_read_block` fills `dst[at .. at + len)` with the bytes from `off` on, and leaves the rest.
  pub ram_read_block_lem :
      (len : ℕ) (dst : Array) (j : ℕ)
      → off + len ≤ 0x1_0000_0000
      → ram_read_block ram off at len dst j
        ≡ (if leb at j && ltb j (at + len) then get_ram_byte ram (off + (j - at)) else dst j)
  unfolding ram_read_block
  ram_read_block_lem len dst j h = ground (arith, read_loop_lem len 0 dst j (omega arith))

-- How far address `a` lies behind `off`, going round at 32 KB.
abbrev pub behind : ℕ → ℕ → ℕ
behind off a = (a % 0x8000 + 0x8000 - off % 0x8000) % 0x8000

module _ (src : Array) (off at : ℕ) where
  write_loop_lem :
      (n i : ℕ) (ram : Array) (a : ℕ)
      → i + n ≤ 0x8000
      → off + i + n ≤ 0x1_0000_0000
      → get_ram_byte (write_loop src off at i n ram) a ≡ (
          if leb i (behind off a) && ltb (behind off a) (i + n)
          then src (at + behind off a)
          else get_ram_byte ram a)
  unfolding write_loop get_ram_byte
  write_loop_lem zero i ram a h k = ground arith
  write_loop_lem (suc n) i ram a h k = ground (
    arith,
    mod-eq_of_lt {n = off + i} {m = 0x1_0000_0000} (omega arith),
    cell-injective (off + i) a,
    cell-mod (off + i) a,
    write_loop_lem n (i + 1) (update ram (cell (u32 (off + i))) (src (at + i))) a (omega arith)
        (omega arith),
  )

  -- ram_write_block stores at most 32 KB of src from off on, going round at 32 KB, and leaves
  -- every other byte.
  pub ram_write_block_lem :
      (len : ℕ) (ram : Array) (a : ℕ)
      → len ≤ 0x8000
      → off + len ≤ 0x1_0000_0000
      → get_ram_byte (ram_write_block src off at len ram) a
        ≡ (if ltb (behind off a) len then src (at + behind off a) else get_ram_byte ram a)
  unfolding ram_write_block
  ram_write_block_lem len ram a h k =
      ground (arith, write_loop_lem len 0 ram a (omega arith) (omega arith))

-- A block of at most 32 KB that was written to card memory is read back byte for byte, wherever
-- it is put.
pub ram_read_block-ram_write_block :
    (src dst ram : Array) (off at to len j : ℕ)
    → len ≤ 0x8000
    → off + len ≤ 0x1_0000_0000
    → j < len
    → ram_read_block (ram_write_block src off at len ram) off to len dst (to + j) ≡ src (at + j)
ram_read_block-ram_write_block src dst ram off at to len j h k l = ground (
  arith,
  ram_read_block_lem (ram_write_block src off at len ram) off to len dst (to + j) k,
  ram_write_block_lem src off at len ram (off + (to + j - to)) h k,
)
