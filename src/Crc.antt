-- ===== src/Crc.antt =====
-- arm/src/crc32.cpp: the table-driven CRC-32 of an Ethernet frame.
pub mod Reference
use a.Base.{ℕ, zero, suc, ◌+◌, bit_and, bit_xor, has, if◌then◌else◌, Array, update, ◌>>>◌}

-- One turn of the inner loop of `build_table`.
pub step : ℕ → ℕ
step c = if has c 1 then bit_xor 0xEDB88320 (c >>> 1) else c >>> 1

-- `n` turns of it.
pub steps : ℕ → ℕ → ℕ
steps zero c = c
steps (suc n) c = steps n (step c)

-- The outer loop at entry `i`, with `n` entries left.
fill_loop : ℕ → ℕ → Array → Array
fill_loop zero i table = table
fill_loop (suc n) i table = fill_loop n (i + 1) (update table i (steps 8 i))

pub build_table : Array → Array
build_table table = fill_loop 256 0 table

-- The static table, which starts as zeros and is built at the first use.
pub crc32_table : Array
crc32_table = build_table (λ i. 0)

-- The loop of `crc32_compute` at byte `i`, with `n` bytes left.
pub crc_loop : Array → ℕ → ℕ → ℕ → ℕ
crc_loop buf zero i crc = crc
crc_loop buf (suc n) i crc =
    crc_loop buf n (i + 1) (bit_xor (crc32_table (bit_and (bit_xor crc (buf i)) 0xff)) (crc >>> 8))

-- The first byte is `buf at`.
unfoldable pub crc32_compute : Array → ℕ → ℕ → ℕ
crc32_compute buf at len = bit_xor (crc_loop buf len at 0xffff_ffff) 0xffff_ffff
