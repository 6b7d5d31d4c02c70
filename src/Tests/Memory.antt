-- ===== src/Tests/Memory.antt =====
-- Card memory and the checksum of a frame.
use a.Base.{ℕ, ◌%◌, ◌<◌, ◌≡◌, arith, Array, bit_xor}
use a.Crc.{crc32_compute}
use a.Crc.Reference.{crc_bitwise, crc32_compute-eq-bitwise}

abbrev counting : Array
counting = λ i. i % 256

counting-lt : (j : ℕ) → counting j < 256
counting-lt j = omega arith

crc32_compute-eq-bitwise_example :
    crc32_compute counting 2 6 ≡ bit_xor (crc_bitwise counting 6 2 0xffff_ffff) 0xffff_ffff
crc32_compute-eq-bitwise_example = crc32_compute-eq-bitwise counting 2 6 counting-lt
