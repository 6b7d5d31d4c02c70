-- ===== src/Registers/Init.antt =====
-- `chip_init` and the ring registers: the rings that the daemon walks always begin inside card
-- memory, and those of the initialization block have a power of two of descriptors.
use a.Base.{ℕ, ◌+◌, ◌*◌, ◌/◌, ◌%◌, ◌^◌, ◌<◌, ◌≡◌, refl, arith}
use a.Base.{bit_and, bit_or, bit_and_low, bit_and_assoc}
use a.Base.Bits.{bit_and_step}
use a.Card.{Card}
use a.Registers.{chip_init, chip_init_mask, init_block, ring_pointer, ring_length, write_other}

-- The pointer of a ring: inside card memory, at a multiple of 8.
aligned : (x : ℕ) → bit_and x 0x7ff8 % 8 ≡ 0
aligned x =
    omega
      (arith, bit_and_step x 0x7ff8, bit_and_step (x / 2) 0x3ffc, bit_and_step (x / 2 / 2) 0x1ffe)

masked-lt : (x : ℕ) → bit_and x 0x7fff < 0x8000
masked-lt x = omega (arith, bit_and_low 15 x)

-- A ring as an initialization block describes it.
pub record IsBlockRing (base len : ℕ) : Type 0 where
  pub inside : base < 0x8000
  pub multiple : base % 8 ≡ 0
  pub exponent : ℕ
  pub exponent_bound : exponent < 8
  pub power : len ≡ 2 ^ exponent

block_ring : (ptr : ℕ) → IsBlockRing (bit_and (bit_and ptr 0x00ff_fff8) 0x7fff) (ring_length ptr)
unfolding ring_length
block_ring ptr = record {
  inside = masked-lt (bit_and ptr 0x00ff_fff8);
  multiple = rw bit_and_assoc (aligned ptr);
  exponent = bit_and (ptr / 2 ^ 29) 7;
  exponent_bound = omega (arith, bit_and_low 3 (ptr / 2 ^ 29));
  power = refl;
}

-- After chip_init both rings begin inside card memory at a multiple of 8 and have 1, 2, 4, ... or
-- 128 descriptors, whatever the block holds, and both walks begin at descriptor 0.
pub chip_init-IsBlockRing :
    (c : Card)
    → IsBlockRing (chip_init c).am_rdr_rdra (chip_init c).am_rdr_rlen
      × IsBlockRing (chip_init c).am_tdr_tdra (chip_init c).am_tdr_tlen
      × ((chip_init c).rdr_offset ≡ 0)
      × ((chip_init c).tdr_offset ≡ 0)
unfolding chip_init
chip_init-IsBlockRing c = (
  block_ring (ring_pointer c.boardram (init_block c + 16)),
  block_ring (ring_pointer c.boardram (init_block c + 20)),
  refl,
  refl,
)

-- Both rings begin inside card memory.
pub record RingsInside (c : Card) : Type 0 where
  pub receive : c.am_rdr_rdra < 0x8000
  pub transmit : c.am_tdr_tdra < 0x8000

pub chip_init_mask-RingsInside : (c : Card) → RingsInside (chip_init_mask c)
unfolding chip_init_mask
chip_init_mask-RingsInside c = record {
  receive = masked-lt c.am_rdr_rdra;
  transmit = masked-lt c.am_tdr_tdra;
}

-- A write of any register above CSR3, also one that moves a ring, keeps both rings inside card
-- memory where they were so before.
pub write_other-RingsInside : (c : Card) (v : ℕ) → RingsInside c → RingsInside (write_other c v)
unfolding write_other
write_other-RingsInside c v h = record {
  receive = ground (
    arith,
    masked-lt (bit_or (bit_and c.am_rdr_rdra 0xffff_0000) v),
    masked-lt (bit_or (bit_and c.am_rdr_rdra 0x0000_ffff) (v * 2 ^ 16)),
    masked-lt c.am_rdr_rdra,
  );
  transmit = ground (
    arith,
    masked-lt (bit_or (bit_and c.am_tdr_tdra 0xffff_0000) v),
    masked-lt (bit_or (bit_and c.am_tdr_tdra 0x0000_ffff) (v * 2 ^ 16)),
    masked-lt c.am_tdr_tdra,
  );
}
