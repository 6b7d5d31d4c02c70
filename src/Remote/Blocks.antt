-- ===== src/Remote/Blocks.antt =====
-- The block accessors of arm/include/boardram_access.h with BOARDRAM_REMOTE against those without it.
use a.Base.{
  ℕ, zero, suc, ◌+◌, ◌<◌, ◌≡◌, refl, arith, sym, ap, ◌∙◌, true, false, some, ◌>>=◌, fun_ext,
}
use a.Base.{Array, bit_and, bit_and_low, u8, u32, has, update}
use a.Card.{Card}
use a.Ram
use a.Ram.{cell}
use a.Ram.Bytes.{IsBytes}
use a.Ram.Words.{cell-mod}
use a.Doorbell.{rd64}
use a.Mailbox.{service_bridge_safe}
use a.Remote.{
  boardram_rb, boardram_wb, get_ram_byte, put_ram_byte, read_loop, write_loop, ram_read_block,
  ram_write_block,
}
use a.Remote.Answers.{Answers}
use a.Remote.Accessors.{accessors_read, accessors_write}

below : (y : ℕ) → bit_and y 0x7fff < 0x8000
below y = omega (arith, bit_and_low 15 y)

again : (y : ℕ) → bit_and (bit_and y 0x7fff) 0x7fff ≡ bit_and y 0x7fff
again y = omega (arith, bit_and_low 15 y, bit_and_low 15 (bit_and y 0x7fff))

same_cell : (y : ℕ) → cell (bit_and y 0x7fff) ≡ cell y
same_cell y = cell-mod (bit_and y 0x7fff) y (omega (arith, bit_and_low 15 y))

pub cleared_bit : (w : ℕ) → w ≡ 0 → has w 1 ≡ false
unfolding has
cleared_bit w e = rw e refl

module _ (stack : Array) (fpga : ℕ → Card → Card) (k : ℕ) (answers : Answers k fpga)
    (in_time : k < 10000) where
  reads_byte :
      (y : ℕ) (c : Card)
      → has (rd64 0x8018 c) 1 ≡ false
      → IsBytes c.boardram
      → (d : Card) × (boardram_rb fpga (service_bridge_safe stack) true (bit_and y 0x7fff) c
          ≡ some (c.boardram (cell y), d))
        × (d.boardram ≡ c.boardram)
        × (has (rd64 0x8018 d) 1 ≡ false)
  unfolding get_ram_byte Ram.get_ram_byte
  reads_byte y c quiet bytes =
      let z : ℕ = bit_and y 0x7fff in
      let r = accessors_read stack fpga k answers in_time z c (below y) quiet bytes in
      (
        r.0,
        ap (λ (x : ℕ). boardram_rb fpga (service_bridge_safe stack) true x c) (sym (again y))
            ∙ r.2
            ∙ ap (λ (x : ℕ). some (c.boardram x, r.0)) (same_cell y),
        r.3,
        cleared_bit _ r.4,
      )

  writes_byte :
      (y v : ℕ) (c : Card)
      → v < 256
      → has (rd64 0x8018 c) 1 ≡ false
      → IsBytes c.boardram
      → (d : Card) × (boardram_wb fpga (service_bridge_safe stack) true (bit_and y 0x7fff) v c
          ≡ some d)
        × (d.boardram ≡ update c.boardram (cell y) v)
        × (has (rd64 0x8018 d) 1 ≡ false)
  unfolding put_ram_byte Ram.put_ram_byte
  writes_byte y v c b quiet bytes =
      let z : ℕ = bit_and y 0x7fff in
      let w =
        accessors_write stack fpga k answers in_time z v c (below y) (omega arith) quiet bytes in
      let byte : u8 v ≡ v = omega arith in
      (
        w.1,
        ap (λ (x : ℕ). boardram_wb fpga (service_bridge_safe stack) true x v c) (sym (again y))
            ∙ w.3,
        fun_ext w.5
            ∙ ap (λ (x : ℕ). update c.boardram x (u8 v)) (same_cell y)
            ∙ ap (update c.boardram (cell y)) byte,
        cleared_bit _ w.7,
      )

  read_loop_lem :
      (n off at i : ℕ) (ram dst : Array) (c : Card)
      → c.boardram ≡ ram
      → has (rd64 0x8018 c) 1 ≡ false
      → IsBytes ram
      → (d : Card) × (read_loop fpga (service_bridge_safe stack) true off at i n dst c
          ≡ some (Ram.read_loop ram off at i n dst, d))
        × (d.boardram ≡ ram)
  unfolding read_loop Ram.read_loop
  read_loop_lem zero off at i ram dst c e quiet bytes = (c, refl, e)
  read_loop_lem (suc n) off at i ram dst c e quiet bytes =
      let r = reads_byte (u32 (off + i)) c quiet (rw e bytes) in
      let rest =
        read_loop_lem n off at (i + 1) ram (update dst (at + i) (ram (cell (u32 (off + i))))) r.0
          (r.2 ∙ e) r.3 bytes in
      (
        rest.0,
        ap
              (λ o. o >>= λ r.
                read_loop fpga (service_bridge_safe stack) true off at (i + 1) n
                  (update dst (at + i) r.0) r.1)
              (r.1 ∙ ap (λ (m : Array). some (m (cell (u32 (off + i))), r.0)) e)
            ∙ rest.1,
        rest.2,
      )

  write_loop_lem :
      (n off at i : ℕ) (src ram : Array) (c : Card)
      → c.boardram ≡ ram
      → has (rd64 0x8018 c) 1 ≡ false
      → IsBytes ram
      → IsBytes src
      → (d : Card) × (write_loop fpga (service_bridge_safe stack) true src off at i n c ≡ some d)
        × (d.boardram ≡ Ram.write_loop src off at i n ram)
  unfolding write_loop Ram.write_loop
  write_loop_lem zero off at i src ram c e quiet bytes b = (c, refl, e)
  write_loop_lem (suc n) off at i src ram c e quiet bytes b =
      let v : ℕ = src (at + i) in
      let x : ℕ = cell (u32 (off + i)) in
      let w = writes_byte (u32 (off + i)) v c (b (at + i)) quiet (rw e bytes) in
      let rest =
        write_loop_lem n off at (i + 1) src (update ram x v) w.0
          (w.2 ∙ ap (λ (m : Array). update m x v) e) w.3 (λ j. ground (arith, bytes j, b (at + i)))
          b in
      (
        rest.0,
        ap (λ o. o >>= λ d. write_loop fpga (service_bridge_safe stack) true src off at (i + 1) n d)
              w.1
            ∙ rest.1,
        rest.2,
      )

  -- The remote ram_read_block and ram_write_block, of any length and from any offset on, end
  -- without a fault, deliver the array and leave the card memory that the block accessors without
  -- BOARDRAM_REMOTE do, if the FPGA answers each request by the same poll of the first attempt,
  -- with no response left over, and card memory and the array that is written hold bytes; the
  -- daemon of the mailbox serves its requests between the polls.
  pub blocks_refine :
      (off at len : ℕ) (src dst : Array) (c : Card)
      → has (rd64 0x8018 c) 1 ≡ false
      → IsBytes c.boardram
      → IsBytes src
      → (d : Card) × (e : Card) × (ram_read_block fpga
            (service_bridge_safe stack)
            true
            off
            at
            len
            dst
            c
          ≡ some (Ram.ram_read_block c.boardram off at len dst, d))
        × (d.boardram ≡ c.boardram)
        × (ram_write_block fpga (service_bridge_safe stack) true src off at len c ≡ some e)
        × (e.boardram ≡ Ram.ram_write_block src off at len c.boardram)
  unfolding ram_read_block Ram.ram_read_block ram_write_block Ram.ram_write_block
  blocks_refine off at len src dst c quiet bytes b =
      let r = read_loop_lem len off at 0 c.boardram dst c refl quiet bytes in
      let w = write_loop_lem len off at 0 src c.boardram c refl quiet bytes b in
      (r.0, w.0, r.1, r.2, w.1, w.2)
