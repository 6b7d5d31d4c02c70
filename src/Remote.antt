-- ===== src/Remote.antt =====
-- arm/src/boardram_remote.cpp: card memory behind a request slot and a response slot that the FPGA
-- serves. What the FPGA does before poll `i` of an attempt is the parameter `fpga i`; `service` is
-- the callback of each poll, `some` where none is set.
pub mod Exchange
pub mod Answers
pub mod Accessors
pub mod Blocks
pub mod SelfTest
use a.Base.{
  ℕ, zero, suc, ◌+◌, ◌-◌, ◌*◌, ◌/◌, ◌%◌, ◌^◌, ◌==◌, if◌then◌else◌, Bool, true, false, Option, none,
  some, ◌>>=◌,
}
use a.Base.{Array, bit_and, bit_or, u8, u16, u32, update, ◌<<<◌, ◌>>>◌, has}
use a.Types.{ram_mask}
use a.Card.{Card}
use a.Doorbell.{rd64, wr64}
use a.Mailbox.{mbx_ram_req, mbx_ram_rsp}

unfoldable pub xfer_req : ℕ → Bool → ℕ → ℕ
xfer_req off write wdata =
    bit_or (bit_or (bit_or 1 ((if write then 1 else 0) <<< 1)) (bit_and off 0x7ffe <<< 2))
      (wdata <<< 17)

module _ (fpga : ℕ → Card → Card) (service : Card → Option Card) where
  -- The polls from `i` on, with `n` left, and the response if one came.
  unfoldable pub poll_loop : ℕ → ℕ → Card → Option (Option ℕ × Card)
  poll_loop zero i c = some (none, c)
  poll_loop (suc n) i c =
      let d = fpga i c in
      let rest = service d >>= λ e. poll_loop n (i + 1) e in
      if has (rd64 mbx_ram_rsp d) 1
      then some (some (u16 (rd64 mbx_ram_rsp d >>> 1)), wr64 mbx_ram_req 0 (wr64 mbx_ram_rsp 0 d))
      else rest

  unfoldable pub attempts : ℕ → ℕ → Card → Option (Option ℕ × Card)
  unfolding poll_loop
  attempts zero req c = some (none, c)
  attempts (suc n) req c = poll_loop 10000 0 (wr64 mbx_ram_req req c) >>= λ r. elim r.0 [
    | none ↦ attempts n req r.1
    | some v ↦ some r
  ]

  -- `mapped` is whether `boardram_remote_init` has been given the window.
  unfoldable pub boardram_xfer : Bool → ℕ → Bool → ℕ → Card → Option (ℕ × Card)
  unfolding attempts xfer_req
  boardram_xfer false off write wdata c = some (0xffff, c)
  boardram_xfer true off write wdata c = attempts 3 (xfer_req off write wdata) c >>= λ r.
      some (elim r.0 [ none ↦ (0xffff, wr64 mbx_ram_req 0 r.1) | some v ↦ (v, r.1) ])

  unfoldable pub boardram_rb : Bool → ℕ → Card → Option (ℕ × Card)
  boardram_rb mapped off c = boardram_xfer mapped (bit_and off 0x7ffe) false 0 c >>= λ r.
      some ((if has off 1 then u8 (bit_and r.0 0xff) else u8 (r.0 >>> 8)), r.1)

  unfoldable pub boardram_rw : Bool → ℕ → Card → Option (ℕ × Card)
  boardram_rw mapped off c = boardram_xfer mapped (bit_and off 0x7ffe) false 0 c

  unfoldable pub boardram_wb : Bool → ℕ → ℕ → Card → Option Card
  boardram_wb mapped off val c = boardram_xfer mapped (bit_and off 0x7ffe) false 0 c >>= λ r.
      let nw =
        if has off 1
        then bit_or (bit_and r.0 0xff00) (u8 val)
        else bit_or (u8 val <<< 8) (bit_and r.0 0x00ff) in
      boardram_xfer mapped (bit_and off 0x7ffe) true nw r.1 >>= λ s. some s.1

  unfoldable pub boardram_ww : Bool → ℕ → ℕ → Card → Option Card
  boardram_ww mapped off val c =
      boardram_xfer mapped (bit_and off 0x7ffe) true (u16 val) c >>= λ s. some s.1

  -- The accessors of arm/include/boardram_access.h with BOARDRAM_REMOTE.
  unfoldable pub get_ram_byte : Bool → ℕ → Card → Option (ℕ × Card)
  unfolding boardram_rb
  get_ram_byte mapped off c = boardram_rb mapped (bit_and off ram_mask) c

  unfoldable pub get_ram_word : Bool → ℕ → Card → Option (ℕ × Card)
  unfolding boardram_rw
  get_ram_word mapped off c = boardram_rw mapped (bit_and off ram_mask) c

  unfoldable pub put_ram_byte : Bool → ℕ → ℕ → Card → Option Card
  unfolding boardram_wb
  put_ram_byte mapped off v c = boardram_wb mapped (bit_and off ram_mask) v c

  unfoldable pub put_ram_word : Bool → ℕ → ℕ → Card → Option Card
  unfolding boardram_ww
  put_ram_word mapped off v c = boardram_ww mapped (bit_and off ram_mask) v c

  -- The loops of the block accessors at index `i`, with `n` rounds left; `dst` and `src` begin at
  -- `at`.
  unfoldable pub read_loop : Bool → ℕ → ℕ → ℕ → ℕ → Array → Card → Option (Array × Card)
  unfolding boardram_rb
  read_loop mapped off at i zero dst c = some (dst, c)
  read_loop mapped off at i (suc n) dst c =
      boardram_rb mapped (bit_and (u32 (off + i)) ram_mask) c >>= λ r.
      read_loop mapped off at (i + 1) n (update dst (at + i) r.0) r.1

  unfoldable pub ram_read_block : Bool → ℕ → ℕ → ℕ → Array → Card → Option (Array × Card)
  unfolding read_loop
  ram_read_block mapped off at len dst c = read_loop mapped off at 0 len dst c

  unfoldable pub write_loop : Bool → Array → ℕ → ℕ → ℕ → ℕ → Card → Option Card
  unfolding boardram_wb
  write_loop mapped src off at i zero c = some c
  write_loop mapped src off at i (suc n) c =
      boardram_wb mapped (bit_and (u32 (off + i)) ram_mask) (src (at + i)) c >>= λ d.
      write_loop mapped src off at (i + 1) n d

  unfoldable pub ram_write_block : Bool → Array → ℕ → ℕ → ℕ → Card → Option Card
  unfolding write_loop
  ram_write_block mapped src off at len c = write_loop mapped src off at 0 len c
