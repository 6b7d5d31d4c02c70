-- ===== src/Rings/Transmit.antt =====
-- `do_transmit` of arm/src/rings.cpp: the buffers of a chain of transmit descriptors are gathered
-- into one frame, which goes to the wire or, in loopback mode, to the receiver. `none` is an
-- access outside a packet buffer.
pub mod Scan
pub mod Gather
pub mod Send
pub mod Preserve
pub mod Bytes
pub mod Chain
use a.Base.{
  ℕ, zero, suc, ◌+◌, ◌-◌, ◌*◌, ◌/◌, ◌%◌, ◌^◌, ◌==◌, ltb, leb, if◌then◌else◌, Bool, true, false, not,
}
use a.Base.{◌&&◌, ◌||◌, Option, none, some, ◌>>=◌, Array, update, slice, memcmp_eq}
use a.Base.{bit_and, bit_or, has, not16}
use a.Types.{max_packet_size, ram_mask, mode_loop, mode_coll, mode_dtcr, csr0_txon, csr0_tint}
use a.Types.{tx_own, tx_stp, tx_enp, tx_err, tx_buff, tx_uflo, tx_rtry, tx_add_fcs}
use a.Ram.{get_ram_word, put_ram_word, ram_read_block}
use a.Mac.{mungepacket}
use a.Ethernet.{ethernet_send}
use a.Card.{Card, csr0}
use a.Registers.{registers_csr0_set, registers_csr0_clr, rethink}
use a.Rings.Descriptor.{Descriptor, descriptor_off, read_descriptor, buffer_addr, put_flags}
use a.Rings.Receive.{gotfunc}

-- The flags of descriptor `i`.
unfoldable pub tmd1_at : Card → ℕ → ℕ
tmd1_at c i = get_ram_word c.boardram (descriptor_off c.am_tdr_tdra i + 2)

-- The descriptor is the chip's, and starts a packet.
unfoldable pub starts : Card → ℕ → Bool
starts c i = has (tmd1_at c i) tx_own && has (tmd1_at c i) tx_stp

-- The search loop at turn `i`, with `n` turns left.
unfoldable pub scan_loop : Card → ℕ → ℕ → ℕ → Option ℕ
scan_loop c start i zero = none
scan_loop c start i (suc n) =
    let at = (start + i) % c.am_tdr_tlen in
    let rest = scan_loop c start (i + 1) n in if starts c at then some at else rest

-- The descriptor that the frame starts at: the current one, or else the first one behind it.
unfoldable pub tx_scan : Card → Option ℕ
tx_scan c =
    let start = c.tdr_offset % c.am_tdr_tlen in
    if starts c start then some start else scan_loop c start 0 c.am_tdr_tlen

-- The variables of `do_transmit` at the end of its loop.
pub record Gathered : Type 0 where
  pub card : Card
  pub outsize : ℕ
  pub off : ℕ
  pub tmd1 : ℕ
  pub tmd3 : ℕ
  pub err : Bool

-- `while (outsize < 60) transmitbuffer[outsize++] = 0`
unfoldable pub pad_loop : ℕ → ℕ → Array → Array
pad_loop zero i buf = buf
pad_loop (suc n) i buf = pad_loop n (i + 1) (update buf i 0)

unfoldable pub tx_size : Descriptor → ℕ
tx_size md = if ltb max_packet_size (65536 - md.md2) then max_packet_size else 65536 - md.md2

-- A descriptor in the chain that the chip does not own.
unfoldable pub not_owned : ℕ → ℕ → Descriptor → Card → Gathered
not_owned outsize off md c =
    let tmd1 = bit_or md.md1 tx_err in
    let tmd3 = bit_or md.md3 (bit_or tx_buff tx_uflo) in
    record {
      card = put_flags off tmd1 tmd3 (registers_csr0_clr csr0_txon c);
      outsize = outsize;
      off = off;
      tmd1 = tmd1;
      tmd3 = tmd3;
      err = true;
    }

-- The buffer of a descriptor is taken over; `i` is the descriptor's index.
unfoldable pub take_buffer : ℕ → ℕ → Descriptor → Card → Card
take_buffer outsize i md c =
    let size = tx_size md in
    let buf = ram_read_block c.boardram (buffer_addr md) outsize size c.transmitbuffer in
    let full = outsize + size in
    record c {
      tdr_offset = i + 1;
      transmitbuffer =
          if has md.md1 tx_enp && ltb full 60 && not (has c.am_mode mode_loop)
          then pad_loop (60 - full) full buf
          else buf;
    }

unfoldable pub taken_size : ℕ → Descriptor → Card → ℕ
taken_size outsize md c =
    let full = outsize + tx_size md in
    if has md.md1 tx_enp && ltb full 60 && not (has c.am_mode mode_loop) then 60 else full

-- The loop over the chain. Every turn but the last takes at least one byte, so more turns than
-- the buffer has bytes are not made.
unfoldable pub tx_gather : ℕ → ℕ → Card → Option Gathered
tx_gather zero outsize c = none
tx_gather (suc fuel) outsize c =
    let i = c.tdr_offset % c.am_tdr_tlen in
    let off = descriptor_off c.am_tdr_tdra i in
    let md = read_descriptor c.boardram off in
    let here = record c { tdr_offset = i } in
    let tmd1 = bit_and md.md1 (not16 tx_own) in
    let taken = take_buffer outsize i md here in
    let rest = tx_gather fuel (taken_size outsize md here) (put_flags off tmd1 md.md3 taken) in
    let leave = λ (c' : Card) (n : ℕ).
      let g : Gathered = record {
        card = c';
        outsize = n;
        off = off;
        tmd1 = tmd1;
        tmd3 = md.md3;
        err = false;
      } in
      g in
    if not (has md.md1 tx_own)
    then some (not_owned outsize off md here)
    else if ltb max_packet_size (outsize + tx_size md)
    then some (leave (put_flags off tmd1 md.md3 here) outsize)
    else if has md.md1 tx_enp
    then some (leave taken (taken_size outsize md here))
    else rest

unfoldable pub tx_fuel : ℕ
tx_fuel = max_packet_size + 2

-- The guards at the head of `do_transmit`.
unfoldable pub tx_ready : Card → Bool
tx_ready c =
    has (csr0 c) csr0_txon
    && not ((c.am_tdr_tlen == 0) || ltb 512 c.am_tdr_tlen)
    && not (ltb ram_mask (c.am_tdr_tdra + (c.am_tdr_tlen - 1) * 8))

-- Collision mode, or a frame to the card's own address.
unfoldable pub collides : Gathered → Bool
collides g =
    has g.card.am_mode mode_coll
    || (leb 6 g.outsize && memcmp_eq (slice g.card.transmitbuffer 0 6) (slice g.card.fakemac 0 6))

-- The frame is reported as lost by a collision.
unfoldable pub report_collision : Gathered → Card
report_collision g = put_flags g.off (bit_or g.tmd1 tx_err) (bit_or g.tmd3 tx_rtry) g.card

-- Less than a minimal frame.
unfoldable pub report_underflow : Gathered → Card
report_underflow g =
    let c = registers_csr0_clr csr0_txon g.card in
    let ram = put_ram_word c.boardram (g.off + 6) (bit_or g.tmd3 (bit_or tx_buff tx_uflo)) in
    record c { boardram = put_ram_word ram (g.off + 2) (bit_or g.tmd1 tx_err) }

-- The frame is translated and handed to the socket; `add_fcs` is the flag of its first descriptor.
unfoldable pub send_frame : Bool → Gathered → Option Card
send_frame add_fcs g =
    let c = put_flags g.off g.tmd1 g.tmd3 g.card in
    let len = if has c.am_mode mode_dtcr && not add_fcs then g.outsize - 4 else g.outsize in
    mungepacket c.mac c.transmitbuffer len >>= λ r.
    some (ethernet_send r.1 len (record c { transmitbuffer = r.1; transmitlen = len }))

module _ (on_interrupt : Card → Card) (stack : Array) where
  -- What becomes of the gathered frame.
  unfoldable pub dispatch : Bool → Gathered → Option Card
  dispatch add_fcs g =
      let looped = has g.card.am_mode mode_loop in
      if g.err
      then some g.card
      else if ltb g.outsize 60 && not looped
      then some (report_underflow g)
      else if looped
      then (if has g.card.am_mode mode_coll
          then some (report_collision g)
          else gotfunc on_interrupt stack g.card.transmitbuffer g.outsize
              (put_flags g.off g.tmd1 g.tmd3 g.card))
      else if collides g
      then some (report_collision g)
      else send_frame add_fcs g

  -- The frame that starts at descriptor `i`.
  unfoldable pub transmit_from : ℕ → Card → Option Card
  transmit_from i c = tx_gather tx_fuel 0 (record c { tdr_offset = i }) >>= λ g.
      dispatch (has (tmd1_at c i) tx_add_fcs) g >>= λ d.
      some (rethink on_interrupt (registers_csr0_set csr0_tint d))

  -- The Boolean is the result: whether the ring was worked on.
  unfoldable pub do_transmit : Card → Option (Bool × Card)
  do_transmit c = if not (tx_ready c) then some (false, c) else elim (tx_scan c) [
    | none ↦ some (false, record c { tdr_offset = c.tdr_offset % c.am_tdr_tlen })
    | some i ↦ transmit_from i c >>= λ d. some (true, d)
  ]
