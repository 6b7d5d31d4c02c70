-- ===== src/Rings/Receive.antt =====
-- `gotfunc` of arm/src/rings.cpp: a frame is translated, filtered, given its checksum and written
-- into the buffers of the receive ring. `none` is an access outside the 4096 bytes of `tmp`.
pub mod Filter
pub mod Walk
pub mod Deliver
pub mod Preserve
pub mod Bytes
pub mod Ends
use a.Base.{
  ℕ, zero, suc, ◌+◌, ◌-◌, ◌*◌, ◌/◌, ◌%◌, ◌^◌, ◌==◌, ltb, leb, if◌then◌else◌, Bool, true, false, not,
}
use a.Base.{◌&&◌, ◌||◌, Option, none, some, ◌>>=◌, Array, update, slice, memcmp_eq, List, [], ◌∷◌}
use a.Base.{bit_and, bit_or, bit_xor, u8, u16, ◌<<<◌, ◌>>>◌, has, not16}
use a.Types.{max_packet_size, ram_mask, broadcast_mac, mode_loop, csr0_rxon, csr0_miss, csr0_rint}
use a.Types.{rx_own, rx_stp, rx_enp, rx_buff, rx_oflo}
use a.Ram.{get_ram_word, put_ram_word, ram_write_block}
use a.Crc.{crc32_compute}
use a.Mac.{mungepacket}
use a.Card.{Card, csr0}
use a.Registers.{registers_csr0_set, registers_csr0_clr, registers_prom, rethink}
use a.Rings.Descriptor.{Descriptor, descriptor_off, read_descriptor, buffer_addr, put_flags}

-- The bit of the logical address filter that an address selects.
unfoldable pub multicast_hash : Array → ℕ
multicast_hash d = bit_xor (crc32_compute d 0 6) 0xffff_ffff >>> 26

-- The tests that a frame must pass outside loopback mode: `d` is the translated frame.
unfoldable pub accepts : Card → Array → Bool
accepts c d =
    let fake = slice c.fakemac 0 6 in
    let dst = slice d 0 6 in
    let src = slice d 6 6 in
    let broadcast = memcmp_eq dst broadcast_mac in
    let wanted =
      if has (d 0) 0x01
      then registers_prom c || broadcast || has c.am_ladrf (2 ^ multicast_hash d)
      else registers_prom c || memcmp_eq dst fake || broadcast in
    wanted
    && not (memcmp_eq dst fake && memcmp_eq src fake)
    && not (broadcast && memcmp_eq src fake)

-- `d[len++] = ...` four times: the checksum, its high byte first.
unfoldable pub append_crc : Array → ℕ → Array
append_crc d len =
    let crc = crc32_compute d 0 len in
    update
      (update (update (update d len (u8 (crc >>> 24))) (len + 1) (u8 (crc >>> 16))) (len + 2)
        (u8 (crc >>> 8)))
      (len + 3) (u8 crc)

-- What the walk leaves: the card, and whether the frame was stored to its end.
abbrev pub Walked : Type 0
Walked = Card × Bool

-- A descriptor that the Amiga still owns: the frame is lost, or cut off.
unfoldable pub no_buffer : Bool → ℕ → Descriptor → Card → Card
no_buffer first off md c =
    let d = if first then registers_csr0_set csr0_miss c else registers_csr0_clr csr0_rxon c in
    let rmd1 = if first then md.md1 else bit_or md.md1 (bit_or rx_buff rx_oflo) in
    record d { boardram = put_ram_word d.boardram (off + 2) rmd1 }

-- The flags of a descriptor that has been filled; `insize` counts its bytes too.
unfoldable pub filled_flags : Bool → ℕ → ℕ → Descriptor → ℕ
filled_flags first insize len md =
    let released = bit_and md.md1 (not16 rx_own) in
    let started = if first then bit_or released rx_stp else released in
    if leb len insize then bit_or started rx_enp else started

unfoldable pub filled_count : ℕ → ℕ → Descriptor → ℕ
filled_count insize len md = if leb len insize then u16 len else md.md3

-- The buffer of a descriptor is filled and the descriptor handed back; `i` is its index.
unfoldable pub fill_buffer : Array → ℕ → ℕ → Bool → ℕ → ℕ → Descriptor → Card → Card
fill_buffer d len insize first i off md c =
    let size = 65536 - md.md2 in
    put_flags off (filled_flags first (insize + size) len md) (filled_count (insize + size) len md)
      (record c {
        rdr_offset = i + 1;
        boardram = ram_write_block d (buffer_addr md) insize size c.boardram;
      })

-- The loop over the ring: `insize` bytes of the frame `d` have been stored. Every turn stores at
-- least one byte, so more turns than the frame has bytes are not made.
unfoldable pub rx_walk : Array → ℕ → ℕ → ℕ → Bool → Card → Option Walked
rx_walk d len zero insize first c = none
rx_walk d len (suc fuel) insize first c =
    let i = c.rdr_offset % c.am_rdr_rlen in
    let off = descriptor_off c.am_rdr_rdra i in
    let md = read_descriptor c.boardram off in
    let here = record c { rdr_offset = i } in
    let end = insize + (65536 - md.md2) in
    let filled = fill_buffer d len insize first i off md here in
    let rest = rx_walk d len fuel end false filled in
    if not (has md.md1 rx_own)
    then some (no_buffer first off md here, false)
    else if ltb max_packet_size end
    then none
    else if leb len end
    then some (filled, true)
    else rest

-- The guards at the head of `gotfunc`.
unfoldable pub rx_ready : Card → ℕ → Bool
rx_ready c len =
    has (csr0 c) csr0_rxon
    && not (ltb len 20)
    && not ((c.am_rdr_rlen == 0) || ltb 512 c.am_rdr_rlen)
    && not (ltb ram_mask (c.am_rdr_rdra + (c.am_rdr_rlen - 1) * 8))

-- `memcpy(tmp, databuf, len)` over what happens to stand in `tmp`.
unfoldable pub copy_frame : Array → Array → ℕ → Array
copy_frame stack databuf len i = if ltb i len then databuf i else stack i

module _ (on_interrupt : Card → Card) where
  -- What follows the loop, which returns before it where it finds no buffer.
  unfoldable pub rx_done : Walked → Card
  rx_done (c, false) = rethink on_interrupt c
  rx_done (c, true) =
      let d = rethink on_interrupt (registers_csr0_set csr0_rint c) in
      if has d.am_mode mode_loop then record d { loopback_iter = d.loopback_iter + 1 } else d

  -- The frame `d` has passed the filter.
  unfoldable pub store_frame : Array → ℕ → Card → Option Card
  store_frame d len c =
      if ltb max_packet_size (len + 4)
      then none
      else rx_walk (append_crc d len) (len + 4) (len + 5) 0 true c >>= λ w. some (rx_done w)

  -- `stack` is what the array `tmp` holds before the frame is copied into it.
  unfoldable pub gotfunc : Array → Array → ℕ → Card → Option Card
  gotfunc stack databuf len c =
      let tmp = copy_frame stack databuf len in
      let filtered = mungepacket c.mac tmp len >>= λ r.
      if accepts c r.1 then store_frame r.1 len c else some c in
      if not (rx_ready c len)
      then some c
      else if ltb max_packet_size len
      then none
      else if has c.am_mode mode_loop
      then store_frame tmp len c
      else filtered
