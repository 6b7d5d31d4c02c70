-- ===== src/Registers.antt =====
-- arm/src/registers.cpp: the control and status registers of the Am7990. The callbacks that the
-- daemon installs are parameters; one that is not installed is the function that does nothing.
-- `none` is an access outside a packet buffer, which only the transmit callback can make.
pub mod Interrupt
pub mod Control
pub mod Init
pub mod Access
pub mod Halted
pub mod Ignore
pub mod Survive
pub mod WellFormed
pub mod Typed
use a.Base.{
  ℕ, ◌+◌, ◌-◌, ◌*◌, ◌/◌, ◌%◌, ◌^◌, ◌==◌, ltb, leb, if◌then◌else◌, Bool, true, false, not, ◌&&◌,
}
use a.Base.{
  Option, none, some, ◌>>=◌, Array, update, slice, bit_and, bit_or, u16, u32, ◌<<<◌, ◌>>>◌,
}
use a.Base.{has, clear, not16}
use a.Types.{rap_size, a2065_rap_off, ram_mask, mode_dtx, mode_drx, mode_prom}
use a.Types.{csr0_err, csr0_babl, csr0_cerr, csr0_miss, csr0_merr, csr0_rint, csr0_tint, csr0_idon}
use a.Types.{csr0_intr, csr0_inea, csr0_rxon, csr0_txon, csr0_tdmd, csr0_stop, csr0_strt, csr0_init}
use a.Mac.{mac_set_fakemac}
use a.Ram.{get_ram_byte, get_ram_word}
use a.Card.{Card, csr0, with_csr0}

unfoldable pub registers_csr0_set : ℕ → Card → Card
registers_csr0_set v c = with_csr0 c (bit_or (csr0 c) v)

unfoldable pub registers_csr0_clr : ℕ → Card → Card
registers_csr0_clr v c = with_csr0 c (bit_and (csr0 c) (not16 v))

-- `registers_csr(n)` for an index that is not negative
unfoldable pub registers_csr : ℕ → Card → ℕ
registers_csr n c = if ltb n rap_size then c.csr n else 0

unfoldable pub registers_prom : Card → Bool
registers_prom c = has c.am_mode mode_prom

unfoldable pub chip_init_mask : Card → Card
chip_init_mask c = record c {
  am_rdr_rdra = bit_and c.am_rdr_rdra ram_mask;
  am_tdr_tdra = bit_and c.am_tdr_tdra ram_mask;
  tdr_offset = 0;
  rdr_offset = 0;
}

-- The 24-bit address of the initialization block, as an offset into card memory.
unfoldable pub init_block : Card → ℕ
init_block c = bit_and (bit_or (bit_and (c.csr 2) 0xff <<< 16) (c.csr 1)) ram_mask

-- The six bytes of the station address, stored in swapped pairs.
unfoldable pub init_mac : Array → ℕ → Array
init_mac ram off =
    let m = λ (i : ℕ). get_ram_byte ram (off + i) in
    λ i.
      if i == 0
      then m 3
      else if i == 1
      then m 2
      else if i == 2
      then m 5
      else if i == 3
      then m 4
      else if i == 4
      then m 7
      else m 6

-- A ring pointer of the initialization block: the high word follows the low word.
unfoldable pub ring_pointer : Array → ℕ → ℕ
ring_pointer ram off = bit_or (get_ram_word ram (off + 2) <<< 16) (get_ram_word ram off)

unfoldable pub ring_length : ℕ → ℕ
ring_length ptr = 2 ^ bit_and (ptr >>> 29) 7

unfoldable pub chip_init : Card → Card
unfolding chip_init_mask
chip_init c =
    let off = init_block c in
    let w = λ (i : ℕ). get_ram_word c.boardram (off + i) in
    let rdr = ring_pointer c.boardram (off + 16) in
    let tdr = ring_pointer c.boardram (off + 20) in
    let mac = init_mac c.boardram off in
    chip_init_mask (record c {
      loopback_iter = 0;
      am_mode = w 0;
      am_ladrf = bit_or (bit_or (bit_or (w 14 <<< 48) (w 12 <<< 32)) (w 10 <<< 16)) (w 8);
      am_rdr_rlen = ring_length rdr;
      am_tdr_tlen = ring_length tdr;
      am_rdr_rdra = bit_and rdr 0x00ff_fff8;
      am_tdr_tdra = bit_and tdr 0x00ff_fff8;
      fakemac = mac;
      mac = mac_set_fakemac (slice mac 0 6) c.mac;
    })

-- The flags that raise INTR.
abbrev pub int_sources : ℕ
int_sources =
    bit_or csr0_babl
      (bit_or csr0_miss (bit_or csr0_merr (bit_or csr0_rint (bit_or csr0_tint csr0_idon))))

-- INTR as `rethink` sets it.
unfoldable pub csr0_rethought : ℕ → ℕ
csr0_rethought v =
    let cleared = bit_and v (not16 csr0_intr) in
    if has cleared int_sources then bit_or cleared csr0_intr else cleared

abbrev pub int_and_enable : ℕ
int_and_enable = bit_or csr0_intr csr0_inea

unfoldable pub rethink : (Card → Card) → Card → Card
unfolding csr0_rethought
rethink on_interrupt c =
    let d = with_csr0 c (csr0_rethought (csr0 c)) in
    if bit_and (csr0 d) int_and_enable == int_and_enable then on_interrupt d else d

unfoldable pub chip_wget : Card → ℕ → ℕ
chip_wget c reg_offset =
    if reg_offset == a2065_rap_off
    then c.rap
    else if leb rap_size c.rap
    then 0
    else let v = c.csr c.rap in
      let e =
        if (c.rap == 0) && has v (bit_or csr0_babl (bit_or csr0_cerr (bit_or csr0_miss csr0_merr)))
        then bit_or v csr0_err
        else v in
      if c.rap == 89 then 0x3003 else if c.rap == 88 then 2 ^ (28 - 16) else e

-- What a write of CSR0 makes of the register before any command is obeyed: INEA as written, the
-- command bits added, the status bits that are written as ones acknowledged.
unfoldable pub csr0_written : ℕ → ℕ → ℕ
csr0_written old v =
    let inea = bit_or (bit_and old (not16 csr0_inea)) (bit_and v csr0_inea) in
    let cmd =
      bit_or inea (bit_and v (bit_or csr0_init (bit_or csr0_strt (bit_or csr0_stop csr0_tdmd)))) in
    let acked = clear cmd (
      bit_and v (
        bit_or csr0_idon (
          bit_or csr0_tint (
            bit_or csr0_rint
              (bit_or csr0_merr (bit_or csr0_miss (bit_or csr0_cerr csr0_babl))))))) in
    bit_and acked (not16 csr0_err)

-- `csr[0] &= ~CSR0_STOP`, then TXON and RXON unless the mode disables them.
unfoldable pub switch_on : ℕ → ℕ → ℕ
switch_on mode v =
    let running = bit_and v (not16 csr0_stop) in
    let tx = if not (has mode mode_dtx) then bit_or running csr0_txon else running in
    if not (has mode mode_drx) then bit_or tx csr0_rxon else tx

-- The three commands of a write to CSR0; `oreg` is the register before the write.
unfoldable pub obey : ℕ → Card → Card
unfolding switch_on
obey oreg c =
    if has (csr0 c) csr0_stop && not (has oreg csr0_stop)
    then record c { csr = update (update c.csr 0 csr0_stop) 3 0 }
    else if has (csr0 c) csr0_strt
        && not (has oreg csr0_strt)
        && has oreg (bit_or csr0_stop csr0_init)
    then (let d = with_csr0 c (switch_on c.am_mode (csr0 c)) in
        if has (csr0 d) csr0_init && not (has oreg csr0_init)
        then (let e = chip_init d in
            record e { csr = update e.csr 0 (bit_or (csr0 e) csr0_idon); am_initialized = true })
        else d)
    else if has (csr0 c) csr0_init && not (has oreg csr0_init) && has oreg csr0_stop
    then (let e = chip_init c in
        let done = bit_or (csr0 e) csr0_idon in
        let off = bit_and done (not16 (bit_or csr0_rxon (bit_or csr0_txon csr0_stop))) in
        record e { csr = update (update e.csr 0 off) 3 0; am_initialized = true })
    else c

-- `csr[0] &= ~CSR0_TDMD`
unfoldable pub demand_done : Card → Card
demand_done c = with_csr0 c (bit_and (csr0 c) (not16 csr0_tdmd))

-- TDMD: transmit if the chip is initialized, switching it on first if it is off.
unfoldable pub demand : (Card → Option Card) → Card → Option Card
unfolding switch_on demand_done
demand on_transmit c =
    let running =
      if not (has (csr0 c) csr0_txon) then with_csr0 c (switch_on c.am_mode (csr0 c)) else c in
    let transmitted = if c.am_initialized then on_transmit running else some c in
    if has (csr0 c) csr0_tdmd then (transmitted >>= λ d. some (demand_done d)) else some c

module _ (on_interrupt : Card → Card) (on_transmit : Card → Option Card) where
  unfoldable pub write_csr0 : Card → ℕ → Option Card
  write_csr0 c v =
      demand on_transmit (obey (csr0 c) (with_csr0 c (csr0_written (csr0 c) v))) >>= λ d.
      some (rethink on_interrupt d)

-- CSR1, CSR2 and CSR3 are written only while STOP is set.
unfoldable pub write_stopped : Card → ℕ → ℕ → Card
write_stopped c n v = if has (csr0 c) csr0_stop then record c { csr = update c.csr n v } else c

-- The registers above CSR3 that have a meaning of their own; the rest are only stored.
unfoldable pub write_other : Card → ℕ → Card
unfolding chip_init_mask
write_other c v =
    let r = c.rap in
    let f = c.fakemac in
    if r == 8
    then record c { am_ladrf = bit_or (bit_and c.am_ladrf 0x0000_ffff_ffff_ffff) (v <<< 48) }
    else if r == 9
    then record c { am_ladrf = bit_or (bit_and c.am_ladrf 0xffff_0000_ffff_ffff) (v <<< 32) }
    else if r == 10
    then record c { am_ladrf = bit_or (bit_and c.am_ladrf 0xffff_ffff_0000_ffff) (v <<< 16) }
    else if r == 11
    then record c { am_ladrf = bit_or (bit_and c.am_ladrf 0xffff_ffff_ffff_0000) v }
    else if r == 12
    then record c { fakemac = update (update f 1 (v >>> 8)) 0 (bit_and v 0xff) }
    else if r == 13
    then record c { fakemac = update (update f 3 (v >>> 8)) 2 (bit_and v 0xff) }
    else if r == 14
    then record c { fakemac = update (update f 5 (v >>> 8)) 4 (bit_and v 0xff) }
    else if r == 15
    then record c { am_mode = v }
    else if r == 24
    then chip_init_mask (record c { am_rdr_rdra = bit_or (bit_and c.am_rdr_rdra 0xffff_0000) v })
    else if r == 25
    then chip_init_mask
        (record c { am_rdr_rdra = bit_or (bit_and c.am_rdr_rdra 0x0000_ffff) (v <<< 16) })
    else if r == 30
    then chip_init_mask (record c { am_tdr_tdra = bit_or (bit_and c.am_tdr_tdra 0xffff_0000) v })
    else if r == 31
    then chip_init_mask
        (record c { am_tdr_tdra = bit_or (bit_and c.am_tdr_tdra 0x0000_ffff) (v <<< 16) })
    else if r == 76
    then record c { am_rdr_rlen = (0x10000 - v) % 0x10000 }
    else if r == 78
    then record c { am_tdr_tlen = (0x10000 - v) % 0x10000 }
    else if leb 4 r
    then record c { csr = update c.csr r v }
    else c

module _ (on_interrupt : Card → Card) (on_transmit : Card → Option Card) where
  unfoldable pub chip_wput : ℕ → ℕ → Card → Option Card
  chip_wput reg_offset v c =
      if reg_offset == a2065_rap_off
      then some (record c { rap = bit_and v 0x7f })
      else if leb rap_size c.rap
      then some c
      else if c.rap == 0
      then write_csr0 on_interrupt on_transmit c v
      else if c.rap == 1
      then some (write_stopped c 1 (bit_and v (not16 1)))
      else if c.rap == 2
      then some (write_stopped c 2 (bit_and v 0x00ff))
      else if c.rap == 3
      then some (write_stopped c 3 (bit_and v 7))
      else some (write_other c v)

unfoldable pub registers_reset : Card → Card
registers_reset c = record c {
  csr = update (update (λ i. 0) 0 csr0_stop) 4 0x0115;
  rap = 0;
  am_initialized = false;
  tdr_offset = 0;
  rdr_offset = 0;
}

unfoldable pub registers_set_fakemac : Array → Card → Card
registers_set_fakemac mac c = record c { fakemac = mac }
