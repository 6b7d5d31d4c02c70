-- ===== src/Mailbox.antt =====
-- arm/src/main_ddr3.cpp: the daemon of the mailbox transport. The FPGA posts each access of the
-- 68k, reads too, in the REQ slot and waits for the response. Card memory is taken as answered at
-- once; the exchange behind it is in Remote.
pub mod Queue
pub mod Bounds
pub mod Steps
pub mod Settle
pub mod Service
pub mod Deferred
use a.Base.{
  ℕ, zero, suc, ◌+◌, ◌-◌, ◌*◌, ◌/◌, ◌%◌, ◌^◌, ◌==◌, ltb, leb, if◌then◌else◌, Bool, true, false, not,
  ◌&&◌, ◌||◌, Option, none, some, ◌>>=◌,
}
use a.Base.{Array, List, [], ◌∷◌, slice, update, bit_and, bit_or, u8, u16, ◌<<<◌, ◌>>>◌, has}
use a.Types.{csr0_intr, csr0_inea, csr0_init, csr0_strt, csr0_tdmd, csr0_txon, a2065_rap_off}
use a.Mac.{mac_set_addresses}
use a.Card.{Card, csr0}
use a.Ethernet.{ethernet_close}
use a.Registers.{chip_wget, chip_wput, registers_reset, registers_set_fakemac}
use a.Rings.Receive.{gotfunc}
use a.Rings.Transmit.{do_transmit}
use a.Doorbell.{rd64, wr64, int_line}
use a.Doorbell.Station.{commodore_mac, mbx_mac}

abbrev pub mbx_req_off : ℕ
mbx_req_off = 0x8000

abbrev pub mbx_rsp_off : ℕ
mbx_rsp_off = 0x8008

abbrev pub mbx_ram_req : ℕ
mbx_ram_req = 0x8010

abbrev pub mbx_ram_rsp : ℕ
mbx_ram_rsp = 0x8018

abbrev pub mbx_int_off : ℕ
mbx_int_off = 0x8020

abbrev pub mbx_mac_off : ℕ
mbx_mac_off = 0x8028

abbrev pub int_hold_iter : ℕ
int_hold_iter = 100

unfoldable pub schedule_tdmd_retry : Card → Card
schedule_tdmd_retry c = if ltb c.tdmd_retry 16 then record c { tdmd_retry = 16 } else c

-- The slot is written three times over, with the same value.
unfoldable pub assert_mbx_int : Card → Card
assert_mbx_int c = record (wr64 mbx_int_off 1 (wr64 mbx_int_off 1 (wr64 mbx_int_off 1 c))) {
  last_mbx_int = some 1;
  int_hold = int_hold_iter;
}

unfoldable pub on_interrupt_cb : Card → Card
unfolding assert_mbx_int
on_interrupt_cb c = assert_mbx_int c

unfoldable pub write_mbx_int : Card → Card
unfolding int_line
write_mbx_int c =
    let val = int_line (csr0 c) in
    let told = record (wr64 mbx_int_off val c) { last_mbx_int = some val } in
    elim c.last_mbx_int [ none ↦ told | some last ↦ if val == last then c else told ]

-- The fields of a request.
unfoldable pub req_rw : ℕ → Bool
req_rw req = has (req >>> 1) 1

unfoldable pub req_addr : ℕ → ℕ
req_addr req = bit_and (req >>> 2) 0xff

unfoldable pub req_data : ℕ → ℕ
req_data req = bit_and (req >>> 10) 0xffff

-- What a read answers; a write answers with 0.
unfoldable pub req_result : ℕ → Card → ℕ
unfolding req_rw req_addr
req_result req c = if req_rw req then 0 else chip_wget c (req_addr req)

-- The response is written and the request cleared.
unfoldable pub respond : ℕ → Card → Card
respond result c = wr64 mbx_req_off 0 (wr64 mbx_rsp_off (bit_or 1 (result <<< 1)) c)

-- The interrupt is asserted before the response, for a read of CSR0 that shows it and for a command
-- that may raise it.
unfoldable pub early_interrupt : ℕ → Card → Card
unfolding req_rw req_addr req_data req_result assert_mbx_int
early_interrupt req c =
    let result = req_result req c in
    let word = req_data req in
    let shown =
      if not (req_rw req) && (req_addr req == 0) && has result csr0_intr && has result csr0_inea
      then assert_mbx_int c
      else c in
    if req_rw req && (req_addr req == 0) && has word (bit_or csr0_init (bit_or csr0_tdmd csr0_strt))
    then if has (bit_or word (csr0 shown)) csr0_inea then assert_mbx_int shown else shown
    else shown

-- What follows the write of a register: the interrupt of a finished INIT is asserted, and a cleared
-- interrupt ends the hold at the next turn.
unfoldable pub after_write : ℕ → ℕ → Card → Card
unfolding assert_mbx_int
after_write addr word c =
    let raised =
      if (addr == 0) && has word csr0_init && has (csr0 c) csr0_intr then assert_mbx_int c else c in
    if (addr == 0) && not (has (csr0 c) csr0_intr) && ltb 0 raised.int_hold
    then record raised { int_hold = 1 }
    else raised

-- A deferred write is queued, or dropped where the ring of eight has seven.
unfoldable pub defer : ℕ → Card → Card
defer word c =
    let next = (c.deferred_csr0_head + 1) % 8 in
    if not (next == c.deferred_csr0_tail)
    then record c {
      deferred_csr0_queue = update c.deferred_csr0_queue c.deferred_csr0_head word;
      deferred_csr0_head = next;
    }
    else c

-- The turn of the loop that keeps the interrupt up while the FPGA may miss it.
unfoldable pub refresh : Card → Card
refresh c = elim c.last_mbx_int [
  | none ↦ record c { int_refresh = 0 }
  | some last ↦
      if last == 1
      then (if leb 10 (c.int_refresh + 1)
          then record (wr64 mbx_int_off 1 c) { int_refresh = 0 }
          else record c { int_refresh = c.int_refresh + 1 })
      else record c { int_refresh = 0 }
]

unfoldable pub hold : Card → Card
unfolding write_mbx_int
hold c = if ltb 0 c.int_hold then record c { int_hold = c.int_hold - 1 } else write_mbx_int c

-- `stack` is what the array `tmp` of `gotfunc` holds before it is filled.
module _ (stack : Array) where
  unfoldable pub on_transmit_cb : Card → Option Card
  unfolding schedule_tdmd_retry
  on_transmit_cb c = do_transmit on_interrupt_cb stack c >>= λ r.
      some (if not r.0 then schedule_tdmd_retry r.1 else r.1)

  unfoldable pub rx_turn : Array → ℕ → Card → Option Card
  rx_turn rxbuf len c = if ltb 0 len then gotfunc on_interrupt_cb stack rxbuf len c else some c

  unfoldable pub put : ℕ → ℕ → Card → Option Card
  put addr word c = chip_wput on_interrupt_cb on_transmit_cb addr word c

  unfoldable pub service_bridge : Card → Option Card
  unfolding req_rw req_addr req_data req_result early_interrupt respond after_write put
  service_bridge c =
      let req = rd64 mbx_req_off c in
      let answered = respond (req_result req c) (early_interrupt req c) in
      let written = put (req_addr req) (req_data req) answered >>= λ d.
      some (after_write (req_addr req) (req_data req) d) in
      if not (has req 1) then some c else if req_rw req then written else some answered

  -- The service that runs inside an exchange with card memory: a write of RAP is obeyed, one of RDP
  -- is deferred.
  unfoldable pub service_bridge_safe : Card → Option Card
  unfolding req_rw req_addr req_data req_result respond defer put
  service_bridge_safe c =
      let req = rd64 mbx_req_off c in
      let answered = respond (req_result req c) c in
      if not (has req 1)
      then some c
      else if not (req_rw req)
      then some answered
      else if req_addr req == a2065_rap_off
      then put (req_addr req) (req_data req) answered
      else if req_addr req == 0
      then some (defer (req_data req) answered)
      else some answered

  -- One deferred write is taken from the queue and obeyed.
  unfoldable pub drain_one : Card → Option Card
  unfolding put
  drain_one c =
      let saved = c.deferred_csr0_queue c.deferred_csr0_tail in
      put 0 saved (record c { deferred_csr0_tail = (c.deferred_csr0_tail + 1) % 8 }) >>= λ d.
      some
        (if not (has (csr0 d) csr0_intr) && ltb 0 d.int_hold then record d { int_hold = 1 } else d)

  -- The loop over the queue; `none` for a lack of rounds too, and eight are enough.
  unfoldable pub drain_loop : ℕ → Card → Option Card
  unfolding drain_one
  drain_loop zero c = none
  drain_loop (suc n) c =
      let rest = drain_one c >>= λ d. drain_loop n d in
      if c.deferred_csr0_tail == c.deferred_csr0_head then some c else rest

  unfoldable pub retry : Card → Option Card
  retry c =
      let d = record c { tdmd_retry = c.tdmd_retry - 1 } in
      let tried = do_transmit on_interrupt_cb stack d >>= λ r.
      some (if r.0 then record r.1 { tdmd_retry = 0 } else r.1) in
      if not (ltb 0 c.tdmd_retry)
      then some c
      else if has (csr0 d) csr0_txon
      then tried
      else some (record d { tdmd_retry = 0 })

  -- One turn of the loop of `main`.
  unfoldable pub loop_turn : Card → Option Card
  unfolding service_bridge drain_loop retry hold refresh
  loop_turn c =
      service_bridge c >>= λ d. drain_loop 8 d >>= λ e. retry e >>= λ f. some (refresh (hold f))

unfoldable pub write_mbx_mac : Array → Card → Card
write_mbx_mac fakemac c = wr64 mbx_mac_off (mbx_mac fakemac) c

-- Without a hardware address the low half stays zero.
unfoldable pub daemon_set_default_mac : Array → Card → Card
daemon_set_default_mac host_mac c =
    let m = commodore_mac host_mac in
    registers_set_fakemac m (record c { mac = mac_set_addresses (slice m 0 6) (slice m 0 6) c.mac })

-- One of the five rounds that clear the slots.
unfoldable pub clear_slots : Card → Card
clear_slots c =
    let d = wr64 mbx_req_off 0 (wr64 mbx_rsp_off 0 (wr64 mbx_rsp_off 1 c)) in
    wr64 mbx_int_off 0 (wr64 mbx_ram_rsp 0 (wr64 mbx_ram_req 0 d))

unfoldable pub start_up : Array → Card → Card
unfolding clear_slots daemon_set_default_mac write_mbx_mac
start_up host_mac c =
    let cleared = clear_slots (clear_slots (clear_slots (clear_slots (clear_slots c)))) in
    let named = daemon_set_default_mac host_mac (registers_reset cleared) in
    write_mbx_mac named.fakemac named

unfoldable pub shut_down : Card → Card
shut_down c = ethernet_close (wr64 mbx_int_off 0 c)
