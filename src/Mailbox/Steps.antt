-- ===== src/Mailbox/Steps.antt =====
-- The daemon of arm/src/main_ddr3.cpp beside the Amiga while the turns of its loop and of its receive
-- thread do not overlap, and no request is posted during a turn, so that the service inside an
-- exchange with card memory has nothing to serve.
use a.Base.{
  ℕ, zero, suc, ◌-◌, ◌/◌, ◌≤◌, ◌<◌, ◌≡◌, refl, arith, ◌==◌, ltb, if◌then◌else◌, Bool, not, ◌&&◌,
}
use a.Base.{
  Array, bit_or, bit_and_low, has, none, some, OnSome, OnSome-none, OnSome-some, OnSome-bind,
  kept_if,
}
use a.Types.{csr0_intr, csr0_inea, csr0_txon, csr0_init, csr0_tdmd, csr0_strt}
use a.Card.{Card, csr0}
use a.Registers.Init.{RingsInside}
use a.Registers.{registers_reset, registers_set_fakemac}
use a.Doorbell.{rd64, wr64}
use a.Mailbox.{
  mbx_req_off, mbx_rsp_off, assert_mbx_int, rx_turn, req_rw, req_addr, req_data, req_result,
  respond, early_interrupt, after_write, service_bridge, drain_one, drain_loop, retry, loop_turn,
  hold, start_up, clear_slots, daemon_set_default_mac, write_mbx_mac,
}
use a.Mailbox.Bounds.{
  Told, Sound, Sound-Survives, assert_mbx_int-Sound, int_hold-Sound, tdmd_retry-Sound,
  deferred_csr0_tail-Sound, req-Sound, rsp-Sound,
}
use a.Mailbox.Bounds.Operations.{
  hold-Sound, refresh-Sound, do_transmit-Sound, rx_turn-Sound, put-Sound,
}

-- Between two turns: a turn of the loop or of the receive thread, a write of the Amiga to card memory,
-- the FPGA's request, and its reset of the response.
pub data Step (c : Card) : Card → Type 0 where
  turns : (stack : Array) {d : Card} → loop_turn stack c ≡ some d → Step c d
  receives :
      (stack rxbuf : Array) (len : ℕ) {d : Card} → rx_turn stack rxbuf len c ≡ some d → Step c d
  stores : (ram : Array) → Step c (record c { boardram = ram })
  asks : (word : ℕ) → Step c (wr64 mbx_req_off word c)
  takes : Step c (wr64 mbx_rsp_off 0 c)

-- The static variables as the program begins.
pub record Fresh (c : Card) : Type 0 where
  pub rings : RingsInside c
  pub last : c.last_mbx_int ≡ none
  pub held : c.int_hold ≡ 0
  pub head : c.deferred_csr0_head ≡ 0
  pub tail : c.deferred_csr0_tail ≡ 0
  pub queue : (i : ℕ) → c.deferred_csr0_queue i ≡ 0
  pub retry : c.tdmd_retry ≡ 0
  pub refreshed : c.int_refresh ≡ 0

pub data Reach (c : Card) : Card → Type 0 where
  begins : (host_mac : Array) → Reach c (start_up host_mac c)
  later : {d e : Card} → Reach c d → Step d e → Reach c e

req_data-lt : (req : ℕ) → req_data req < 0x10000
unfolding req_data
req_data-lt req = omega (arith, bit_and_low 16 (req / 1024))

respond-Sound : (result : ℕ) (c : Card) → Sound c → Sound (respond result c)
unfolding respond
respond-Sound result c h = req-Sound (wr64 mbx_rsp_off _ c) 0 (rsp-Sound c _ h)

early_interrupt-Sound : (req : ℕ) (c : Card) → Sound c → Sound (early_interrupt req c)
unfolding early_interrupt
early_interrupt-Sound req c h =
    let result : ℕ = req_result req c in
    let shows : Bool =
      not (req_rw req) && (req_addr req == 0) && has result csr0_intr && has result csr0_inea in
    let shown : Card = if shows then assert_mbx_int c else c in
    let at_shown : Sound shown = kept_if Sound shows (assert_mbx_int-Sound c h) h in
    kept_if Sound
      (req_rw req
        && (req_addr req == 0)
        && has (req_data req) (bit_or csr0_init (bit_or csr0_tdmd csr0_strt)))
      (kept_if Sound (has (bit_or (req_data req) (csr0 shown)) csr0_inea)
        (assert_mbx_int-Sound shown at_shown) at_shown)
      at_shown

after_write-Sound : (addr word : ℕ) (c : Card) → Sound c → Sound (after_write addr word c)
unfolding after_write
after_write-Sound addr word c h =
    let raises : Bool = (addr == 0) && has word csr0_init && has (csr0 c) csr0_intr in
    let raised : Card = if raises then assert_mbx_int c else c in
    let at_raised : Sound raised = kept_if Sound raises (assert_mbx_int-Sound c h) h in
    kept_if Sound ((addr == 0) && not (has (csr0 c) csr0_intr) && ltb 0 raised.int_hold)
      (int_hold-Sound raised 1 (omega arith) at_raised) at_raised

module _ (stack : Array) where
  service_bridge-Sound : (c : Card) → Sound c → OnSome Sound (service_bridge stack c)
  unfolding service_bridge
  service_bridge-Sound c h =
      let req : ℕ = rd64 mbx_req_off c in
      let answered : Card = respond (req_result req c) (early_interrupt req c) in
      let at_answered : Sound answered = respond-Sound _ _ (early_interrupt-Sound req c h) in
      kept_if (OnSome Sound) (not (has req 1)) (OnSome-some h) (
        kept_if (OnSome Sound) (req_rw req)
          (OnSome-bind Sound
            (put-Sound stack (req_addr req) (req_data req) answered (req_data-lt req) at_answered)
            (λ d k. OnSome-some (after_write-Sound (req_addr req) (req_data req) d k)))
          (OnSome-some at_answered))

  drain_one-Sound : (c : Card) → Sound c → OnSome Sound (drain_one stack c)
  unfolding drain_one
  drain_one-Sound c h =
      OnSome-bind Sound
        (put-Sound stack 0 (c.deferred_csr0_queue c.deferred_csr0_tail) _
          (h.bounded.words c.deferred_csr0_tail) (deferred_csr0_tail-Sound c _ (omega arith) h))
        (λ d k. OnSome-some (
          kept_if Sound (not (has (csr0 d) csr0_intr) && ltb 0 d.int_hold)
            (int_hold-Sound d 1 (omega arith) k) k))

  drain_loop-Sound : (n : ℕ) (c : Card) → Sound c → OnSome Sound (drain_loop stack n c)
  unfolding drain_loop
  drain_loop-Sound zero c h = OnSome-none
  drain_loop-Sound (suc n) c h =
      kept_if (OnSome Sound) (c.deferred_csr0_tail == c.deferred_csr0_head) (OnSome-some h)
        (OnSome-bind Sound (drain_one-Sound c h) (λ d k. drain_loop-Sound n d k))

  retry-Sound : (c : Card) → Sound c → OnSome Sound (retry stack c)
  unfolding retry
  retry-Sound c h =
      let d : Card = record c { tdmd_retry = c.tdmd_retry - 1 } in
      let at_d : Sound d =
        tdmd_retry-Sound c (c.tdmd_retry - 1) (omega (arith, h.bounded.retry)) h in
      kept_if (OnSome Sound) (not (ltb 0 c.tdmd_retry)) (OnSome-some h) (
        kept_if (OnSome Sound) (has (csr0 d) csr0_txon)
          (OnSome-bind (λ r. Sound r.1) (do_transmit-Sound stack d at_d)
            (λ r k. OnSome-some (kept_if Sound r.0 (tdmd_retry-Sound r.1 0 (omega arith) k) k)))
          (OnSome-some (tdmd_retry-Sound d 0 (omega arith) at_d)))

  loop_turn-Sound : (c : Card) → Sound c → OnSome Sound (loop_turn stack c)
  unfolding loop_turn
  loop_turn-Sound c h = OnSome-bind Sound (service_bridge-Sound c h) (λ d i.
      OnSome-bind Sound (drain_loop-Sound 8 d i) (λ e j.
        OnSome-bind Sound (retry-Sound e j)
          (λ f k. OnSome-some (refresh-Sound (hold f) (hold-Sound f k)))))

Step-Sound : {c d : Card} → Step c d → Sound c → Sound d
Step-Sound {c} (turns stack e) h = (loop_turn-Sound stack c h).holds _ e
Step-Sound {c} (receives stack rxbuf len e) h = (rx_turn-Sound stack rxbuf len c h).holds _ e
Step-Sound {c} (stores ram) h =
    Sound-Survives.reads c ram c.transmitbuffer c.transmitlen c.tdr_offset c.rdr_offset
      c.loopback_iter c.sent h
Step-Sound {c} (asks word) h = req-Sound c word h
Step-Sound {c} takes h = rsp-Sound c 0 h

start_up-Sound : (host_mac : Array) (c : Card) → Fresh c → Sound (start_up host_mac c)
unfolding start_up clear_slots daemon_set_default_mac registers_set_fakemac write_mbx_mac
    registers_reset has
start_up-Sound host_mac c h = record {
  formed = record {
    halts = λ s. (refl, refl);
    words = λ i. ground arith;
    rings = record { receive = h.rings.receive; transmit = h.rings.transmit };
  };
  bounded = record {
    retry = omega (arith, h.retry);
    held = omega (arith, h.held);
    refreshed = omega (arith, h.refreshed);
    head = omega (arith, h.head);
    tail = omega (arith, h.tail);
    words = λ i. omega (arith, h.queue i);
    told = unfold Told in rw h.last tt;
  };
}

pub Reach-Sound : {c d : Card} → Fresh c → Reach c d → Sound d
Reach-Sound {c} f (begins host_mac) = start_up-Sound host_mac c f
Reach-Sound f (later reach step) = Step-Sound step (Reach-Sound f reach)

-- In every state between two turns that the daemon of the mailbox reaches while the turns of its
-- loop and of its receive thread do not overlap, no request is posted during a turn and card
-- memory answers, the retries, the hold and the refresh of the interrupt and the ends of the ring
-- are in their ranges, every register has 16 bits, and both rings begin inside card memory;
-- between the turns the Amiga writes card memory and the FPGA its slots, and the static variables
-- are as the program begins.
pub reachable_bounds :
    {c d : Card}
    → Fresh c
    → Reach c d
    → (d.tdmd_retry ≤ 16)
      × (d.int_hold ≤ 100)
      × (d.int_refresh < 10)
      × (d.deferred_csr0_head < 8)
      × (d.deferred_csr0_tail < 8)
      × ((i : ℕ) → d.csr i < 0x10000)
      × RingsInside d
reachable_bounds f reach =
    let s = Reach-Sound f reach in
    let b = s.bounded in
    (b.retry, b.held, b.refreshed, b.head, b.tail, s.formed.words, s.formed.rings)
