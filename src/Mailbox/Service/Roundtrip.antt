-- ===== src/Mailbox/Service/Roundtrip.antt =====
-- Registers of arm/src/registers.cpp written and read back through the mailbox of
-- arm/src/main_ddr3.cpp.
use a.Base.{
  ℕ, ◌+◌, ◌*◌, ◌/◌, ◌%◌, ◌≤◌, ◌<◌, ◌≡◌, refl, arith, ap, ◌∙◌, ◌==◌, ltb, if◌then◌else◌, Bool, true,
  not, ◌&&◌,
}
use a.Base.{Array, bit_and, bit_or, bit_and_low, has, Option, some, ◌>>=◌, kept_if}
use a.Types.{csr0_intr, csr0_inea, csr0_init, csr0_tdmd, csr0_strt}
use a.Card.{Card, csr0}
use a.Registers.{chip_wget, chip_wput}
use a.Registers.Access.{chip_wput_stopped}
use a.Doorbell.{rd64, wr64}
use a.Mailbox.{
  mbx_req_off, assert_mbx_int, put, on_interrupt_cb, on_transmit_cb, req_rw, req_addr, req_data,
  req_result, respond, early_interrupt, after_write, service_bridge,
}
use a.Mailbox.Service.{asked_read, asked_write, service_bridge-write, service_bridge_answers}

-- What neither an asserted interrupt nor a response nor the end of a hold changes: the registers.
record SameChip (c d : Card) : Type 0 where
  csr : d.csr ≡ c.csr
  rap : d.rap ≡ c.rap

early_interrupt-SameChip : (req : ℕ) (c : Card) → SameChip c (early_interrupt req c)
unfolding early_interrupt assert_mbx_int
early_interrupt-SameChip req c =
    let shows : Bool =
      not (req_rw req)
      && (req_addr req == 0)
      && has (req_result req c) csr0_intr
      && has (req_result req c) csr0_inea in
    let shown : Card = if shows then assert_mbx_int c else c in
    let told : SameChip c c = record { csr = refl; rap = refl } in
    let at_shown : SameChip c shown =
      kept_if (SameChip c) shows (record { csr = refl; rap = refl }) told in
    kept_if (SameChip c)
      (req_rw req
        && (req_addr req == 0)
        && has (req_data req) (bit_or csr0_init (bit_or csr0_tdmd csr0_strt)))
      (kept_if (SameChip c) (has (bit_or (req_data req) (csr0 shown)) csr0_inea)
        (record { csr = at_shown.csr; rap = at_shown.rap }) at_shown)
      at_shown

after_write-SameChip : (addr v : ℕ) (c : Card) → SameChip c (after_write addr v c)
unfolding after_write assert_mbx_int
after_write-SameChip addr v c =
    let raises : Bool = (addr == 0) && has v csr0_init && has (csr0 c) csr0_intr in
    let raised : Card = if raises then assert_mbx_int c else c in
    let at_raised : SameChip c raised =
      kept_if (SameChip c) raises (record { csr = refl; rap = refl })
        (record { csr = refl; rap = refl }) in
    kept_if (SameChip c) ((addr == 0) && not (has (csr0 c) csr0_intr) && ltb 0 raised.int_hold)
      (record { csr = at_raised.csr; rap = at_raised.rap }) at_raised

SameChip-eq-chip_wget : {c d : Card} (addr : ℕ) → SameChip c d → chip_wget d addr ≡ chip_wget c addr
unfolding chip_wget
SameChip-eq-chip_wget addr h = rw (h.csr, h.rap) refl

-- The FPGA posts `word` and the daemon serves it.
unfoldable pub exchange : Array → ℕ → Card → Option Card
exchange stack word c = service_bridge stack (wr64 mbx_req_off word c)

module _ (stack : Array) where
  -- The card that the write of a register finds.
  before_write : ℕ → ℕ → Card → Card
  before_write addr v c =
      respond 0 (early_interrupt (asked_write addr v) (wr64 mbx_req_off (asked_write addr v) c))

  before_write-SameChip : (addr v : ℕ) (c : Card) → SameChip c (before_write addr v c)
  unfolding before_write respond
  before_write-SameChip addr v c =
      let h =
        early_interrupt-SameChip (asked_write addr v) (wr64 mbx_req_off (asked_write addr v) c) in
      record { csr = h.csr; rap = h.rap }

  exchange-write :
      (c d : Card) (addr v : ℕ)
      → addr < 256
      → v < 0x10000
      → put stack addr v (before_write addr v c) ≡ some d
      → exchange stack (asked_write addr v) c ≡ some (after_write addr v d)
  unfolding exchange before_write
  exchange-write c d addr v l b e =
      service_bridge-write stack (wr64 mbx_req_off (asked_write addr v) c) addr v l b refl
      ∙ ap (λ o. o >>= λ d. some (after_write addr v d)) e

  selects :
      (c : Card) (r : ℕ)
      → r < 128
      → (d : Card) × (exchange stack (asked_write 2 r) c ≡ some d) × (d.rap ≡ r) × (d.csr ≡ c.csr)
  selects c r l =
      let b : Card = before_write 2 r c in
      let s : SameChip c b = before_write-SameChip 2 r c in
      let d : Card = record b { rap = bit_and r 0x7f } in
      let a : SameChip d (after_write 2 r d) = after_write-SameChip 2 r d in
      (
        after_write 2 r d,
        exchange-write c d 2 r (omega arith) (omega arith) (unfold put chip_wput in refl),
        a.rap ∙ bit_and_low 7 r ∙ omega arith,
        a.csr ∙ s.csr,
      )

  stores :
      (c : Card) (v : ℕ)
      → v < 0x10000
      → has (csr0 c) 4 ≡ true
      → 1 ≤ c.rap
      → c.rap ≤ 3
      → (d : Card) × (exchange stack (asked_write 0 v) c ≡ some d)
        × (chip_wget d 0
            ≡ (if c.rap == 1 then v / 2 * 2 else if c.rap == 2 then v % 256 else v % 8))
        × (csr0 d ≡ csr0 c)
  stores c v b s l u =
      let x : Card = before_write 0 v c in
      let h : SameChip c x = before_write-SameChip 0 v c in
      let zero_same : csr0 x ≡ csr0 c = ap (λ (a : Array). a 0) h.csr in
      let w =
        chip_wput_stopped on_interrupt_cb (on_transmit_cb stack) x v b
          (ap (λ w. has w 4) zero_same ∙ s) (omega (arith, h.rap)) (omega (arith, h.rap)) in
      let a : SameChip w.0 (after_write 0 v w.0) = after_write-SameChip 0 v w.0 in
      (
        after_write 0 v w.0,
        exchange-write c w.0 0 v (omega arith) b (unfold put in w.1),
        SameChip-eq-chip_wget 0 a
            ∙ w.2
            ∙ ap (λ (r : ℕ). if r == 1 then v / 2 * 2 else if r == 2 then v % 256 else v % 8) h.rap,
        ap (λ (a : Array). a 0) a.csr ∙ w.3 ∙ zero_same,
      )

  -- While STOP is set, three requests through the mailbox, which select CSR1, CSR2 or CSR3, write
  -- 16 bits to it and read it, are served without a fault, the response has the value in its bits
  -- from 1 on, CSR1 without its lowest bit, CSR2 as eight bits, CSR3 as three, and CSR0 is kept.
  pub exchange_roundtrip :
      (c : Card) (r v : ℕ)
      → 1 ≤ r
      → r ≤ 3
      → v < 0x10000
      → has (csr0 c) 4 ≡ true
      → (d : Card) × ((exchange stack (asked_write 2 r) c >>= λ x.
            exchange stack (asked_write 0 v) x >>= λ y. exchange stack (asked_read 0) y)
          ≡ some d)
        × (rd64 0x8008 d
            ≡ 1 + 2 * (if r == 1 then v / 2 * 2 else if r == 2 then v % 256 else v % 8))
        × (csr0 d ≡ csr0 c)
  unfolding exchange
  exchange_roundtrip c r v l u b s =
      let x = selects c r (omega arith) in
      let zero_same : csr0 x.0 ≡ csr0 c = ap (λ (a : Array). a 0) x.3 in
      let y =
        stores x.0 v b (ap (λ w. has w 4) zero_same ∙ s) (omega (arith, x.2))
          (omega (arith, x.2)) in
      let z =
        service_bridge_answers stack (wr64 mbx_req_off (asked_read 0) y.0) 0 (omega arith) refl in
      (
        z.0,
        ap (λ o. o >>= λ x. exchange stack (asked_write 0 v) x >>= exchange stack (asked_read 0))
              x.1
            ∙ ap (λ o. o >>= exchange stack (asked_read 0)) y.1
            ∙ z.1,
        z.3
            ∙ ap (λ (w : ℕ). 1 + 2 * w)
                (unfold chip_wget in
                  y.2
                  ∙ ap (λ (r : ℕ). if r == 1 then v / 2 * 2 else if r == 2 then v % 256 else v % 8)
                      x.2),
        ap (λ (a : Array). a 0) z.5 ∙ y.3 ∙ zero_same,
      )
