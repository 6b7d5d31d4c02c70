-- ===== src/Bridge/Interrupt.antt =====
-- The interrupt of arm/src/main.cpp is only ever set.
use a.Base.{
  ℕ, ◌+◌, ◌≡◌, refl, ◌==◌, ltb, leb, not, some, Array, OnSome, OnSome-some, OnSome-bind, kept_if,
}
use a.Card.{Card}
use a.Registers.{chip_wget}
use a.Registers.Ignore.{Ignores, Ignores-Survives, chip_wput-Ignores}
use a.Rings.Receive.Preserve.{gotfunc-Survives}
use a.Rings.Transmit.Preserve.{do_transmit-Survives}
use a.Doorbell.{rd64, wr64}
use a.Bridge.{
  bridge_read8, bridge_read16, bridge_reg_addr, bridge_reg_data, bridge_reg_new_req, bridge_reg_rw,
  on_interrupt_cb, on_transmit_cb, rx_turn, finish, service_bridge, loop_turn,
}

-- The slot that takes the interrupt back has the value it had, and the one that asserts it is not
-- changed but to one.
pub record Asserted (clr : ℕ) (c : Card) : Type 0 where
  pub line : rd64 0x10 c ≡ 1
  pub cleared : rd64 0x11 c ≡ clr

module _ (clr : ℕ) (stack : Array) where
  Asserted-Ignores : Ignores (Asserted clr)
  Asserted-Ignores = record {
    chip =
        λ d csr fakemac ram buf rap mode ladrf rlen rdra tlen tdra len tdr rdr iter init mac frames
            h.
          record { line = h.line; cleared = h.cleared };
  }

  on_interrupt_cb-Asserted : (c : Card) → Asserted clr c → Asserted clr (on_interrupt_cb c)
  unfolding on_interrupt_cb
  on_interrupt_cb-Asserted c h = record { line = refl; cleared = h.cleared }

  on_transmit_cb-Asserted :
      (c : Card) → Asserted clr c → OnSome (Asserted clr) (on_transmit_cb stack c)
  unfolding on_transmit_cb
  on_transmit_cb-Asserted c h =
      OnSome-bind (λ r. Asserted clr r.1)
        (do_transmit-Survives (Ignores-Survives Asserted-Ignores) on_interrupt_cb
          on_interrupt_cb-Asserted stack c h)
        (λ r k. OnSome-some k)

  finish-Asserted : (result : ℕ) (c : Card) → Asserted clr c → Asserted clr (finish result c)
  unfolding finish
  finish-Asserted result c h = record { line = h.line; cleared = h.cleared }

  service_bridge-Asserted :
      (c : Card) → Asserted clr c → OnSome (Asserted clr) (service_bridge stack c)
  unfolding service_bridge
  service_bridge-Asserted c h =
      kept_if (OnSome (Asserted clr)) (bridge_read8 bridge_reg_new_req c == 0) (OnSome-some h) (
        kept_if (OnSome (Asserted clr)) (not (bridge_read8 bridge_reg_rw c == 0))
          (OnSome-bind (Asserted clr)
            (chip_wput-Ignores Asserted-Ignores on_interrupt_cb (on_transmit_cb stack)
              on_interrupt_cb-Asserted on_transmit_cb-Asserted (bridge_read8 bridge_reg_addr c)
              (bridge_read16 bridge_reg_data c) c h)
            (λ d k. OnSome-some (finish-Asserted 0 d k)))
          (OnSome-some (finish-Asserted (chip_wget c (bridge_read8 bridge_reg_addr c)) c h)))

  loop_turn-Asserted :
      (n : ℕ) (c : Card) → Asserted clr c → OnSome (λ s. Asserted clr s.1) (loop_turn stack (n, c))
  unfolding loop_turn
  loop_turn-Asserted n c h = OnSome-bind (Asserted clr) (service_bridge-Asserted c h) (λ d k.
      kept_if (OnSome (λ s. Asserted clr s.1)) (leb 1000 (n + 1))
        (OnSome-bind (Asserted clr) (on_transmit_cb-Asserted d k) (λ e m. OnSome-some m))
        (OnSome-some k))

  rx_turn-Asserted :
      (rxbuf : Array) (len : ℕ) (c : Card)
      → Asserted clr c
      → OnSome (Asserted clr) (rx_turn stack rxbuf len c)
  unfolding rx_turn
  rx_turn-Asserted rxbuf len c h =
      kept_if (OnSome (Asserted clr)) (ltb 0 len)
        (gotfunc-Survives (Ignores-Survives Asserted-Ignores) on_interrupt_cb
          on_interrupt_cb-Asserted stack rxbuf len c h)
        (OnSome-some h)

-- A turn of the loop with its counter, and of the receive thread.
pub data Step (s : ℕ × Card) : ℕ × Card → Type 0 where
  turns : (stack : Array) {t : ℕ × Card} → loop_turn stack s ≡ some t → Step s t
  receives :
      (stack rxbuf : Array) (len : ℕ) {d : Card}
      → rx_turn stack rxbuf len s.1 ≡ some d
      → Step s (s.0, d)
  -- The FPGA's request.
  asks :
      (addr rw word req : ℕ)
      → Step s (
        s.0,
        wr64 bridge_reg_new_req req
            (wr64 bridge_reg_data word (wr64 bridge_reg_rw rw (wr64 bridge_reg_addr addr s.1))),
      )

pub data Run (s : ℕ × Card) : ℕ × Card → Type 0 where
  rests : Run s s
  later : {t u : ℕ × Card} → Run s t → Step t u → Run s u

Step-Asserted : {s t : ℕ × Card} (clr : ℕ) → Step s t → Asserted clr s.1 → Asserted clr t.1
Step-Asserted {s} clr (turns stack e) h = (loop_turn-Asserted clr stack s.0 s.1 h).holds _ e
Step-Asserted {s} clr (receives stack rxbuf len e) h =
    (rx_turn-Asserted clr stack rxbuf len s.1 h).holds _ e
Step-Asserted clr (asks addr rw word req) h = record { line = h.line; cleared = h.cleared }

Run-Asserted : {s t : ℕ × Card} (clr : ℕ) → Run s t → Asserted clr s.1 → Asserted clr t.1
Run-Asserted clr rests h = h
Run-Asserted clr (later run step) h = Step-Asserted clr step (Run-Asserted clr run h)

-- Once the slot that asserts the interrupt of the older transport is one it stays so, and the
-- slot that takes the interrupt back is never written, in any run of the loop and the receive
-- thread with the FPGA posting any requests.
pub never_taken_back :
    {s t : ℕ × Card}
    → rd64 0x10 s.1 ≡ 1
    → Run s t
    → (rd64 0x10 t.1 ≡ 1) × (rd64 0x11 t.1 ≡ rd64 0x11 s.1)
never_taken_back {s} e run =
    let a = Run-Asserted (rd64 0x11 s.1) run (record { line = e; cleared = refl }) in
    (a.line, a.cleared)
