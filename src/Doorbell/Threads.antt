-- ===== src/Doorbell/Threads.antt =====
-- The two threads of arm/src/main_doorbell.cpp in the steps between which the other can run. What
-- is done under `registers_lock` is one step; `push_csr_shadow` and `update_int_state` read the
-- registers under the lock and write the slot after it is released.
pub mod Overlap
pub mod Lost
pub mod Window
pub mod Typed
pub mod Ranges
use a.Base.{
  ℕ, zero, suc, ◌≡◌, refl, arith, ltb, if◌then◌else◌, Bool, true, false, Bool-cases, inl, inr,
}
use a.Base.{Array, Option, none, some, ◌>>=◌, has}
use a.Card.{Card, csr0}
use a.Rings.Receive.{gotfunc}
use a.Doorbell.{
  ddr3_cmd_off, ddr3_csr_off, ddr3_int_off, rd64, wr64, packed_csrs, int_line, publish,
  push_csr_shadow, update_int_state, on_interrupt_cb, obey_cmd, poll_turn, rx_turn,
}

-- What a thread does next. The values are those that it has read and not yet written.
pub data Pc : Type 0 where
  idle : Pc
  obeys : (cmd : ℕ) → Pc
  clears : Pc
  reads_csrs : Pc
  writes_shadow : (packed : ℕ) → Pc
  reads_csr0 : Pc
  writes_line : (val : ℕ) → Pc

-- `push_csr_shadow` and then `update_int_state`.
unfoldable pub publish_move : Pc → Card → Pc × Card
publish_move reads_csrs c = (writes_shadow (packed_csrs c), c)
publish_move (writes_shadow packed) c = (reads_csr0, wr64 ddr3_csr_off packed c)
publish_move reads_csr0 c = (writes_line (int_line (csr0 c)), c)
publish_move (writes_line val) c = (idle, wr64 ddr3_int_off val c)
publish_move pc c = (pc, c)

-- The step that takes the lock and calls the chip.
unfoldable pub called : Pc → Option Card → Option (Pc × Card)
called pc none = none
called pc (some c) = some (pc, c)

module _ (stack : Array) where
  -- The polling thread.
  unfoldable pub poll_move : Pc → Card → Option (Pc × Card)
  unfolding publish_move called
  poll_move idle c =
      let cmd = rd64 ddr3_cmd_off c in some (if has cmd 1 then obeys cmd else idle, c)
  poll_move (obeys cmd) c = called clears (obey_cmd stack cmd c)
  poll_move clears c = some (reads_csrs, wr64 ddr3_cmd_off 0 c)
  poll_move pc c = some (publish_move pc c)

  -- The receive thread, to which `ethernet_recv` gives `len` bytes in `rxbuf`.
  unfoldable pub rx_move : Array → ℕ → Pc → Card → Option (Pc × Card)
  unfolding publish_move called
  rx_move rxbuf len idle c =
      let got = called reads_csrs (gotfunc on_interrupt_cb stack rxbuf len c) in
      if ltb 0 len then got else some (idle, c)
  rx_move rxbuf len pc c = some (publish_move pc c)

  -- A number of steps of a thread with nothing else in between.
  unfoldable pub poll_moves : ℕ → Pc → Card → Option (Pc × Card)
  unfolding poll_move
  poll_moves zero pc c = some (pc, c)
  poll_moves (suc n) pc c = poll_move pc c >>= λ r. poll_moves n r.0 r.1

  unfoldable pub rx_moves : Array → ℕ → ℕ → Pc → Card → Option (Pc × Card)
  unfolding rx_move
  rx_moves rxbuf len zero pc c = some (pc, c)
  rx_moves rxbuf len (suc n) pc c = rx_move rxbuf len pc c >>= λ r. rx_moves rxbuf len n r.0 r.1

  pub poll_moves-idle :
      (n : ℕ) (c : Card)
      → has (rd64 ddr3_cmd_off c) 1 ≡ false
      → poll_moves n idle c ≡ some (idle, c)
  unfolding poll_moves poll_move
  poll_moves-idle zero c h = refl
  poll_moves-idle (suc n) c h = rw h (poll_moves-idle n c h)

  obeyed :
      (o : Option Card)
      → (called clears o >>= λ r. poll_moves 5 r.0 r.1)
        ≡ called idle (o >>= λ d. some (publish (wr64 ddr3_cmd_off 0 d)))
  unfolding called poll_moves poll_move publish_move publish push_csr_shadow update_int_state
  obeyed none = refl
  obeyed (some d) = refl

  received :
      (rxbuf : Array) (len : ℕ) (o : Option Card)
      → (called reads_csrs o >>= λ r. rx_moves rxbuf len 4 r.0 r.1)
        ≡ called idle (o >>= λ d. some (publish d))
  unfolding called rx_moves rx_move publish_move publish push_csr_shadow update_int_state
  received rxbuf len none = refl
  received rxbuf len (some d) = refl

  poll_moves_turn : (c : Card) → poll_moves 7 idle c ≡ called idle (poll_turn stack c)
  unfolding poll_turn poll_moves poll_move called
  poll_moves_turn c = elim (Bool-cases (has (rd64 ddr3_cmd_off c) 1)) [
    | inl e ↦ rw e (obeyed (obey_cmd stack (rd64 ddr3_cmd_off c) c))
    | inr e ↦ rw e (poll_moves-idle 6 c e)
  ]

  rx_moves-idle :
      (rxbuf : Array) (len n : ℕ) (c : Card)
      → ltb 0 len ≡ false
      → rx_moves rxbuf len n idle c ≡ some (idle, c)
  unfolding rx_moves rx_move
  rx_moves-idle rxbuf len zero c h = refl
  rx_moves-idle rxbuf len (suc n) c h = rw h (rx_moves-idle rxbuf len n c h)

  rx_moves_turn :
      (rxbuf : Array) (len : ℕ) (c : Card)
      → rx_moves rxbuf len 5 idle c ≡ called idle (rx_turn stack rxbuf len c)
  unfolding rx_turn rx_moves rx_move called
  rx_moves_turn rxbuf len c = elim (Bool-cases (ltb 0 len)) [
    | inl e ↦ rw e (received rxbuf len (gotfunc on_interrupt_cb stack rxbuf len c))
    | inr e ↦ rw e (rx_moves-idle rxbuf len 4 c e)
  ]

  -- Seven steps of the polling thread with nothing in between are its turn, and five steps of the
  -- receive thread are its turn, faults included; each thread is then where it began.
  pub moves_alone :
      (rxbuf : Array) (len : ℕ) (c : Card)
      → (poll_moves 7 idle c ≡ called idle (poll_turn stack c))
        × (rx_moves rxbuf len 5 idle c ≡ called idle (rx_turn stack rxbuf len c))
  moves_alone rxbuf len c = (poll_moves_turn c, rx_moves_turn rxbuf len c)
