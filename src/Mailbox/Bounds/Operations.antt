-- ===== src/Mailbox/Bounds/Operations.antt =====
-- The operations of arm/src/main_ddr3.cpp keep its invariant.
use a.Base.{ℕ, ◌+◌, ◌-◌, ◌%◌, ◌≤◌, ◌<◌, ◌≡◌, refl, arith, ◌==◌, ltb, leb, if◌then◌else◌, true, not}
use a.Base.{
  Array, Option, none, some, OnSome, OnSome-some, OnSome-bind, kept_if, Bool-cases, inl, inr,
}
use a.Card.{Card, csr0}
use a.Registers.Ignore.{Ignores-Survives, chip_wput-Ignores}
use a.Registers.WellFormed.{WellFormed, WellFormed-Survives, chip_wput-WellFormed}
use a.Rings.Receive.Preserve.{gotfunc-Survives}
use a.Rings.Transmit.{do_transmit}
use a.Rings.Transmit.Preserve.{do_transmit-Survives}
use a.Doorbell.{wr64, int_line}
use a.Mailbox.{
  mbx_int_off, schedule_tdmd_retry, on_interrupt_cb, on_transmit_cb, write_mbx_int, rx_turn, put,
  defer, refresh, hold,
}
use a.Mailbox.Bounds.{
  Told, Bounded, Sound, Sound-Survives, Bounded-Ignores, beside-WellFormed,
  assert_mbx_int-WellFormed, assert_mbx_int-Bounded, assert_mbx_int-Sound, int_hold-Sound,
  int_refresh-Sound, written-Sound,
}

int_line-le : (v : ℕ) → int_line v ≤ 1
unfolding int_line
int_line-le v = ground arith

write_mbx_int-Sound : (c : Card) → Sound c → Sound (write_mbx_int c)
unfolding write_mbx_int
write_mbx_int-Sound c h = by_last c.last_mbx_int
  where
    told : Card
    told = record (wr64 mbx_int_off (int_line (csr0 c)) c) {
      last_mbx_int = some (int_line (csr0 c));
    }

    at_told : Sound told
    at_told = written-Sound c (int_line (csr0 c)) (int_line-le (csr0 c)) h

    by_last :
        (o : Option ℕ)
        → Sound (elim o [ none ↦ told | some last ↦ if int_line (csr0 c) == last then c else told ])
    by_last none = at_told
    by_last (some last) = kept_if Sound (int_line (csr0 c) == last) h at_told

pub hold-Sound : (c : Card) → Sound c → Sound (hold c)
unfolding hold
hold-Sound c h =
    kept_if Sound (ltb 0 c.int_hold)
      (int_hold-Sound c (c.int_hold - 1) (omega (arith, h.bounded.held)) h)
      (write_mbx_int-Sound c h)

repeat-Told :
    (c : Card) (last : ℕ) → c.last_mbx_int ≡ some last → (last == 1) ≡ true → Told c.last_mbx_int 1
unfolding Told
repeat-Told c last e k = rw e (ground arith, ground arith)

repeat-Sound :
    (c : Card) (last : ℕ)
    → c.last_mbx_int ≡ some last
    → (last == 1) ≡ true
    → Sound c
    → Sound (record (wr64 mbx_int_off 1 c) { int_refresh = 0 })
repeat-Sound c last e k h = record {
  formed = beside-WellFormed c _ _ _ _ _ _ _ _ h.formed;
  bounded = record {
    retry = h.bounded.retry;
    held = h.bounded.held;
    refreshed = omega arith;
    head = h.bounded.head;
    tail = h.bounded.tail;
    words = h.bounded.words;
    told = repeat-Told c last e k;
  };
}

pub refresh-Sound : (c : Card) → Sound c → Sound (refresh c)
unfolding refresh
refresh-Sound c h = by_last c.last_mbx_int refl
  where
    reset : Sound (record c { int_refresh = 0 })
    reset = int_refresh-Sound c 0 (omega arith) h

    counted :
        (last : ℕ)
        → c.last_mbx_int ≡ some last
        → (last == 1) ≡ true
        → Sound (
            if leb 10 (c.int_refresh + 1)
            then record (wr64 mbx_int_off 1 c) { int_refresh = 0 }
            else record c { int_refresh = c.int_refresh + 1 })
    counted last e k = elim (Bool-cases (leb 10 (c.int_refresh + 1))) [
      | inl l ↦ rw l (repeat-Sound c last e k h)
      | inr l ↦ rw l (int_refresh-Sound c (c.int_refresh + 1) (ground arith) h)
    ]

    by_last :
        (o : Option ℕ)
        → c.last_mbx_int ≡ o
        → Sound (elim o [
          | none ↦ record c { int_refresh = 0 }
          | some last ↦
              if last == 1
              then (if leb 10 (c.int_refresh + 1)
                  then record (wr64 mbx_int_off 1 c) { int_refresh = 0 }
                  else record c { int_refresh = c.int_refresh + 1 })
              else record c { int_refresh = 0 }
        ])
    by_last none e = reset
    by_last (some last) e = elim (Bool-cases (last == 1)) [
      | inl k ↦ rw k (counted last e k)
      | inr k ↦ rw k reset
    ]

pub defer-Sound : (word : ℕ) (c : Card) → word < 0x10000 → Sound c → Sound (defer word c)
unfolding defer
defer-Sound word c l h =
    kept_if Sound (not ((c.deferred_csr0_head + 1) % 8 == c.deferred_csr0_tail))
      (record {
        formed = beside-WellFormed c _ _ _ _ _ _ _ _ h.formed;
        bounded = record {
          retry = h.bounded.retry;
          held = h.bounded.held;
          refreshed = h.bounded.refreshed;
          head = omega arith;
          tail = h.bounded.tail;
          words = λ i. ground (arith, h.bounded.words i);
          told = h.bounded.told;
        };
      })
      h

module _ (stack : Array) where
  on_interrupt_cb-Sound : (c : Card) → Sound c → Sound (on_interrupt_cb c)
  unfolding on_interrupt_cb
  on_interrupt_cb-Sound c h = assert_mbx_int-Sound c h

  pub do_transmit-Sound :
      (c : Card) → Sound c → OnSome (λ r. Sound r.1) (do_transmit on_interrupt_cb stack c)
  do_transmit-Sound c h =
      do_transmit-Survives Sound-Survives on_interrupt_cb on_interrupt_cb-Sound stack c h

  pub rx_turn-Sound :
      (rxbuf : Array) (len : ℕ) (c : Card) → Sound c → OnSome Sound (rx_turn stack rxbuf len c)
  unfolding rx_turn
  rx_turn-Sound rxbuf len c h =
      kept_if (OnSome Sound) (ltb 0 len)
        (gotfunc-Survives Sound-Survives on_interrupt_cb on_interrupt_cb-Sound stack rxbuf len c h)
        (OnSome-some h)

  on_transmit_cb-WellFormed : (c : Card) → WellFormed c → OnSome WellFormed (on_transmit_cb stack c)
  unfolding on_transmit_cb schedule_tdmd_retry
  on_transmit_cb-WellFormed c h =
      OnSome-bind (λ r. WellFormed r.1)
        (do_transmit-Survives WellFormed-Survives on_interrupt_cb
          (unfold on_interrupt_cb in assert_mbx_int-WellFormed) stack c h)
        (λ r k. OnSome-some (
          kept_if WellFormed (not r.0)
            (kept_if WellFormed (ltb r.1.tdmd_retry 16) (beside-WellFormed r.1 _ _ _ _ _ _ _ _ k) k)
            k))

  on_transmit_cb-Bounded : (c : Card) → Bounded c → OnSome Bounded (on_transmit_cb stack c)
  unfolding on_transmit_cb schedule_tdmd_retry
  on_transmit_cb-Bounded c h =
      OnSome-bind (λ r. Bounded r.1)
        (do_transmit-Survives (Ignores-Survives Bounded-Ignores) on_interrupt_cb
          (unfold on_interrupt_cb in assert_mbx_int-Bounded) stack c h)
        (λ r k. OnSome-some (
          kept_if Bounded (not r.0)
            (kept_if Bounded (ltb r.1.tdmd_retry 16)
              (record {
                retry = omega arith;
                held = k.held;
                refreshed = k.refreshed;
                head = k.head;
                tail = k.tail;
                words = k.words;
                told = k.told;
              })
              k)
            k))

  pub put-Sound :
      (addr word : ℕ) (c : Card) → word < 0x10000 → Sound c → OnSome Sound (put stack addr word c)
  unfolding put
  put-Sound addr word c l h = record {
    holds = λ d e. record {
      formed =
          (chip_wput-WellFormed on_interrupt_cb (on_transmit_cb stack)
              (unfold on_interrupt_cb in assert_mbx_int-WellFormed) on_transmit_cb-WellFormed addr
              word c l h.formed).holds
            d e;
      bounded =
          (chip_wput-Ignores Bounded-Ignores on_interrupt_cb (on_transmit_cb stack)
              (unfold on_interrupt_cb in assert_mbx_int-Bounded) on_transmit_cb-Bounded addr word c
              h.bounded).holds
            d e;
    };
  }
