-- ===== src/Mailbox/Queue/Drain.antt =====
-- The loop of arm/src/main_ddr3.cpp over the ring of deferred writes, as a program over the queue.
use a.Base.{
  ℕ, zero, suc, ◌+◌, ◌-◌, ◌%◌, ◌<◌, ◌≡◌, refl, arith, ap, sym, ◌∙◌, ◌==◌, ltb, if◌then◌else◌, true,
  false, not, ◌&&◌,
}
use a.Base.{
  Array, List, [], ◌∷◌, length, has, Option, none, some, ◌>>=◌, OnSome, OnSome-some, OnSome-bind,
  kept_if, Bool-cases, inl, inr,
}
use a.Types.{csr0_intr}
use a.Card.{Card, csr0}
use a.Registers.Ignore.{Ignores, Ignores-Survives, chip_wput-Ignores}
use a.Rings.Transmit.Preserve.{do_transmit-Survives}
use a.Mailbox.{
  schedule_tdmd_retry, assert_mbx_int, on_interrupt_cb, on_transmit_cb, put, drain_one, drain_loop,
}
use a.Mailbox.Queue.{queued, pending, InRing, length-pending}

-- The queue as the loop sees it once the oldest word is taken.
abbrev pub advance : Card → Card
advance c = record c { deferred_csr0_tail = (c.deferred_csr0_tail + 1) % 8 }

-- A cleared interrupt ends the hold at the next turn.
unfoldable pub ease : Card → Card
ease c = if not (has (csr0 c) csr0_intr) && ltb 0 c.int_hold then record c { int_hold = 1 } else c

-- The words are written to the selected register one after the other.
unfoldable pub obey_all : Array → List ℕ → Card → Option Card
unfolding ease
obey_all stack [] c = some c
obey_all stack (w ∷ ws) c = put stack 0 w (advance c) >>= λ d. obey_all stack ws (ease d)

-- The ring of `c` is that of `d`.
record SameRing (c d : Card) : Type 0 where
  queue : d.deferred_csr0_queue ≡ c.deferred_csr0_queue
  head : d.deferred_csr0_head ≡ c.deferred_csr0_head
  tail : d.deferred_csr0_tail ≡ c.deferred_csr0_tail

SameRing-Ignores : (c : Card) → Ignores (SameRing c)
SameRing-Ignores c = record {
  chip =
      λ d csr fakemac ram buf rap mode ladrf rlen rdra tlen tdra len tdr rdr iter init mac frames h.
        record { queue = h.queue; head = h.head; tail = h.tail };
}

SameRing-eq-pending : {c d : Card} → SameRing c d → pending d ≡ pending c
unfolding pending
SameRing-eq-pending h = rw (h.queue, h.head, h.tail) refl

module _ (c : Card) where
  on_interrupt_cb-SameRing : (d : Card) → SameRing c d → SameRing c (on_interrupt_cb d)
  unfolding on_interrupt_cb assert_mbx_int
  on_interrupt_cb-SameRing d h = record { queue = h.queue; head = h.head; tail = h.tail }

  scheduled-SameRing : (d : Card) → SameRing c d → SameRing c (schedule_tdmd_retry d)
  unfolding schedule_tdmd_retry
  scheduled-SameRing d h =
      kept_if (SameRing c) (ltb d.tdmd_retry 16)
        (record { queue = h.queue; head = h.head; tail = h.tail }) h

  ease-SameRing : (d : Card) → SameRing c d → SameRing c (ease d)
  unfolding ease
  ease-SameRing d h =
      kept_if (SameRing c) (not (has (csr0 d) csr0_intr) && ltb 0 d.int_hold)
        (record { queue = h.queue; head = h.head; tail = h.tail }) h

  on_transmit_cb-SameRing :
      (stack : Array) (d : Card) → SameRing c d → OnSome (SameRing c) (on_transmit_cb stack d)
  unfolding on_transmit_cb
  on_transmit_cb-SameRing stack d h =
      OnSome-bind (λ r. SameRing c r.1)
        (do_transmit-Survives (Ignores-Survives (SameRing-Ignores c)) on_interrupt_cb
          on_interrupt_cb-SameRing stack d h)
        (λ r k. OnSome-some (kept_if (SameRing c) (not r.0) (scheduled-SameRing r.1 k) k))

  put-SameRing :
      (stack : Array) (addr word : ℕ) (d : Card)
      → SameRing c d
      → OnSome (SameRing c) (put stack addr word d)
  unfolding put
  put-SameRing stack =
      chip_wput-Ignores (SameRing-Ignores c) on_interrupt_cb (on_transmit_cb stack)
        on_interrupt_cb-SameRing (on_transmit_cb-SameRing stack)

SameRing-refl : (c : Card) → SameRing c c
SameRing-refl c = record { queue = refl; head = refl; tail = refl }

SameRing-InRing : {c d : Card} → SameRing c d → InRing c → InRing d
SameRing-InRing h r = record {
  head = omega (arith, h.head, r.head);
  tail = omega (arith, h.tail, r.tail);
}

-- A chain goes on alike after results of which `P` holds.
bind_eq :
    {A B : Type 0} (P : A → Type 0) (o : Option A) (f g : A → Option B)
    → OnSome P o
    → ((a : A) → P a → f a ≡ g a)
    → (o >>= f) ≡ (o >>= g)
bind_eq P none f g h k = refl
bind_eq P (some a) f g h k = k a (h.holds a refl)

bind_assoc :
    {A B C : Type 0} (o : Option A) (f : A → B) (g : B → Option C)
    → ((o >>= λ a. some (f a)) >>= g) ≡ (o >>= λ a. g (f a))
bind_assoc none f g = refl
bind_assoc (some a) f g = refl

-- The oldest word, where the ring is not empty.
pending-cons :
    (c : Card)
    → InRing c
    → (c.deferred_csr0_tail == c.deferred_csr0_head) ≡ false
    → pending c ≡ c.deferred_csr0_queue c.deferred_csr0_tail ∷ pending (advance c)
unfolding pending queued
pending-cons c r e =
    let q : Array = c.deferred_csr0_queue in
    let n : ℕ = (c.deferred_csr0_head + (8 - (c.deferred_csr0_tail + 1) % 8)) % 8 in
    ap (queued q c.deferred_csr0_tail) {y = suc n} (ground (arith, r.head, r.tail))

pub pending-nil :
    (c : Card) → InRing c → (c.deferred_csr0_tail == c.deferred_csr0_head) ≡ true → pending c ≡ []
unfolding pending queued
pending-nil c r e =
    ap (queued c.deferred_csr0_queue c.deferred_csr0_tail) {y = 0} (ground (arith, r.head, r.tail))

module _ (stack : Array) where
  drain_loop_obeys :
      (n : ℕ) (c : Card)
      → InRing c
      → length (pending c) < n
      → drain_loop stack n c ≡ obey_all stack (pending c) c
  unfolding drain_loop obey_all drain_one ease
  drain_loop_obeys zero c r l = absurd (omega arith)
  drain_loop_obeys (suc n) c r l =
      elim (Bool-cases (c.deferred_csr0_tail == c.deferred_csr0_head)) [
        | inl e ↦ rw (e, pending-nil c r e) refl
        | inr e ↦
            let w : ℕ = c.deferred_csr0_queue c.deferred_csr0_tail in
            let short : length (pending (advance c)) < n =
              omega (arith, ap length (pending-cons c r e)) in
            let inside : InRing (advance c) = record { head = r.head; tail = omega arith } in
            rw (e, pending-cons c r e)
              (bind_assoc (put stack 0 w (advance c)) ease (drain_loop stack n)
                ∙ bind_eq (SameRing (advance c)) (put stack 0 w (advance c)) _ _
                    (put-SameRing (advance c) stack 0 w (advance c) (SameRing-refl (advance c)))
                    (λ d h.
                      let k : SameRing (advance c) (ease d) = ease-SameRing (advance c) d h in
                      let same : pending (ease d) ≡ pending (advance c) = SameRing-eq-pending k in
                      drain_loop_obeys n (ease d) (SameRing-InRing k inside)
                        (omega (arith, ap length same, short))
                      ∙ ap (λ l. obey_all stack l (ease d)) same))
      ]

  -- Where card memory is at hand, so that no word is deferred meanwhile, the loop over the ring of
  -- deferred writes is the program that writes the pending words, the oldest first and each once, to
  -- the selected register, faults included, if both ends of the ring are inside it.
  pub drain_loop_lem : (c : Card) → InRing c → drain_loop stack 8 c ≡ obey_all stack (pending c) c
  drain_loop_lem c r = drain_loop_obeys 8 c r (omega (arith, length-pending c))

  obey_all_empties :
      (ws : List ℕ) (c : Card)
      → InRing c
      → pending c ≡ ws
      → OnSome (λ d. pending d ≡ []) (obey_all stack ws c)
  unfolding obey_all
  obey_all_empties [] c r e = OnSome-some e
  obey_all_empties (w ∷ ws) c r e =
      elim (Bool-cases (c.deferred_csr0_tail == c.deferred_csr0_head)) [
        | inl k ↦ absurd (omega (ap length (sym e ∙ pending-nil c r k), arith))
        | inr k ↦
            let rest : pending (advance c) ≡ ws = (let cons = pending-cons c r k in cc) in
            let inside : InRing (advance c) = record { head = r.head; tail = omega arith } in
            OnSome-bind (SameRing (advance c))
              (put-SameRing (advance c) stack 0 w (advance c) (SameRing-refl (advance c)))
              (λ d h.
                let k : SameRing (advance c) (ease d) = ease-SameRing (advance c) d h in
                obey_all_empties ws (ease d) (SameRing-InRing k inside)
                  (SameRing-eq-pending k ∙ rest))
      ]

  -- When the loop ends without a fault nothing is pending, where both ends of the ring are inside it.
  pub drain_loop_empties : (c d : Card) → InRing c → drain_loop stack 8 c ≡ some d → pending d ≡ []
  drain_loop_empties c d r e =
      (obey_all_empties (pending c) c r refl).holds d (sym (drain_loop_lem c r) ∙ e)
