-- ===== src/Mailbox/Deferred.antt =====
-- What becomes of a write that arm/src/main_ddr3.cpp defers while it waits for card memory.
use a.Base.{ℕ, ◌≤◌, ◌<◌, ◌≡◌, refl, arith, ap, ◌∙◌}
use a.Base.{Array, List, [], ◌∷◌, bit_and, bit_and_low, Option, some, ◌>>=◌}
use a.Card.{Card, csr0}
use a.Registers.{chip_wput}
use a.Registers.Access.{chip_wput_register}
use a.Doorbell.{wr64}
use a.Mailbox.{
  mbx_req_off, put, on_interrupt_cb, on_transmit_cb, req_result, respond, defer,
  service_bridge_safe, drain_loop,
}
use a.Mailbox.Queue.{pending, InRing, pending-defer}
use a.Mailbox.Queue.Drain.{pending-nil, advance, ease, obey_all, drain_loop_lem, drain_loop_empties}
use a.Mailbox.Service.{asked_write, asked_write_fields}

-- The FPGA posts `word` while the daemon waits for card memory, and it is served there.
unfoldable pub safe_exchange : Array → ℕ → Card → Option Card
safe_exchange stack word c = service_bridge_safe stack (wr64 mbx_req_off word c)

-- The card that has answered a write.
answered : ℕ → ℕ → Card → Card
answered addr v c = respond 0 (wr64 mbx_req_off (asked_write addr v) c)

answered_rest :
    (addr v : ℕ) (c : Card)
    → (pending (answered addr v c) ≡ pending c)
      × ((answered addr v c).csr ≡ c.csr)
      × ((answered addr v c).deferred_csr0_head ≡ c.deferred_csr0_head)
      × ((answered addr v c).deferred_csr0_tail ≡ c.deferred_csr0_tail)
unfolding answered respond pending
answered_rest addr v c = (refl, refl, refl, refl)

answered-InRing : (addr v : ℕ) (c : Card) → InRing c → InRing (answered addr v c)
answered-InRing addr v c r = record {
  head = omega (arith, (answered_rest addr v c).2, r.head);
  tail = omega (arith, (answered_rest addr v c).3, r.tail);
}

defer-InRing : (word : ℕ) (c : Card) → InRing c → InRing (defer word c)
unfolding defer
defer-InRing word c r = record { head = ground (arith, r.head); tail = ground (arith, r.tail) }

defer_rest : (word : ℕ) (c : Card) → (csr0 (defer word c) ≡ csr0 c) × ((defer word c).rap ≡ c.rap)
unfolding defer
defer_rest word c = (ground arith, ground arith)

module _ (stack : Array) where
  defers :
      (c : Card) (v : ℕ)
      → v < 0x10000
      → safe_exchange stack (asked_write 0 v) c ≡ some (defer v (answered 0 v c))
  unfolding safe_exchange service_bridge_safe req_result answered
  defers c v b = let f = asked_write_fields 0 v (omega arith) b in rw (f.0, f.1, f.2, f.3) refl

  selects :
      (c : Card) (r : ℕ)
      → r < 128
      → safe_exchange stack (asked_write 2 r) c ≡ some (record (answered 2 r c) { rap = r })
  unfolding safe_exchange service_bridge_safe req_result answered put chip_wput
  selects c r l =
      let f = asked_write_fields 2 r (omega arith) (omega arith) in
      let masked : bit_and r 127 ≡ r = bit_and_low 7 r ∙ omega arith in
      rw (f.0, f.1, f.2, f.3, masked) refl

  ease_rest : (c : Card) → (csr0 (ease c) ≡ csr0 c) × ((ease c).rap ≡ c.rap)
  unfolding ease
  ease_rest c = (ground arith, ground arith)

  -- The words go to a register above 0, which asks for no card memory.
  obey_all_register :
      (ws : List ℕ) (c : Card)
      → 1 ≤ c.rap
      → (d : Card) × (obey_all stack ws c ≡ some d) × (csr0 d ≡ csr0 c) × (d.rap ≡ c.rap)
  unfolding obey_all put
  obey_all_register [] c l = (c, refl, refl, refl)
  obey_all_register (w ∷ ws) c l =
      let x = chip_wput_register on_interrupt_cb (on_transmit_cb stack) (advance c) w l in
      let e = ease_rest x.0 in
      let rest = obey_all_register ws (ease x.0) (omega (arith, e.1, x.2.1, l)) in
      (
        rest.0,
        ap (λ o. o >>= λ d. obey_all stack ws (ease d)) x.1 ∙ rest.1,
        rest.2 ∙ e.0 ∙ x.2.0,
        rest.3 ∙ e.1 ∙ x.2.1,
      )

  -- With a register above 0 selected and both ends of the ring inside it, the loop over the ring
  -- of deferred writes ends within eight rounds and without a fault; what it leaves is what
  -- writing the pending words to the data port leaves, the oldest first and each once, nothing is
  -- pending then, and CSR0 and RAP are as they were.
  pub drain_register :
      (c : Card)
      → InRing c
      → 1 ≤ c.rap
      → (d : Card) × (drain_loop stack 8 c ≡ some d)
        × (obey_all stack (pending c) c ≡ some d)
        × (pending d ≡ [])
        × (csr0 d ≡ csr0 c)
        × (d.rap ≡ c.rap)
  drain_register c i l =
      let x = obey_all_register (pending c) c l in
      let drained : drain_loop stack 8 c ≡ some x.0 = drain_loop_lem stack c i ∙ x.1 in
      (x.0, drained, x.1, drain_loop_empties stack c x.0 i drained, x.2, x.3)

  -- A write of the data port and then a selection of a register r above 0, both served while the
  -- daemon waits for card memory with no deferred write pending and the ends of the ring inside
  -- it, leave r selected and CSR0 as it was once the queue is drained, also where CSR0 was
  -- selected when the word was written; nothing is pending then.
  pub deferred_redirected :
      (c : Card) (r v : ℕ)
      → InRing c
      → c.deferred_csr0_tail ≡ c.deferred_csr0_head
      → 1 ≤ r
      → r < 128
      → v < 0x10000
      → (d : Card) × ((safe_exchange stack (asked_write 0 v) c >>= λ x.
            safe_exchange stack (asked_write 2 r) x >>= λ y. drain_loop stack 8 y)
          ≡ some d)
        × (pending d ≡ [])
        × (csr0 d ≡ csr0 c)
        × (d.rap ≡ r)
  deferred_redirected c r v i e l u b =
      let x : Card = defer v (answered 0 v c) in
      let y : Card = record (answered 2 r x) { rap = r } in
      let at_answered : InRing (answered 0 v c) = answered-InRing 0 v c i in
      let none_yet : pending (answered 0 v c) ≡ [] =
        (answered_rest 0 v c).0 ∙ pending-nil c i (ground (arith, e)) in
      let one : pending x ≡ v ∷ [] =
        pending-defer v (answered 0 v c) at_answered ∙ rw none_yet refl in
      let same : pending y ≡ pending x = unfold pending answered respond in refl in
      let still : pending y ≡ v ∷ [] = same ∙ one in
      let at_x : InRing (answered 2 r x) =
        answered-InRing 2 r x (defer-InRing v (answered 0 v c) at_answered) in
      let at_y : InRing y = record { head = at_x.head; tail = at_x.tail } in
      let w = chip_wput_register on_interrupt_cb (on_transmit_cb stack) (advance y) v l in
      let obeyed : obey_all stack (v ∷ []) y ≡ some (ease w.0) =
        unfold obey_all put in ap (λ o. o >>= λ d. some (ease d)) w.1 in
      let drained : drain_loop stack 8 y ≡ some (ease w.0) =
        drain_loop_lem stack y at_y ∙ ap (λ ws. obey_all stack ws y) still ∙ obeyed in
      (
        ease w.0,
        ap (λ o. o >>= λ x. safe_exchange stack (asked_write 2 r) x >>= drain_loop stack 8)
              (defers c v b)
            ∙ ap (λ o. o >>= drain_loop stack 8) (selects x r u)
            ∙ drained,
        drain_loop_empties stack y (ease w.0) at_y drained,
        (ease_rest w.0).0
            ∙ w.2.0
            ∙ ap (λ (a : Array). a 0) (answered_rest 2 r x).1
            ∙ (defer_rest v (answered 0 v c)).0
            ∙ ap (λ (a : Array). a 0) (answered_rest 0 v c).1,
        (ease_rest w.0).1 ∙ w.2.1,
      )
