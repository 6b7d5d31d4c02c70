-- ===== src/Rings/Transmit/Preserve.antt =====
-- What transmission leaves alone: a property that reads of the card only what the rings do not
-- write, and CSR0 up to what they do to it, is kept by `do_transmit`.
use a.Base.{
  ℕ, zero, suc, ◌+◌, ◌-◌, ◌%◌, refl, arith, ◌==◌, ltb, if◌then◌else◌, Bool, true, false, not, ◌&&◌,
  ◌||◌,
}
use a.Base.{
  OnSome, OnSome-none, OnSome-some, OnSome-bind, Option, none, some, ◌>>=◌, Array, bit_and, has,
  not16, Bool-cases, inl, inr,
}
use a.Types.{max_packet_size, tx_own, tx_enp, mode_loop, mode_coll, mode_dtcr, csr0_tint}
use a.Card.{Card}
use a.Registers.{registers_csr0_set, registers_csr0_clr}
use a.Registers.Survive.{Survives, csr0_set-Survives, csr0_clr-Survives, rethink-Survives}
use a.Mac.{mungepacket}
use a.Rings.Descriptor.{Descriptor, descriptor_off, read_descriptor, put_flags}
use a.Rings.Receive.{gotfunc}
use a.Rings.Transmit.{
  Gathered, not_owned, take_buffer, tx_gather, tx_fuel, tx_ready, tx_scan, dispatch, transmit_from,
  do_transmit, report_collision, report_underflow, send_frame, collides, taken_size, tx_size,
}
use a.Ethernet.{ethernet_send}
use a.Rings.Receive.Preserve.{gotfunc-Survives}

module _ {P : Card → Type 0} (survives : Survives P) where
  put_flags-Survives : (off md1 md3 : ℕ) (c : Card) → P c → P (put_flags off md1 md3 c)
  unfolding put_flags
  put_flags-Survives off md1 md3 c h = survives.reads c _ _ _ _ _ _ _ h

  take_buffer-Survives :
      (outsize i : ℕ) (md : Descriptor) (c : Card) → P c → P (take_buffer outsize i md c)
  unfolding take_buffer
  take_buffer-Survives outsize i md c h = survives.reads c _ _ _ _ _ _ _ h

  not_owned-Survives :
      (outsize off : ℕ) (md : Descriptor) (c : Card) → P c → P (not_owned outsize off md c).card
  unfolding not_owned
  not_owned-Survives outsize off md c h =
      put_flags-Survives off _ _ (registers_csr0_clr 0x10 c)
        (csr0_clr-Survives survives 0x10 c refl h)

  tx_gather-Survives :
      (fuel outsize : ℕ) (c : Card) → P c → OnSome (λ g. P g.card) (tx_gather fuel outsize c)
  unfolding tx_gather
  tx_gather-Survives zero outsize c h = OnSome-none
  tx_gather-Survives (suc fuel) outsize c h =
      let i : ℕ = c.tdr_offset % c.am_tdr_tlen in
      let off : ℕ = descriptor_off c.am_tdr_tdra i in
      let md : Descriptor = read_descriptor c.boardram off in
      let here : Card = record c { tdr_offset = i } in
      let at_here : P here = survives.reads c _ _ _ _ _ _ _ h in
      let tmd1 : ℕ = bit_and md.md1 (not16 tx_own) in
      let taken : Card = take_buffer outsize i md here in
      let at_taken : P taken = take_buffer-Survives outsize i md here at_here in
      let flagged : Card = put_flags off tmd1 md.md3 taken in
      elim (Bool-cases (has md.md1 tx_own)) [
        | inr e ↦ rw e (OnSome-some (not_owned-Survives outsize off md here at_here))
        | inl e ↦ elim (Bool-cases (ltb max_packet_size (outsize + tx_size md))) [
          | inl l ↦ rw (e, l) (OnSome-some (put_flags-Survives off tmd1 md.md3 here at_here))
          | inr l ↦ elim (Bool-cases (has md.md1 tx_enp)) [
            | inl k ↦ rw (e, l, k) (OnSome-some at_taken)
            | inr k ↦
                rw (e, l, k)
                  (tx_gather-Survives fuel (taken_size outsize md here) flagged
                    (put_flags-Survives off tmd1 md.md3 taken at_taken))
          ]
        ]
      ]

  ethernet_send-Survives :
      (frame : Array) (len : ℕ) (c : Card) → P c → P (ethernet_send frame len c)
  unfolding ethernet_send
  ethernet_send-Survives frame len c h = elim (Bool-cases (not c.sock_open || (len == 0))) [
    | inl e ↦ rw e h
    | inr e ↦ rw e (survives.reads c _ _ _ _ _ _ _ h)
  ]

  send_frame-Survives : (add_fcs : Bool) (g : Gathered) → P g.card → OnSome P (send_frame add_fcs g)
  unfolding send_frame
  send_frame-Survives add_fcs g h =
      let c : Card = put_flags g.off g.tmd1 g.tmd3 g.card in
      let len : ℕ = if has c.am_mode mode_dtcr && not add_fcs then g.outsize - 4 else g.outsize in
      OnSome-bind (λ r. Unit) {o = mungepacket c.mac c.transmitbuffer len}
        {f = λ r.
          some (ethernet_send r.1 len (record c { transmitbuffer = r.1; transmitlen = len }))}
        (record { holds = λ r e. tt })
        (λ r k. OnSome-some (
          ethernet_send-Survives r.1 len (record c { transmitbuffer = r.1; transmitlen = len })
            (survives.reads c _ _ _ _ _ _ _ (put_flags-Survives g.off g.tmd1 g.tmd3 g.card h))))

  report_collision-Survives : (g : Gathered) → P g.card → P (report_collision g)
  unfolding report_collision
  report_collision-Survives g h = put_flags-Survives g.off _ _ g.card h

  report_underflow-Survives : (g : Gathered) → P g.card → P (report_underflow g)
  unfolding report_underflow
  report_underflow-Survives g h =
      survives.reads (registers_csr0_clr 0x10 g.card) _ _ _ _ _ _ _
        (csr0_clr-Survives survives 0x10 g.card refl h)

  module _ (on_interrupt : Card → Card) (reports : (c : Card) → P c → P (on_interrupt c)) where
    looped-Survives :
        (stack : Array) (g : Gathered)
        → P g.card
        → OnSome P (
            if has g.card.am_mode mode_coll
            then some (report_collision g)
            else gotfunc on_interrupt stack g.card.transmitbuffer g.outsize
                (put_flags g.off g.tmd1 g.tmd3 g.card))
    looped-Survives stack g h = elim (Bool-cases (has g.card.am_mode mode_coll)) [
      | inl e ↦ rw e (OnSome-some (report_collision-Survives g h))
      | inr e ↦ rw e (
          gotfunc-Survives survives on_interrupt reports stack _ _ _
            (put_flags-Survives g.off g.tmd1 g.tmd3 g.card h))
    ]

    dispatch-Survives :
        (stack : Array) (add_fcs : Bool) (g : Gathered)
        → P g.card
        → OnSome P (dispatch on_interrupt stack add_fcs g)
    unfolding dispatch report_collision report_underflow collides send_frame
    dispatch-Survives stack add_fcs g h = elim (Bool-cases g.err) [
      | inl e ↦ rw e (OnSome-some h)
      | inr e ↦ elim (Bool-cases (has g.card.am_mode mode_loop)) [
        | inl l ↦ elim (Bool-cases (ltb g.outsize 60)) [
          | inl k ↦ rw (e, k, l) (looped-Survives stack g h)
          | inr k ↦ rw (e, k, l) (looped-Survives stack g h)
        ]
        | inr l ↦ elim (Bool-cases (ltb g.outsize 60)) [
          | inl k ↦ rw (e, k, l) (OnSome-some (report_underflow-Survives g h))
          | inr k ↦ elim (Bool-cases (collides g)) [
            | inl m ↦ rw (e, k, l, m) (OnSome-some (report_collision-Survives g h))
            | inr m ↦ rw (e, k, l, m) (send_frame-Survives add_fcs g h)
          ]
        ]
      ]
    ]

    transmit_from-Survives :
        (stack : Array) (i : ℕ) (c : Card) → P c → OnSome P (transmit_from on_interrupt stack i c)
    unfolding transmit_from
    transmit_from-Survives stack i c h =
        OnSome-bind (λ g. P g.card)
          (tx_gather-Survives tx_fuel 0 (record c { tdr_offset = i })
            (survives.reads c _ _ _ _ _ _ _ h))
          (λ g k. OnSome-bind P (dispatch-Survives stack _ g k) (λ d l. OnSome-some (
            rethink-Survives survives on_interrupt reports (registers_csr0_set csr0_tint d) (
              csr0_set-Survives survives csr0_tint d (unfold has in refl) (unfold has in refl)
                (unfold has in refl) (omega arith) l))))

    pub do_transmit-Survives :
        (stack : Array) (c : Card) → P c → OnSome (λ r. P r.1) (do_transmit on_interrupt stack c)
    unfolding do_transmit
    do_transmit-Survives stack c h = elim (Bool-cases (tx_ready c)) [
      | inr e ↦ rw e (OnSome-some h)
      | inl e ↦ rw e (found (tx_scan c))
    ]
      where
        found :
            (r : Option ℕ)
            → OnSome
                (λ (r : Bool × Card). P r.1)
                (elim r [
                  | none ↦ some (false, record c { tdr_offset = c.tdr_offset % c.am_tdr_tlen })
                  | some i ↦ transmit_from on_interrupt stack i c >>= λ d. some (true, d)
                ])
        found none = OnSome-some (survives.reads c _ _ _ _ _ _ _ h)
        found (some i) = OnSome-bind P (transmit_from-Survives stack i c h) (λ d k. OnSome-some k)
