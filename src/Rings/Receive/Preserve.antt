-- ===== src/Rings/Receive/Preserve.antt =====
-- What reception leaves alone: a property that reads of the card only what the rings do not write,
-- and CSR0 up to what they do to it, is kept by `gotfunc`.
use a.Base.{ℕ, zero, suc, ◌+◌, ◌-◌, ◌%◌, refl, arith, ltb, leb, if◌then◌else◌, Bool, true, false}
use a.Base.{
  OnSome, OnSome-none, OnSome-some, OnSome-bind, some, ◌>>=◌, Array, has, Bool-cases, inl, inr,
}
use a.Types.{max_packet_size, rx_own, mode_loop}
use a.Card.{Card}
use a.Registers.{registers_csr0_set, registers_csr0_clr, rethink}
use a.Registers.Survive.{Survives, csr0_set-Survives, csr0_clr-Survives, rethink-Survives}
use a.Mac.{mungepacket}
use a.Rings.Descriptor.{Descriptor, descriptor_off, read_descriptor, put_flags}
use a.Rings.Receive.{
  fill_buffer, no_buffer, rx_walk, rx_ready, rx_done, store_frame, gotfunc, Walked, copy_frame,
  accepts, append_crc,
}

module _ {P : Card → Type 0} (survives : Survives P) where
  no_buffer-Survives :
      (first : Bool) (off : ℕ) (md : Descriptor) (c : Card) → P c → P (no_buffer first off md c)
  unfolding no_buffer
  no_buffer-Survives true off md c h = survives.reads (registers_csr0_set 0x1000 c) _ _ _ _ _ _ _ (
      csr0_set-Survives survives 0x1000 c (unfold has in refl) (unfold has in refl)
        (unfold has in refl) (omega arith) h)
  no_buffer-Survives false off md c h =
      survives.reads (registers_csr0_clr 0x20 c) _ _ _ _ _ _ _
        (csr0_clr-Survives survives 0x20 c refl h)

  fill_buffer-Survives :
      (d : Array) (len insize : ℕ) (first : Bool) (i off : ℕ) (md : Descriptor) (c : Card)
      → P c
      → P (fill_buffer d len insize first i off md c)
  unfolding fill_buffer put_flags
  fill_buffer-Survives d len insize first i off md c h = survives.reads c _ _ _ _ _ _ _ h

  rx_walk-Survives :
      (d : Array) (len fuel insize : ℕ) (first : Bool) (c : Card)
      → P c
      → OnSome (λ w. P w.0) (rx_walk d len fuel insize first c)
  unfolding rx_walk
  rx_walk-Survives d len zero insize first c h = OnSome-none
  rx_walk-Survives d len (suc fuel) insize first c h =
      let i : ℕ = c.rdr_offset % c.am_rdr_rlen in
      let off : ℕ = descriptor_off c.am_rdr_rdra i in
      let md : Descriptor = read_descriptor c.boardram off in
      let here : Card = record c { rdr_offset = i } in
      let at_here : P here = survives.reads c _ _ _ _ _ _ _ h in
      let end : ℕ = insize + (65536 - md.md2) in
      let filled : P (fill_buffer d len insize first i off md here) =
        fill_buffer-Survives d len insize first i off md here at_here in
      elim (Bool-cases (has md.md1 rx_own)) [
        | inr e ↦ rw e (OnSome-some (no_buffer-Survives first off md here at_here))
        | inl e ↦ elim (Bool-cases (ltb max_packet_size end)) [
          | inl l ↦ rw (e, l) OnSome-none
          | inr l ↦ elim (Bool-cases (leb len end)) [
            | inl k ↦ rw (e, l, k) (OnSome-some filled)
            | inr k ↦
                rw (e, l, k)
                  (rx_walk-Survives d len fuel end false
                    (fill_buffer d len insize first i off md here) filled)
          ]
        ]
      ]

  module _ (on_interrupt : Card → Card) (reports : (c : Card) → P c → P (on_interrupt c)) where
    rx_done-Survives : (w : Walked) → P w.0 → P (rx_done on_interrupt w)
    unfolding rx_done
    rx_done-Survives (c, false) h = rethink-Survives survives on_interrupt reports c h
    rx_done-Survives (c, true) h =
        let d : Card = rethink on_interrupt (registers_csr0_set 0x400 c) in
        let told : P d =
          rethink-Survives survives on_interrupt reports (registers_csr0_set 0x400 c) (
            csr0_set-Survives survives 0x400 c (unfold has in refl) (unfold has in refl)
              (unfold has in refl) (omega arith) h) in
        elim (Bool-cases (has d.am_mode mode_loop)) [
          | inl e ↦ rw e (survives.reads d _ _ _ _ _ _ _ told)
          | inr e ↦ rw e told
        ]

    pub store_frame-Survives :
        (q : Array) (len : ℕ) (c : Card) → P c → OnSome P (store_frame on_interrupt q len c)
    unfolding store_frame
    store_frame-Survives q len c h = elim (Bool-cases (ltb max_packet_size (len + 4))) [
      | inl e ↦ rw e OnSome-none
      | inr e ↦ rw e (
          OnSome-bind (λ w. P w.0)
            (rx_walk-Survives (append_crc q len) (len + 4) (len + 5) 0 true c h)
            (λ w k. OnSome-some (rx_done-Survives w k)))
    ]

    filtered-Survives :
        (tmp : Array) (len : ℕ) (c : Card)
        → P c
        → OnSome P (
            mungepacket c.mac tmp len >>= λ r.
            if accepts c r.1 then store_frame on_interrupt r.1 len c else some c)
    filtered-Survives tmp len c h =
        OnSome-bind (λ r. Unit) {o = mungepacket c.mac tmp len}
          {f = λ r. if accepts c r.1 then store_frame on_interrupt r.1 len c else some c}
          (record { holds = λ r e. tt })
          (λ r k. elim (Bool-cases (accepts c r.1)) [
            | inl e ↦ rw e (store_frame-Survives r.1 len c h)
            | inr e ↦ rw e (OnSome-some h)
          ])

    pub gotfunc-Survives :
        (stack databuf : Array) (len : ℕ) (c : Card)
        → P c
        → OnSome P (gotfunc on_interrupt stack databuf len c)
    unfolding gotfunc
    gotfunc-Survives stack databuf len c h =
        let tmp : Array = copy_frame stack databuf len in
        elim (Bool-cases (rx_ready c len)) [
          | inr e ↦ rw e (OnSome-some h)
          | inl e ↦ elim (Bool-cases (ltb max_packet_size len)) [
            | inl l ↦ rw (e, l) OnSome-none
            | inr l ↦ elim (Bool-cases (has c.am_mode mode_loop)) [
              | inl k ↦ rw (e, l, k) (store_frame-Survives tmp len c h)
              | inr k ↦ rw (e, l, k) (filtered-Survives tmp len c h)
            ]
          ]
        ]
