-- ===== src/Rings/Transmit/Bytes.antt =====
-- Transmission keeps card memory and `transmitbuffer` bytes, whatever the descriptors say.
use a.Base.{ℕ, zero, suc, ◌+◌, ◌-◌, ◌%◌, ◌==◌, arith, ltb, not, Bool, true, false, ◌&&◌, ◌||◌}
use a.Base.{
  Option, none, some, ◌>>=◌, Array, bit_and, has, not16, OnSome, OnSome-none, OnSome-some,
  OnSome-bind, kept_if,
}
use a.Types.{max_packet_size, tx_own, tx_enp, mode_loop, mode_coll}
use a.Ram.{read_loop, ram_read_block}
use a.Ram.Bytes.{IsBytes, update-IsBytes, put_ram_word-IsBytes}
use a.Card.{Card}
use a.Ethernet.{ethernet_send}
use a.Mac.Bytes.{mungepacket-IsBytes}
use a.Registers.{registers_csr0_clr}
use a.Rings.Descriptor.{Descriptor, descriptor_off, read_descriptor, put_flags, buffer_addr}
use a.Rings.Memory.{
  Bytes, with_memory, csr0_set-Bytes, csr0_clr-Bytes, put_flags-Bytes, rethink-Bytes,
}
use a.Rings.Receive.Bytes.{gotfunc-Bytes}
use a.Rings.Transmit.{
  Gathered, not_owned, take_buffer, tx_gather, tx_fuel, tx_ready, tx_scan, tx_size, dispatch,
  transmit_from, do_transmit, report_collision, report_underflow, send_frame, collides, taken_size,
  pad_loop,
}

read_loop-IsBytes :
    (ram : Array) (off at i n : ℕ) (dst : Array)
    → IsBytes ram
    → IsBytes dst
    → IsBytes (read_loop ram off at i n dst)
unfolding read_loop
read_loop-IsBytes ram off at i zero dst b h = h
read_loop-IsBytes ram off at i (suc n) dst b h =
    read_loop-IsBytes ram off at (i + 1) n _ b (update-IsBytes dst (at + i) _ h (b _))

pad_loop-IsBytes : (n i : ℕ) (buf : Array) → IsBytes buf → IsBytes (pad_loop n i buf)
unfolding pad_loop
pad_loop-IsBytes zero i buf h = h
pad_loop-IsBytes (suc n) i buf h =
    pad_loop-IsBytes n (i + 1) _ (update-IsBytes buf i 0 h (omega arith))

take_buffer-Bytes :
    (outsize i : ℕ) (md : Descriptor) (c : Card) → Bytes c → Bytes (take_buffer outsize i md c)
unfolding take_buffer ram_read_block
take_buffer-Bytes outsize i md c h =
    let buf : Array =
      ram_read_block c.boardram (buffer_addr md) outsize (tx_size md) c.transmitbuffer in
    let full : ℕ = outsize + tx_size md in
    let bytes : IsBytes buf =
      read_loop-IsBytes c.boardram (buffer_addr md) outsize 0 (tx_size md) c.transmitbuffer h.ram
        h.buffer in
    with_memory c _ _ _ _ _ _ _ h.ram
      (kept_if IsBytes (has md.md1 tx_enp && ltb full 60 && not (has c.am_mode mode_loop))
        (pad_loop-IsBytes (60 - full) full buf bytes) bytes)
      h

not_owned-Bytes :
    (outsize off : ℕ) (md : Descriptor) (c : Card)
    → Bytes c
    → Bytes (not_owned outsize off md c).card
unfolding not_owned
not_owned-Bytes outsize off md c h =
    put_flags-Bytes off _ _ (registers_csr0_clr 0x10 c) (csr0_clr-Bytes 0x10 c h)

tx_gather-Bytes :
    (fuel outsize : ℕ) (c : Card) → Bytes c → OnSome (λ g. Bytes g.card) (tx_gather fuel outsize c)
unfolding tx_gather
tx_gather-Bytes zero outsize c h = OnSome-none
tx_gather-Bytes (suc fuel) outsize c h =
    let P : Option Gathered → Type 0 = OnSome (λ (g : Gathered). Bytes g.card) in
    let i : ℕ = c.tdr_offset % c.am_tdr_tlen in
    let off : ℕ = descriptor_off c.am_tdr_tdra i in
    let md : Descriptor = read_descriptor c.boardram off in
    let here : Card = record c { tdr_offset = i } in
    let at_here : Bytes here = with_memory c _ _ _ _ _ _ _ h.ram h.buffer h in
    let tmd1 : ℕ = bit_and md.md1 (not16 tx_own) in
    let taken : Card = take_buffer outsize i md here in
    let at_taken : Bytes taken = take_buffer-Bytes outsize i md here at_here in
    kept_if P (not (has md.md1 tx_own)) (OnSome-some (not_owned-Bytes outsize off md here at_here))
      (kept_if P (ltb max_packet_size (outsize + tx_size md))
        (OnSome-some (put_flags-Bytes off tmd1 md.md3 here at_here))
        (kept_if P (has md.md1 tx_enp) (OnSome-some at_taken) (
          tx_gather-Bytes fuel (taken_size outsize md here) (put_flags off tmd1 md.md3 taken)
            (put_flags-Bytes off tmd1 md.md3 taken at_taken))))

report_underflow-Bytes : (g : Gathered) → Bytes g.card → Bytes (report_underflow g)
unfolding report_underflow
report_underflow-Bytes g h =
    let k : Bytes (registers_csr0_clr 0x10 g.card) = csr0_clr-Bytes 0x10 g.card h in
    with_memory (registers_csr0_clr 0x10 g.card) _ _ _ _ _ _ _
      (put_ram_word-IsBytes _ (g.off + 2) _ (put_ram_word-IsBytes _ (g.off + 6) _ k.ram)) k.buffer k

report_collision-Bytes : (g : Gathered) → Bytes g.card → Bytes (report_collision g)
unfolding report_collision
report_collision-Bytes g h = put_flags-Bytes g.off _ _ g.card h

ethernet_send-Bytes :
    (frame : Array) (len : ℕ) (c : Card) → Bytes c → Bytes (ethernet_send frame len c)
unfolding ethernet_send
ethernet_send-Bytes frame len c h =
    kept_if Bytes (not c.sock_open || (len == 0)) h (with_memory c _ _ _ _ _ _ _ h.ram h.buffer h)

send_frame-Bytes :
    (add_fcs : Bool) (g : Gathered) → Bytes g.card → OnSome Bytes (send_frame add_fcs g)
unfolding send_frame
send_frame-Bytes add_fcs g h =
    let c : Card = put_flags g.off g.tmd1 g.tmd3 g.card in
    let k : Bytes c = put_flags-Bytes g.off g.tmd1 g.tmd3 g.card h in
    OnSome-bind (λ (r : ℕ × Array). IsBytes r.1)
      (mungepacket-IsBytes c.mac k.fake k.real c.transmitbuffer _ k.buffer)
      (λ r b. OnSome-some (ethernet_send-Bytes r.1 _ _ (with_memory c _ _ _ _ _ _ _ k.ram b k)))

module _ (on_interrupt : Card → Card) (reports : (c : Card) → Bytes c → Bytes (on_interrupt c))
    (stack : Array) (s : IsBytes stack) where
  dispatch-Bytes :
      (add_fcs : Bool) (g : Gathered)
      → Bytes g.card
      → OnSome Bytes (dispatch on_interrupt stack add_fcs g)
  unfolding dispatch
  dispatch-Bytes add_fcs g h =
      let P : Option Card → Type 0 = OnSome Bytes in
      let looped : Bool = has g.card.am_mode mode_loop in
      kept_if P g.err (OnSome-some h) (
        kept_if P (ltb g.outsize 60 && not looped) (OnSome-some (report_underflow-Bytes g h)) (
          kept_if P looped
            (kept_if P (has g.card.am_mode mode_coll) (OnSome-some (report_collision-Bytes g h)) (
              gotfunc-Bytes on_interrupt reports stack g.card.transmitbuffer g.outsize _ s h.buffer
                (put_flags-Bytes g.off g.tmd1 g.tmd3 g.card h)))
            (kept_if P (collides g) (OnSome-some (report_collision-Bytes g h))
              (send_frame-Bytes add_fcs g h))))

  transmit_from-Bytes :
      (i : ℕ) (c : Card) → Bytes c → OnSome Bytes (transmit_from on_interrupt stack i c)
  unfolding transmit_from
  transmit_from-Bytes i c h =
      OnSome-bind (λ (g : Gathered). Bytes g.card)
        (tx_gather-Bytes tx_fuel 0 _ (with_memory c _ _ _ _ _ _ _ h.ram h.buffer h))
        (λ g k.
          OnSome-bind Bytes (dispatch-Bytes _ g k)
            (λ d m. OnSome-some (rethink-Bytes on_interrupt reports _ (csr0_set-Bytes 0x200 d m))))

  found-Bytes :
      (o : Option ℕ) (c : Card)
      → Bytes c
      → OnSome
          (λ (r : Bool × Card). Bytes r.1)
          (elim o [
            | none ↦ some (false, record c { tdr_offset = c.tdr_offset % c.am_tdr_tlen })
            | some i ↦ transmit_from on_interrupt stack i c >>= λ d. some (true, d)
          ])
  found-Bytes none c h = OnSome-some (with_memory c _ _ _ _ _ _ _ h.ram h.buffer h)
  found-Bytes (some i) c h = OnSome-bind Bytes (transmit_from-Bytes i c h) (λ d k. OnSome-some k)

  -- Transmission keeps the memory bytes.
  pub do_transmit-Bytes :
      (c : Card)
      → Bytes c
      → OnSome (λ (r : Bool × Card). Bytes r.1) (do_transmit on_interrupt stack c)
  unfolding do_transmit
  do_transmit-Bytes c h =
      kept_if (OnSome (λ (r : Bool × Card). Bytes r.1)) (not (tx_ready c)) (OnSome-some h)
        (found-Bytes (tx_scan c) c h)
