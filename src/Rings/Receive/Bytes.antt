-- ===== src/Rings/Receive/Bytes.antt =====
-- A frame of bytes leaves bytes in card memory, whatever `gotfunc` of arm/src/rings.cpp does with it.
use a.Base.{
  ℕ, zero, suc, ◌+◌, ◌-◌, ◌%◌, arith, ltb, leb, not, if◌then◌else◌, Bool, true, false, Option,
  Array, has, OnSome, OnSome-none, OnSome-some, OnSome-bind, kept_if,
}
use a.Types.{rx_own, max_packet_size, mode_loop}
use a.Ram.Bytes.{IsBytes, put_ram_word-IsBytes, ram_write_block-IsBytes}
use a.Card.{Card}
use a.Mac.Bytes.{mungepacket-IsBytes}
use a.Registers.{registers_csr0_set, registers_csr0_clr, rethink}
use a.Rings.Descriptor.{Descriptor, descriptor_off, read_descriptor}
use a.Rings.Memory.{
  Bytes, with_memory, csr0_set-Bytes, csr0_clr-Bytes, put_flags-Bytes, rethink-Bytes,
}
use a.Rings.Receive.{
  fill_buffer, no_buffer, rx_walk, rx_ready, rx_done, store_frame, gotfunc, Walked, copy_frame,
  accepts, append_crc,
}

pub append_crc-IsBytes : (d : Array) (len : ℕ) → IsBytes d → IsBytes (append_crc d len)
unfolding append_crc
append_crc-IsBytes d len h j = ground (arith, h j)

copy_frame-IsBytes :
    (stack databuf : Array) (len : ℕ)
    → IsBytes stack
    → IsBytes databuf
    → IsBytes (copy_frame stack databuf len)
unfolding copy_frame
copy_frame-IsBytes stack databuf len s h i = ground (arith, s i, h i)

no_buffer-Bytes :
    (first : Bool) (off : ℕ) (md : Descriptor) (c : Card)
    → Bytes c
    → Bytes (no_buffer first off md c)
unfolding no_buffer
no_buffer-Bytes first off md c h =
    let d : Card = if first then registers_csr0_set 0x1000 c else registers_csr0_clr 0x20 c in
    let k : Bytes d = kept_if Bytes first (csr0_set-Bytes 0x1000 c h) (csr0_clr-Bytes 0x20 c h) in
    with_memory d _ _ _ _ _ _ _ (put_ram_word-IsBytes d.boardram (off + 2) _ k.ram) k.buffer k

fill_buffer-Bytes :
    (d : Array) (len insize : ℕ) (first : Bool) (i off : ℕ) (md : Descriptor) (c : Card)
    → IsBytes d
    → Bytes c
    → Bytes (fill_buffer d len insize first i off md c)
unfolding fill_buffer
fill_buffer-Bytes d len insize first i off md c b h = put_flags-Bytes off _ _ _ (
    with_memory c _ _ _ _ _ _ _ (ram_write_block-IsBytes d _ insize _ c.boardram b h.ram) h.buffer
      h)

rx_walk-Bytes :
    (d : Array) (len fuel insize : ℕ) (first : Bool) (c : Card)
    → IsBytes d
    → Bytes c
    → OnSome (λ (w : Walked). Bytes w.0) (rx_walk d len fuel insize first c)
unfolding rx_walk
rx_walk-Bytes d len zero insize first c b h = OnSome-none
rx_walk-Bytes d len (suc fuel) insize first c b h =
    let P : Option Walked → Type 0 = OnSome (λ (w : Walked). Bytes w.0) in
    let i : ℕ = c.rdr_offset % c.am_rdr_rlen in
    let off : ℕ = descriptor_off c.am_rdr_rdra i in
    let md : Descriptor = read_descriptor c.boardram off in
    let here : Card = record c { rdr_offset = i } in
    let at_here : Bytes here = with_memory c _ _ _ _ _ _ _ h.ram h.buffer h in
    let end : ℕ = insize + (65536 - md.md2) in
    let filled : Bytes (fill_buffer d len insize first i off md here) =
      fill_buffer-Bytes d len insize first i off md here b at_here in
    kept_if P (not (has md.md1 rx_own)) (OnSome-some (no_buffer-Bytes first off md here at_here)) (
      kept_if P (ltb max_packet_size end) OnSome-none (
        kept_if P (leb len end) (OnSome-some filled) (
          rx_walk-Bytes d len fuel end false (fill_buffer d len insize first i off md here) b
            filled)))

module _ (on_interrupt : Card → Card)
    (reports : (c : Card) → Bytes c → Bytes (on_interrupt c)) where
  rx_done-Bytes : (w : Walked) → Bytes w.0 → Bytes (rx_done on_interrupt w)
  unfolding rx_done
  rx_done-Bytes (c, false) h = rethink-Bytes on_interrupt reports c h
  rx_done-Bytes (c, true) h =
      let d : Card = rethink on_interrupt (registers_csr0_set 0x400 c) in
      let told : Bytes d = rethink-Bytes on_interrupt reports _ (csr0_set-Bytes 0x400 c h) in
      kept_if Bytes (has d.am_mode mode_loop)
        (with_memory d _ _ _ _ _ _ _ told.ram told.buffer told) told

  store_frame-Bytes :
      (q : Array) (len : ℕ) (c : Card)
      → IsBytes q
      → Bytes c
      → OnSome Bytes (store_frame on_interrupt q len c)
  unfolding store_frame
  store_frame-Bytes q len c b h =
      kept_if (OnSome Bytes) (ltb max_packet_size (len + 4)) OnSome-none (
        OnSome-bind (λ (w : Walked). Bytes w.0)
          (rx_walk-Bytes (append_crc q len) (len + 4) (len + 5) 0 true c
            (append_crc-IsBytes q len b) h)
          (λ w k. OnSome-some (rx_done-Bytes w k)))

  -- Reception of a frame of bytes keeps the memory bytes.
  pub gotfunc-Bytes :
      (stack databuf : Array) (len : ℕ) (c : Card)
      → IsBytes stack
      → IsBytes databuf
      → Bytes c
      → OnSome Bytes (gotfunc on_interrupt stack databuf len c)
  unfolding gotfunc
  gotfunc-Bytes stack databuf len c s b h =
      let tmp : Array = copy_frame stack databuf len in
      let bytes : IsBytes tmp = copy_frame-IsBytes stack databuf len s b in
      kept_if (OnSome Bytes) (not (rx_ready c len)) (OnSome-some h) (
        kept_if (OnSome Bytes) (ltb max_packet_size len) OnSome-none (
          kept_if (OnSome Bytes) (has c.am_mode mode_loop) (store_frame-Bytes tmp len c bytes h) (
            OnSome-bind (λ (r : ℕ × Array). IsBytes r.1)
              (mungepacket-IsBytes c.mac h.fake h.real tmp len bytes)
              (λ r k.
                kept_if (OnSome Bytes) (accepts c r.1) (store_frame-Bytes r.1 len c k h)
                  (OnSome-some h)))))
