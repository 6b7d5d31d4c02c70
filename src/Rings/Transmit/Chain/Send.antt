-- ===== src/Rings/Transmit/Chain/Send.antt =====
-- A frame in several transmit buffers, from the descriptors to the socket.
use a.Base.{ℕ, ◌+◌, ◌*◌, ◌≤◌, ◌<◌, ◌≡◌, refl, arith, ◌==◌, ltb, leb, Bool, true, false, ap, ◌∙◌}
use a.Base.{some, Array, List, [], ◌∷◌, slice, length, has, memcmp_eq}
use native.Mathlib.Nat.{mod-eq_of_lt}
use mathlib.Core.Path.{subst}
use a.Types.{tx_add_fcs}
use a.Mac.{mungepacket}
use a.Ethernet.{ethernet_send}
use a.Ram.Bytes.{IsBytes, get_ram_word-lt}
use a.Card.{Card}
use a.Registers.{registers_csr0_set, rethink}
use a.Rings.Descriptor.{Descriptor, descriptor_off, read_descriptor, put_flags}
use a.Rings.Transmit.{
  Gathered, tx_fuel, tx_ready, tx_scan, tmd1_at, collides, send_frame, dispatch, transmit_from,
  do_transmit,
}
use a.Rings.Transmit.Chain.{IsChain, last, next, chain_buffer, size_of, total}
use a.Rings.Transmit.Chain.Gather.{gather_chain, Released}

module _ (e : Card) (outsize off tmd1 tmd3 : ℕ) where
  abbrev at_end : Gathered
  at_end = record { card = e; outsize = outsize; off = off; tmd1 = tmd1; tmd3 = tmd3; err = false }

  -- The card when the frame has been handed over.
  abbrev left : Array → Card
  left q = record (put_flags off tmd1 tmd3 e) {
    transmitbuffer = q;
    transmitlen = outsize;
    sent = slice q 0 outsize ∷ e.sent;
  }

  dispatch_sends :
      (stack q : Array) (n : ℕ) (add_fcs : Bool) (on_interrupt : Card → Card)
      → 60 ≤ outsize
      → has e.am_mode 4 ≡ false
      → has e.am_mode 0x10 ≡ false
      → has e.am_mode 8 ≡ false
      → memcmp_eq (slice e.transmitbuffer 0 6) (slice e.fakemac 0 6) ≡ false
      → e.sock_open ≡ true
      → mungepacket e.mac e.transmitbuffer outsize ≡ some (n, q)
      → dispatch on_interrupt stack add_fcs at_end ≡ some (left q)
  unfolding dispatch send_frame collides ethernet_send put_flags
  dispatch_sends stack q n add_fcs on_interrupt l loop coll dtcr other open_ munged =
      let full : ltb outsize 60 ≡ false = ground (arith, l) in
      let some_bytes : (outsize == 0) ≡ false = ground (arith, l) in
      let six : leb 6 outsize ≡ true = ground (arith, l) in
      rw (loop, full, coll, six, other, dtcr, munged, open_, some_bytes) refl

size_of-pos : (ram : Array) (off : ℕ) → IsBytes ram → 1 ≤ size_of (read_descriptor ram off)
unfolding read_descriptor
size_of-pos ram off h = omega (arith, get_ram_word-lt ram (off + 4) h)

-- A chain has at most as many descriptors as bytes, and its bytes fit `transmitbuffer`.
chain_sizes :
    (ps : List Descriptor) {base len : ℕ} {ram : Array} {i out : ℕ}
    → IsBytes ram
    → IsChain base len ram i out ps
    → (length ps ≤ total ps) × (out + total ps ≤ 4096) × (60 ≤ out + total ps) × (i < len)
chain_sizes [] b chain = elim chain [ ]
chain_sizes (md ∷ []) {base} {ram} {i} b (last own e l) =
    let pos : 1 ≤ size_of md =
      subst (λ (m : Descriptor). 1 ≤ size_of m) own.reads
        (size_of-pos ram (descriptor_off base i) b) in
    (omega arith, omega (arith, own.room), omega arith, own.inside)
chain_sizes (md ∷ ps) {base} {ram} {i} b (next own e d chain) =
    let pos : 1 ≤ size_of md =
      subst (λ (m : Descriptor). 1 ≤ size_of m) own.reads
        (size_of-pos ram (descriptor_off base i) b) in
    let rest = chain_sizes ps b chain in
    (omega (arith, rest.0), omega (arith, rest.1), omega (arith, rest.2), own.inside)

-- A frame in the buffers of a chain of owned descriptors, of which the last alone is ended, goes
-- to the open socket in the translation of the buffers as card memory has them, one behind the
-- other, once, every descriptor is handed back with OWN clear, and TINT is reported: if the chain
-- begins where the search finds it, what is read of its descriptors and buffers is nothing that
-- handing back an earlier descriptor writes, its bytes are 60 to 4096, it is not to the card
-- itself, it is translated without a fault, the ring lies in card memory, which holds bytes, and
-- the mode has none of LOOP, COLL and DTCR.
pub do_transmit_chain :
    (on_interrupt : Card → Card) (stack q : Array) (n i : ℕ) (c : Card) (ps : List Descriptor)
    → IsChain c.am_tdr_tdra c.am_tdr_tlen c.boardram i 0 ps
    → c.am_tdr_tdra + c.am_tdr_tlen * 8 ≤ 0x8000
    → IsBytes c.boardram
    → tx_ready c ≡ true
    → tx_scan c ≡ some i
    → has c.am_mode 4 ≡ false
    → has c.am_mode 0x10 ≡ false
    → has c.am_mode 8 ≡ false
    → memcmp_eq (slice (chain_buffer c.boardram ps 0 c.transmitbuffer) 0 6) (slice c.fakemac 0 6)
      ≡ false
    → c.sock_open ≡ true
    → mungepacket c.mac (chain_buffer c.boardram ps 0 c.transmitbuffer) (total ps) ≡ some (n, q)
    → (d : Card) × (do_transmit on_interrupt stack c
        ≡ some (true, rethink on_interrupt (registers_csr0_set 0x0200 d)))
      × (d.sent ≡ slice q 0 (total ps) ∷ c.sent)
      × Released c.am_tdr_tdra c.am_tdr_tlen d.boardram i ps
unfolding do_transmit transmit_from tx_fuel put_flags
do_transmit_chain on_interrupt stack q n i c ps chain fits b ready found loop coll dtcr other open_
      munged =
    let sizes = chain_sizes ps b chain in
    let r =
      gather_chain ps (record c { tdr_offset = i }) i 0 4098 (mod-eq_of_lt sizes.3) fits b chain
        (omega (arith, sizes.0, sizes.1)) in
    let g : Gathered = r.0 in
    let add_fcs : Bool = has (tmd1_at c i) tx_add_fcs in
    let e : Array → Card = λ buf. record c {
      boardram = g.card.boardram;
      tdr_offset = g.card.tdr_offset;
      transmitbuffer = buf;
    } in
    let buffer : Array = chain_buffer c.boardram ps 0 c.transmitbuffer in
    let whole : g ≡ at_end (e buffer) (total ps) g.off g.tmd1 g.tmd3 =
      ap (λ (x : Card). record g { card = x }) (r.2.rest ∙ ap e r.2.buffer)
      ∙ ap (λ (m : ℕ). record g { card = e buffer; outsize = m }) {x = g.outsize} {y = total ps}
          (omega (arith, r.2.outsize))
      ∙ ap (λ (x : Bool). record g { card = e buffer; outsize = total ps; err = x }) r.2.err in
    let sent : dispatch on_interrupt stack add_fcs g
        ≡ some (left (e buffer) (total ps) g.off g.tmd1 g.tmd3 q) =
      ap (dispatch on_interrupt stack add_fcs) whole
      ∙ dispatch_sends (e buffer) (total ps) g.off g.tmd1 g.tmd3 stack q n add_fcs on_interrupt
          (omega (arith, sizes.2)) loop coll dtcr other open_ munged in
    (
      left (e buffer) (total ps) g.off g.tmd1 g.tmd3 q,
      rw (ready, found, r.1, sent) refl,
      refl,
      r.2.released,
    )
