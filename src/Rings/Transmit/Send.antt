-- ===== src/Rings/Transmit/Send.antt =====
-- A frame that lies in one transmit buffer, from the descriptor to the socket.
use a.Base.{
  ℕ, suc, ◌+◌, ◌-◌, ◌%◌, ◌≤◌, ◌<◌, ◌≡◌, refl, arith, ◌==◌, ltb, leb, Bool, true, false, ap,
}
use a.Base.{Option, none, some, Array, slice, bit_and, has, not16, memcmp_eq, ◌∷◌}
use native.Mathlib.Nat.{mod-eq_of_lt}
use a.Types.{tx_own, tx_add_fcs}
use a.Ram.{ram_read_block}
use a.Mac.{mungepacket}
use a.Ethernet.{ethernet_send}
use a.Card.{Card}
use a.Registers.{registers_csr0_set, rethink}
use a.Rings.Descriptor.{Descriptor, descriptor_off, read_descriptor, buffer_addr, put_flags}
use a.Rings.Transmit.Scan.{tx_scan_finds}
use a.Rings.Transmit.{
  Gathered, tx_size, take_buffer, taken_size, tx_gather, tx_fuel, tx_ready, tx_scan,
}
use a.Rings.Transmit.{tmd1_at, starts, collides, send_frame, dispatch, transmit_from, do_transmit}

pub tx_size_lem : (md : Descriptor) → 65536 - md.md2 ≤ 4096 → tx_size md ≡ 65536 - md.md2
unfolding tx_size
tx_size_lem md h = ground arith

module _ (c : Card) (i : ℕ) where
  -- The descriptor `i` of the transmit ring.
  abbrev pub tx_off : ℕ
  tx_off = descriptor_off c.am_tdr_tdra i

  abbrev pub tx_md : Descriptor
  tx_md = read_descriptor c.boardram tx_off

  -- The buffer as the chip reads it.
  abbrev pub tx_frame : Array
  tx_frame = ram_read_block c.boardram (buffer_addr tx_md) 0 (65536 - tx_md.md2) c.transmitbuffer

  -- A frame in one buffer: owned by the chip, and ended; of a legal size, and not to the card itself.
  pub record IsFrame : Type 0 where
    pub inside : i < c.am_tdr_tlen
    pub owned : has tx_md.md1 0x8000 ≡ true
    pub ended : has tx_md.md1 0x0100 ≡ true
    pub at_least : 60 ≤ 65536 - tx_md.md2
    pub at_most : 65536 - tx_md.md2 ≤ 4096
    pub no_loopback : has c.am_mode 4 ≡ false
    pub no_collision : has c.am_mode 0x10 ≡ false
    pub no_checksum : has c.am_mode 8 ≡ false
    pub elsewhere : memcmp_eq (slice tx_frame 0 6) (slice c.fakemac 0 6) ≡ false

  gathered : Gathered
  gathered = record {
    card = record c { tdr_offset = i + 1; transmitbuffer = tx_frame };
    outsize = 65536 - tx_md.md2;
    off = tx_off;
    tmd1 = bit_and tx_md.md1 (not16 tx_own);
    tmd3 = tx_md.md3;
    err = false;
  }

  gather_one :
      (fuel : ℕ) → IsFrame → tx_gather (suc fuel) 0 (record c { tdr_offset = i }) ≡ some gathered
  unfolding tx_gather take_buffer taken_size gathered
  gather_one fuel f =
      let size : tx_size tx_md ≡ 65536 - tx_md.md2 = tx_size_lem tx_md f.at_most in
      let long : ltb 4096 (0 + (65536 - tx_md.md2)) ≡ false = ground (arith, f.at_most) in
      let full : ltb (0 + (65536 - tx_md.md2)) 60 ≡ false = ground (arith, f.at_least) in
      rw (mod-eq_of_lt f.inside, size, f.owned, f.ended, long, full)
        (ap (λ n. some (record gathered { outsize = n })) {x = 0 + (65536 - tx_md.md2)}
          {y = 65536 - tx_md.md2} (omega arith))

  -- The card when the frame has been handed over.
  abbrev pub tx_left : Array → Card
  tx_left q =
      let e = put_flags tx_off (bit_and tx_md.md1 (not16 0x8000)) tx_md.md3 c in
      record e {
        tdr_offset = i + 1;
        transmitbuffer = q;
        transmitlen = 65536 - tx_md.md2;
        sent = slice q 0 (65536 - tx_md.md2) ∷ c.sent;
      }

  frame_sent :
      (stack q : Array) (n : ℕ) (add_fcs : Bool) (on_interrupt : Card → Card)
      → IsFrame
      → c.sock_open ≡ true
      → mungepacket c.mac tx_frame (65536 - tx_md.md2) ≡ some (n, q)
      → dispatch on_interrupt stack add_fcs gathered ≡ some (tx_left q)
  unfolding dispatch send_frame collides gathered ethernet_send put_flags
  frame_sent stack q n add_fcs on_interrupt f open_ munged =
      let full : ltb (65536 - tx_md.md2) 60 ≡ false = ground (arith, f.at_least) in
      let some_bytes : (65536 - tx_md.md2 == 0) ≡ false = ground (arith, f.at_least) in
      let six : leb 6 (65536 - tx_md.md2) ≡ true = ground (arith, f.at_least) in
      rw
        (
          f.no_loopback, full, f.no_collision, six, f.elsewhere, f.no_checksum, munged, open_,
          some_bytes,
        )
        refl

  -- A frame in one buffer of the transmit ring, the first that the search finds, goes to the open
  -- socket in its translation, once, if it is owned and ended, has 60 to 4096 bytes, is not to
  -- the card itself, is translated without a fault, and the mode has none of LOOP, COLL and DTCR;
  -- its descriptor is handed back with OWN clear, the walk goes on behind it, and TINT is
  -- reported.
  pub do_transmit_sends :
      (on_interrupt : Card → Card) (stack q : Array) (n : ℕ)
      → IsFrame
      → tx_ready c ≡ true
      → tx_scan c ≡ some i
      → c.sock_open ≡ true
      → mungepacket c.mac tx_frame (65536 - tx_md.md2) ≡ some (n, q)
      → do_transmit on_interrupt stack c
        ≡ some (true, rethink on_interrupt (registers_csr0_set 0x0200 (tx_left q)))
  unfolding do_transmit transmit_from tx_fuel
  do_transmit_sends on_interrupt stack q n f ready found open_ munged =
      let one : tx_gather 4098 0 (record c { tdr_offset = i }) ≡ some gathered =
        gather_one 4097 f in
      let add_fcs : Bool = has (tmd1_at c i) tx_add_fcs in
      rw (ready, found, one, frame_sent stack q n add_fcs on_interrupt f open_ munged) refl

-- With the transmitter off, or a ring that has no descriptor, more than 512, or does not fit card
-- memory, nothing is done; with a ready transmitter and no descriptor of the ring the chip's and
-- the start of a packet the index is only brought into the ring. In both cases the result is
-- false.
pub do_transmit_idle :
    (on_interrupt : Card → Card) (stack : Array) (c : Card)
    → (tx_ready c ≡ false → do_transmit on_interrupt stack c ≡ some (false, c))
      × (tx_ready c ≡ true
          → ((j : ℕ) → j < c.am_tdr_tlen → starts c j ≡ false)
          → do_transmit on_interrupt stack c
            ≡ some (false, record c { tdr_offset = c.tdr_offset % c.am_tdr_tlen }))
unfolding do_transmit
do_transmit_idle on_interrupt stack c = (λ h. rw h refl, λ h idle. go idle h (tx_scan c) refl)
  where
    go :
        ((j : ℕ) → j < c.am_tdr_tlen → starts c j ≡ false)
        → tx_ready c ≡ true
        → (r : Option ℕ) → tx_scan c ≡ r
        → do_transmit on_interrupt stack c
          ≡ some (false, record c { tdr_offset = c.tdr_offset % c.am_tdr_tlen })
    go idle h none e = rw (h, e) refl
    go idle h (some j) e =
        let positive : 0 < c.am_tdr_tlen = unfold tx_ready in ground (arith, h) in
        let found : (j < c.am_tdr_tlen)
            × (starts c j ≡ true)
            × ((k : ℕ) × (j ≡ (c.tdr_offset % c.am_tdr_tlen + k) % c.am_tdr_tlen)
                × ((m : ℕ)
                    → m < k
                    → starts c ((c.tdr_offset % c.am_tdr_tlen + m) % c.am_tdr_tlen) ≡ false)) =
          (tx_scan_finds c positive).1 j e in
        absurd (ground (arith, idle j found.0, found.1))
