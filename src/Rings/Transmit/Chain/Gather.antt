-- ===== src/Rings/Transmit/Chain/Gather.antt =====
-- The loop of `do_transmit` gathers the buffers of a chain and hands its descriptors back.
use a.Base.{ℕ, zero, suc, ◌+◌, ◌*◌, ◌%◌, ◌≤◌, ◌<◌, ◌≡◌, refl, sym, arith, ltb, true, false, ◌∙◌}
use a.Base.{some, Array, List, [], ◌∷◌, bit_and, has, not16, length, bit_and_low, flags}
use mathlib.Core.Path.{subst}
use a.Types.{tx_own, tx_enp}
use a.Ram.{get_ram_word, get_ram_byte, ram_read_block}
use a.Ram.Bytes.{IsBytes, get_ram_word-lt}
use a.Card.{Card}
use a.Rings.Descriptor.{
  Descriptor, descriptor_off, read_descriptor, buffer_addr, put_flags, put_flags-IsBytes,
}
use a.Rings.Receive.Deliver.{Apart, put_flags-Apart, put_flags_lem}
use a.Rings.Transmit.Send.{tx_size_lem}
use a.Rings.Transmit.{Gathered, tx_size, take_buffer, taken_size, tx_gather}
use a.Rings.Transmit.Chain.{
  size_of, total, chain_buffer, Clear, Owned, IsChain, last, next, word_ext, IsChain-put_flags,
  chain_buffer-put_flags,
}

module _ (base len : ℕ) where
  -- Address `a` is none of the bytes that handing back the descriptors from `i` on writes.
  Avoids : ℕ → List Descriptor → ℕ → Type 0
  Avoids i [] a = Unit
  Avoids i (md ∷ ps) a = Apart (descriptor_off base i) a × Avoids ((i + 1) % len) ps a

  -- The descriptors from `i` on are the Amiga's.
  pub Released : Array → ℕ → List Descriptor → Type 0
  Released ram i [] = Unit
  Released ram i (md ∷ ps) =
      (has (get_ram_word ram (descriptor_off base i + 2)) 0x8000 ≡ false)
      × Released ram ((i + 1) % len) ps

  -- What is clear of the descriptor at `off` is avoided by its flags.
  Clear-Avoids :
      (off : ℕ) (ps : List Descriptor) (i : ℕ)
      → Clear base len off i ps
      → Avoids i ps (off + 2) × Avoids i ps (off + 2 + 1)
  unfolding Clear Avoids
  Clear-Avoids off [] i cl = (tt, tt)
  Clear-Avoids off (md ∷ ps) i cl =
      let o : ℕ = descriptor_off base i in
      let rest = Clear-Avoids off ps ((i + 1) % len) cl.2 in
      let at_2 = cl.0 (o + 2) (omega arith) (omega arith) in
      let at_3 = cl.0 (o + 3) (omega arith) (omega arith) in
      let at_6 = cl.0 (o + 6) (omega arith) (omega arith) in
      let at_7 = cl.0 (o + 7) (omega arith) (omega arith) in
      (
        (
          (λ e. at_2.0 (sym e), λ e. at_3.0 (sym e), λ e. at_6.0 (sym e), λ e. at_7.0 (sym e)),
          rest.0,
        ),
        (
          (
            λ e. at_2.1 (omega (arith, e)),
            λ e. at_3.1 (omega (arith, e)),
            λ e. at_6.1 (omega (arith, e)),
            λ e. at_7.1 (omega (arith, e)),
          ),
          rest.1,
        ),
      )

-- Card memory when the flags of the last descriptor are written too.
abbrev pub handed_back : Gathered → Array
handed_back g = (put_flags g.off g.tmd1 g.tmd3 g.card).boardram

without_own : (x : ℕ) → has (bit_and x (not16 tx_own)) 0x8000 ≡ false
without_own x = simp flags (unfold has in refl)

-- The variables of the loop when the chain is at its end.
pub record Gathers (c : Card) (i : ℕ) (ps : List Descriptor) (out : ℕ) (g : Gathered) : Type 0 where
  kept :
      (a : ℕ)
      → Avoids c.am_tdr_tdra c.am_tdr_tlen i ps a
      → get_ram_byte (handed_back g) a ≡ get_ram_byte c.boardram a
  pub released : Released c.am_tdr_tdra c.am_tdr_tlen (handed_back g) i ps
  pub outsize : g.outsize ≡ out + total ps
  pub buffer : g.card.transmitbuffer ≡ chain_buffer c.boardram ps out c.transmitbuffer
  pub err : g.err ≡ false
  pub rest : g.card ≡ record c {
    boardram = g.card.boardram;
    tdr_offset = g.card.tdr_offset;
    transmitbuffer = g.card.transmitbuffer;
  }

module _ (c : Card) (i out : ℕ) (md : Descriptor) (at : c.tdr_offset % c.am_tdr_tlen ≡ i)
    (own : Owned c.am_tdr_tdra c.am_tdr_tlen c.boardram i out md) where
  abbrev off : ℕ
  off = descriptor_off c.am_tdr_tdra i

  -- The buffer of the descriptor is in `transmitbuffer`.
  abbrev taken : Card
  taken = record c {
    tdr_offset = i + 1;
    transmitbuffer = ram_read_block c.boardram (buffer_addr md) out (size_of md) c.transmitbuffer;
  }

  size : tx_size md ≡ size_of md
  size = tx_size_lem md (omega (arith, own.room))

  room : ltb 4096 (out + size_of md) ≡ false
  room = ground (arith, own.room)

  gather_next :
      (fuel : ℕ)
      → has md.md1 tx_enp ≡ false
      → tx_gather (suc fuel) out c
        ≡ tx_gather fuel
            (out + size_of md)
            (put_flags off (bit_and md.md1 (not16 tx_own)) md.md3 taken)
  unfolding tx_gather take_buffer taken_size
  gather_next fuel e = rw (at, own.reads, size, own.own, room, e) refl

  gather_last :
      (fuel : ℕ)
      → has md.md1 tx_enp ≡ true
      → 60 ≤ out + size_of md
      → tx_gather (suc fuel) out c
        ≡ some (record {
          card = taken;
          outsize = out + size_of md;
          off = off;
          tmd1 = bit_and md.md1 (not16 tx_own);
          tmd3 = md.md3;
          err = false;
        })
  unfolding tx_gather take_buffer taken_size
  gather_last fuel e l =
      let full : ltb (out + size_of md) 60 ≡ false = ground (arith, l) in
      rw (at, own.reads, size, own.own, room, e, full) refl

md3-lt : (ram : Array) (off : ℕ) → IsBytes ram → (read_descriptor ram off).md3 < 0x10000
unfolding read_descriptor
md3-lt ram off h = get_ram_word-lt ram (off + 6) h

-- The loop ends at the end of the chain, with the buffers gathered as card memory had them when it
-- began.
pub gather_chain :
    (ps : List Descriptor) (c : Card) (i out fuel : ℕ)
    → c.tdr_offset % c.am_tdr_tlen ≡ i
    → c.am_tdr_tdra + c.am_tdr_tlen * 8 ≤ 0x8000
    → IsBytes c.boardram
    → IsChain c.am_tdr_tdra c.am_tdr_tlen c.boardram i out ps
    → length ps ≤ fuel
    → (g : Gathered) × (tx_gather fuel out c ≡ some g) × Gathers c i ps out g
unfolding chain_buffer put_flags Avoids Released
gather_chain [] c i out fuel at fits b chain l = elim chain [ ]
gather_chain (md ∷ ps) c i out zero at fits b chain l = absurd (omega arith)
gather_chain (md ∷ []) c i out (suc fuel) at fits b (last own e h) l =
    let o : ℕ = off c i out md at own in
    let here : Card = taken c i out md at own in
    let tmd1 : ℕ = bit_and md.md1 (not16 tx_own) in
    let m1 : tmd1 < 0x10000 = omega (arith, bit_and_low 15 md.md1) in
    let m3 : md.md3 < 0x10000 =
      subst (λ (m : Descriptor). m.md3 < 0x10000) own.reads (md3-lt c.boardram o b) in
    let below : o + 7 < 0x1_0000_0000 = omega (arith, own.inside, fits) in
    (
      _,
      gather_last c i out md at own fuel e h,
      record {
        kept = λ a av. put_flags-Apart o tmd1 md.md3 here a m1 m3 below av.0;
        released = (rw (put_flags_lem o tmd1 md.md3 here m1 m3 below).0 (without_own md.md1), tt);
        outsize = omega arith;
        buffer = refl;
        err = refl;
        rest = refl;
      },
    )
gather_chain (md ∷ ps) c i out (suc fuel) at fits b (next own e d chain) l =
    let o : ℕ = off c i out md at own in
    let here : Card = taken c i out md at own in
    let tmd1 : ℕ = bit_and md.md1 (not16 tx_own) in
    let next_card : Card = put_flags o tmd1 md.md3 here in
    let m1 : tmd1 < 0x10000 = omega (arith, bit_and_low 15 md.md1) in
    let m3 : md.md3 < 0x10000 =
      subst (λ (m : Descriptor). m.md3 < 0x10000) own.reads (md3-lt c.boardram o b) in
    let below : o + 7 < 0x1_0000_0000 = omega (arith, own.inside, fits) in
    let base : ℕ = c.am_tdr_tdra in
    let len : ℕ = c.am_tdr_tlen in
    let r =
      gather_chain ps next_card ((i + 1) % len) (out + size_of md) fuel refl fits
        (put_flags-IsBytes o tmd1 md.md3 here b)
        (IsChain-put_flags base len fits o tmd1 md.md3 here m1 m3 below ps d chain) (omega arith) in
    let av = Clear-Avoids base len o ps ((i + 1) % len) d in
    let word : get_ram_word (handed_back r.0) (o + 2) ≡ tmd1 =
      word_ext (handed_back r.0) next_card.boardram (o + 2) (omega (arith, below))
        (r.2.kept (o + 2) av.0) (r.2.kept (o + 2 + 1) av.1)
      ∙ (put_flags_lem o tmd1 md.md3 here m1 m3 below).0 in
    let released_here : has (get_ram_word (handed_back r.0) (o + 2)) 0x8000 ≡ false =
      rw word (without_own md.md1) in
    (
      r.0,
      gather_next c i out md at own fuel e ∙ r.1,
      record {
        kept = λ a av. r.2.kept a av.1 ∙ put_flags-Apart o tmd1 md.md3 here a m1 m3 below av.0;
        released = (released_here, r.2.released);
        outsize = omega (arith, r.2.outsize);
        buffer =
            r.2.buffer
            ∙ chain_buffer-put_flags base len fits o tmd1 md.md3 here m1 m3 below ((i + 1) % len) ps
                (out + size_of md) here.transmitbuffer d;
        err = r.2.err;
        rest = r.2.rest;
      },
    )
