-- ===== src/Registers/Typed.antt =====
-- The static variables of arm/src/registers.cpp stay in the ranges of their C types, so that no
-- assignment to them loses bits.
pub mod Other
pub mod Write
use a.Base.{
  ℕ, zero, suc, ◌+◌, ◌-◌, ◌*◌, ◌/◌, ◌%◌, ◌^◌, ◌≤◌, ◌<◌, ◌≡◌, arith, ◌==◌, leb, if◌then◌else◌, Bool,
  true, false, not, ◌&&◌,
}
use a.Base.{
  bit_and, bit_or, not16, has, update, Array, Option, some, ◌>>=◌, ◌<<<◌, ◌>>>◌, OnSome,
  OnSome-some, OnSome-bind, kept_if, bit_and_low,
}
use a.Base.Bits.{bit_and-lt, bit_or-lt}
use a.Ram.{get_ram_word, get_ram_byte}
use a.Ram.Bytes.{IsBytes, get_ram_byte-lt, get_ram_word-lt, update-IsBytes}
use native.Mathlib.Nat.{pow-le-pow_right}
use a.Types.{csr0_stop, csr0_strt, csr0_init, csr0_idon, csr0_txon, csr0_tdmd}
use a.Card.{Card, csr0, with_csr0}
use a.Registers.{
  csr0_written, switch_on, obey, demand, demand_done, write_csr0, chip_wput, chip_init,
  chip_init_mask, write_stopped, write_other, rethink, init_mac, init_block, ring_pointer,
  ring_length,
}
use a.Registers.Survive.{Survives, rethink-Survives}
use a.Registers.WellFormed.{words-update, csr0_written-lt, switch_on-lt, obey-words}

pub record Typed (c : Card) : Type 0 where
  pub csr : (i : ℕ) → c.csr i < 0x10000
  pub rap : c.rap < 0x80
  pub mode : c.am_mode < 0x10000
  pub ladrf : c.am_ladrf < 2 ^ 64
  pub rlen : c.am_rdr_rlen < 0x10000
  pub tlen : c.am_tdr_tlen < 0x10000
  pub rdra : c.am_rdr_rdra < 2 ^ 32
  pub tdra : c.am_tdr_tdra < 2 ^ 32
  pub fakemac : IsBytes c.fakemac

pub Typed-Survives : Survives Typed
Typed-Survives = record {
  reads = λ c ram buf len tdr rdr iter frames h. record {
    csr = h.csr;
    rap = h.rap;
    mode = h.mode;
    ladrf = h.ladrf;
    rlen = h.rlen;
    tlen = h.tlen;
    rdra = h.rdra;
    tdra = h.tdra;
    fakemac = h.fakemac;
  };
  touches = λ c w t h. record {
    csr = words-update c.csr 0 w h.csr (t.words (h.csr 0));
    rap = h.rap;
    mode = h.mode;
    ladrf = h.ladrf;
    rlen = h.rlen;
    tlen = h.tlen;
    rdra = h.rdra;
    tdra = h.tdra;
    fakemac = h.fakemac;
  };
}

-- Another array of registers.
pub with_csr-Typed :
    (c : Card) (csr : Array) (init : Bool)
    → ((i : ℕ) → csr i < 0x10000)
    → Typed c
    → Typed (record c { csr = csr; am_initialized = init })
with_csr-Typed c csr init w h = record {
  csr = w;
  rap = h.rap;
  mode = h.mode;
  ladrf = h.ladrf;
  rlen = h.rlen;
  tlen = h.tlen;
  rdra = h.rdra;
  tdra = h.tdra;
  fakemac = h.fakemac;
}

ring_pointer-lt : (ram : Array) (off : ℕ) → IsBytes ram → ring_pointer ram off < 2 ^ 32
unfolding ring_pointer
ring_pointer-lt ram off h =
    bit_or-lt 32 (get_ram_word ram (off + 2) <<< 16) (get_ram_word ram off)
      (omega (arith, get_ram_word-lt ram (off + 2) h)) (omega (arith, get_ram_word-lt ram off h))

ring_length-lt : (ptr : ℕ) → ring_length ptr < 0x10000
unfolding ring_length
ring_length-lt ptr = omega (
  arith,
  pow-le-pow_right {n = 2} (omega arith) {i = bit_and (ptr / 2 ^ 29) 7} {j = 7}
      (omega (arith, bit_and_low 3 (ptr / 2 ^ 29))),
)

pub init_mac-IsBytes : (ram : Array) (off : ℕ) → IsBytes ram → IsBytes (init_mac ram off)
unfolding init_mac
init_mac-IsBytes ram off h i = ground (
  arith,
  get_ram_byte-lt ram (off + 2) h,
  get_ram_byte-lt ram (off + 3) h,
  get_ram_byte-lt ram (off + 4) h,
  get_ram_byte-lt ram (off + 5) h,
  get_ram_byte-lt ram (off + 6) h,
  get_ram_byte-lt ram (off + 7) h,
)

chip_init-Typed : (c : Card) → IsBytes c.boardram → Typed c → Typed (chip_init c)
unfolding chip_init chip_init_mask
chip_init-Typed c b h =
    let off : ℕ = init_block c in
    let w : (i : ℕ) → get_ram_word c.boardram (off + i) < 0x10000 =
      λ i. get_ram_word-lt c.boardram (off + i) b in
    record {
      csr = h.csr;
      rap = h.rap;
      mode = w 0;
      ladrf =
          bit_or-lt 64 _ _
            (bit_or-lt 64 _ _ (bit_or-lt 64 _ _ (omega (arith, w 14)) (omega (arith, w 12)))
              (omega (arith, w 10)))
            (omega (arith, w 8));
      rlen = ring_length-lt _;
      tlen = ring_length-lt _;
      rdra = bit_and-lt 32 _ _ (bit_and-lt 32 _ _ (ring_pointer-lt c.boardram (off + 16) b));
      tdra = bit_and-lt 32 _ _ (bit_and-lt 32 _ _ (ring_pointer-lt c.boardram (off + 20) b));
      fakemac = init_mac-IsBytes c.boardram off b;
    }

idon-lt : (v : ℕ) → v < 0x10000 → bit_or v csr0_idon < 0x10000
idon-lt v h = bit_or-lt 16 v 0x100 h (omega arith)

pub obey-Typed : (old : ℕ) (c : Card) → IsBytes c.boardram → Typed c → Typed (obey old c)
unfolding obey
obey-Typed old c b h =
    let v : ℕ = csr0 c in
    let d : Card = with_csr0 c (switch_on c.am_mode v) in
    let at_d : Typed d =
      with_csr-Typed c _ c.am_initialized
        (words-update c.csr 0 _ h.csr (switch_on-lt c.am_mode v (h.csr 0))) h in
    let e : Card = chip_init d in
    let at_e : Typed e = chip_init-Typed d b at_d in
    let f : Card = chip_init c in
    let at_f : Typed f = chip_init-Typed c b h in
    kept_if Typed (has v csr0_stop && not (has old csr0_stop))
      (with_csr-Typed c _ c.am_initialized
        (words-update _ 3 0 (words-update c.csr 0 4 h.csr (omega arith)) (omega arith)) h)
      (kept_if Typed
        (has v csr0_strt && not (has old csr0_strt) && has old (bit_or csr0_stop csr0_init))
        (kept_if Typed (has (csr0 d) csr0_init && not (has old csr0_init))
          (with_csr-Typed e _ true (words-update e.csr 0 _ at_e.csr (idon-lt (csr0 e) (at_e.csr 0)))
            at_e)
          at_d)
        (kept_if Typed (has v csr0_init && not (has old csr0_init) && has old csr0_stop)
          (with_csr-Typed f _ true
            (words-update _ 3 0
              (words-update f.csr 0 _ at_f.csr
                (bit_and-lt 16 (bit_or (csr0 f) csr0_idon) _ (idon-lt (csr0 f) (at_f.csr 0))))
              (omega arith))
            at_f)
          h))
