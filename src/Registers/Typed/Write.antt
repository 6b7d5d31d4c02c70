-- ===== src/Registers/Typed/Write.antt =====
-- A write of a register keeps every variable of the card in the range of its C type, and the memory
-- that the rings work on bytes.
use a.Base.{ℕ, ◌<◌, ◌≡◌, refl, arith, ◌==◌, leb, if◌then◌else◌, Bool, true, not, ◌&&◌}
use a.Base.{
  Option, some, Array, bit_and, bit_or, has, OnSome, OnSome-some, OnSome-bind, kept_if, bit_and_low,
}
use a.Base.Bits.{bit_and-lt}
use a.Types.{csr0_stop, csr0_strt, csr0_init, csr0_txon, csr0_tdmd, rap_size, a2065_rap_off}
use mathlib.Core.Path.{subst}
use a.Mac.{MacUnit, mac_set_fakemac}
use a.Mac.Dhcp.{AllBytes}
use a.Ram.Bytes.{IsBytes}
use a.Card.{Card, csr0, with_csr0}
use a.Registers.{
  csr0_written, switch_on, obey, demand, demand_done, write_csr0, chip_wput, chip_init,
  chip_init_mask, write_stopped, write_other, rethink, csr0_rethought, int_and_enable, init_mac,
  init_block,
}
use a.Registers.Survive.{rethought-Touched}
use a.Registers.WellFormed.{words-update, csr0_written-lt, switch_on-lt}
use a.Registers.Typed.{Typed, with_csr-Typed, obey-Typed, init_mac-IsBytes}
use a.Registers.Typed.Other.{write_other-Typed}
use a.Rings.Memory.{Bytes}

pub record Sized (c : Card) : Type 0 where
  pub typed : Typed c
  pub bytes : Bytes c

with_csr-Bytes :
    (c : Card) (csr : Array) (init : Bool)
    → Bytes c
    → Bytes (record c { csr = csr; am_initialized = init })
with_csr-Bytes c csr init h = record {
  ram = h.ram;
  buffer = h.buffer;
  fake = h.fake;
  real = h.real;
}

with_csr-Sized :
    (c : Card) (csr : Array) (init : Bool)
    → ((i : ℕ) → csr i < 0x10000)
    → Sized c
    → Sized (record c { csr = csr; am_initialized = init })
with_csr-Sized c csr init w h = record {
  typed = with_csr-Typed c csr init w h.typed;
  bytes = with_csr-Bytes c csr init h.bytes;
}

chip_init-Bytes : (c : Card) → Bytes c → Bytes (chip_init c)
unfolding chip_init chip_init_mask mac_set_fakemac
chip_init-Bytes c h =
    let m : IsBytes (init_mac c.boardram (init_block c)) =
      init_mac-IsBytes c.boardram (init_block c) h.ram in
    record {
      ram = h.ram;
      buffer = h.buffer;
      fake = (m 0, (m 1, (m 2, (m 3, (m 4, (m 5, tt))))));
      real = h.real;
    }

obey-Bytes : (old : ℕ) (c : Card) → Bytes c → Bytes (obey old c)
unfolding obey
obey-Bytes old c h =
    let v : ℕ = csr0 c in
    let d : Card = with_csr0 c (switch_on c.am_mode v) in
    let at_d : Bytes d = with_csr-Bytes c _ c.am_initialized h in
    kept_if Bytes (has v csr0_stop && not (has old csr0_stop))
      (with_csr-Bytes c _ c.am_initialized h)
      (kept_if Bytes
        (has v csr0_strt && not (has old csr0_strt) && has old (bit_or csr0_stop csr0_init))
        (kept_if Bytes (has (csr0 d) csr0_init && not (has old csr0_init))
          (with_csr-Bytes (chip_init d) _ true (chip_init-Bytes d at_d)) at_d)
        (kept_if Bytes (has v csr0_init && not (has old csr0_init) && has old csr0_stop)
          (with_csr-Bytes (chip_init c) _ true (chip_init-Bytes c h)) h))

-- Only the memory is looked at.
same-Bytes :
    (c d : Card)
    → c.boardram ≡ d.boardram
    → c.transmitbuffer ≡ d.transmitbuffer
    → c.mac ≡ d.mac
    → Bytes c
    → Bytes d
same-Bytes c d r b m h = record {
  ram = subst IsBytes r h.ram;
  buffer = subst IsBytes b h.buffer;
  fake = subst (λ (u : MacUnit). AllBytes u.fakemac) m h.fake;
  real = subst (λ (u : MacUnit). AllBytes u.realmac) m h.real;
}

write_stopped-Sized : (c : Card) (n v : ℕ) → v < 0x10000 → Sized c → Sized (write_stopped c n v)
unfolding write_stopped
write_stopped-Sized c n v b h =
    kept_if Sized (has (csr0 c) csr0_stop)
      (with_csr-Sized c _ c.am_initialized (words-update c.csr n v h.typed.csr b) h) h

write_other-Sized : (c : Card) (v : ℕ) → v < 0x10000 → Sized c → Sized (write_other c v)
write_other-Sized c v b h = record {
  typed = write_other-Typed c v b h.typed;
  bytes =
      same-Bytes c (write_other c v) (unfold write_other chip_init_mask in ground arith)
        (unfold write_other chip_init_mask in ground arith)
        (unfold write_other chip_init_mask in ground arith) h.bytes;
}

select-Sized : (c : Card) (r : ℕ) → r < 0x80 → Sized c → Sized (record c { rap = r })
select-Sized c r b h = record {
  typed = record {
    csr = h.typed.csr;
    rap = b;
    mode = h.typed.mode;
    ladrf = h.typed.ladrf;
    rlen = h.typed.rlen;
    tlen = h.typed.tlen;
    rdra = h.typed.rdra;
    tdra = h.typed.tdra;
    fakemac = h.typed.fakemac;
  };
  bytes = same-Bytes c (record c { rap = r }) refl refl refl h.bytes;
}

module _ (on_interrupt : Card → Card) (on_transmit : Card → Option Card)
    (reports : (c : Card) → Sized c → Sized (on_interrupt c))
    (transmits : (c : Card) → Sized c → OnSome Sized (on_transmit c)) where
  demand-Sized : (c : Card) → Sized c → OnSome Sized (demand on_transmit c)
  unfolding demand demand_done
  demand-Sized c h =
      let d : Card =
        if not (has (csr0 c) csr0_txon) then with_csr0 c (switch_on c.am_mode (csr0 c)) else c in
      let on : Sized d =
        kept_if Sized (not (has (csr0 c) csr0_txon))
          (with_csr-Sized c _ c.am_initialized
            (words-update c.csr 0 _ h.typed.csr (switch_on-lt c.am_mode (csr0 c) (h.typed.csr 0)))
            h)
          h in
      let tried : OnSome Sized (if c.am_initialized then on_transmit d else some c) =
        kept_if (OnSome Sized) c.am_initialized (transmits d on) (OnSome-some h) in
      kept_if (OnSome Sized) (has (csr0 c) csr0_tdmd)
        (OnSome-bind Sized tried (λ e k. OnSome-some (
          with_csr-Sized e _ e.am_initialized
            (words-update e.csr 0 _ k.typed.csr (bit_and-lt 16 (csr0 e) _ (k.typed.csr 0))) k)))
        (OnSome-some h)

  rethink-Sized : (c : Card) → Sized c → Sized (rethink on_interrupt c)
  unfolding rethink
  rethink-Sized c h =
      let v : ℕ = csr0_rethought (csr0 c) in
      let d : Card = with_csr0 c v in
      let kept : Sized d =
        with_csr-Sized c _ c.am_initialized
          (words-update c.csr 0 v h.typed.csr ((rethought-Touched (csr0 c)).words (h.typed.csr 0)))
          h in
      kept_if Sized (bit_and (csr0 d) int_and_enable == int_and_enable) (reports d kept) kept

  write_csr0-Sized :
      (c : Card) (v : ℕ)
      → v < 0x10000
      → Sized c
      → OnSome Sized (write_csr0 on_interrupt on_transmit c v)
  unfolding write_csr0
  write_csr0-Sized c v b h =
      let w : Card = with_csr0 c (csr0_written (csr0 c) v) in
      let at_w : Sized w =
        with_csr-Sized c _ c.am_initialized
          (words-update c.csr 0 _ h.typed.csr (csr0_written-lt (csr0 c) v (h.typed.csr 0) b)) h in
      let obeyed : Sized (obey (csr0 c) w) = record {
        typed = obey-Typed (csr0 c) w h.bytes.ram at_w.typed;
        bytes = obey-Bytes (csr0 c) w at_w.bytes;
      } in
      OnSome-bind Sized (demand-Sized _ obeyed) (λ d k. OnSome-some (rethink-Sized d k))

  -- Every write of a register keeps the ranges.
  pub chip_wput-Sized :
      (reg_offset v : ℕ) (c : Card)
      → v < 0x10000
      → Sized c
      → OnSome Sized (chip_wput on_interrupt on_transmit reg_offset v c)
  unfolding chip_wput
  chip_wput-Sized reg_offset v c b h =
      let P : Option Card → Type 0 = OnSome Sized in
      kept_if P (reg_offset == a2065_rap_off)
        (OnSome-some (select-Sized c (bit_and v 0x7f) (omega (arith, bit_and_low 7 v)) h))
        (kept_if P (leb rap_size c.rap) (OnSome-some h) (
          kept_if P (c.rap == 0) (write_csr0-Sized c v b h) (
            kept_if P (c.rap == 1) (OnSome-some (write_stopped-Sized c 1 _ (bit_and-lt 16 v _ b) h))
              (kept_if P (c.rap == 2)
                (OnSome-some (write_stopped-Sized c 2 _ (bit_and-lt 16 v _ b) h))
                (kept_if P (c.rap == 3)
                  (OnSome-some (write_stopped-Sized c 3 _ (bit_and-lt 16 v _ b) h))
                  (OnSome-some (write_other-Sized c v b h)))))))
