-- ===== src/Rings/Memory.antt =====
-- The memory that arm/src/rings.cpp works on holds bytes: card memory, `transmitbuffer` and the two
-- addresses of the card.
use a.Base.{ℕ, Array, List, bit_and, ◌==◌, kept_if}
use a.Card.{Card, csr0, with_csr0}
use a.Ram.Bytes.{IsBytes}
use a.Mac.Dhcp.{AllBytes}
use a.Registers.{registers_csr0_set, registers_csr0_clr, rethink, csr0_rethought, int_and_enable}
use a.Rings.Descriptor.{put_flags, put_flags-IsBytes}

pub record Bytes (c : Card) : Type 0 where
  pub ram : IsBytes c.boardram
  pub buffer : IsBytes c.transmitbuffer
  pub fake : AllBytes c.mac.fakemac
  pub real : AllBytes c.mac.realmac

-- Nothing else of the card is looked at.
pub with_memory :
    (c : Card) (ram buf : Array) (len tdr rdr iter : ℕ) (frames : List (List ℕ))
    → IsBytes ram
    → IsBytes buf
    → Bytes c
    → Bytes (record c {
      boardram = ram;
      transmitbuffer = buf;
      transmitlen = len;
      tdr_offset = tdr;
      rdr_offset = rdr;
      loopback_iter = iter;
      sent = frames;
    })
with_memory c ram buf len tdr rdr iter frames r b h = record {
  ram = r;
  buffer = b;
  fake = h.fake;
  real = h.real;
}

with_csr0-Bytes : (c : Card) (v : ℕ) → Bytes c → Bytes (with_csr0 c v)
with_csr0-Bytes c v h = record { ram = h.ram; buffer = h.buffer; fake = h.fake; real = h.real }

pub csr0_set-Bytes : (m : ℕ) (c : Card) → Bytes c → Bytes (registers_csr0_set m c)
unfolding registers_csr0_set
csr0_set-Bytes m c h = with_csr0-Bytes c _ h

pub csr0_clr-Bytes : (m : ℕ) (c : Card) → Bytes c → Bytes (registers_csr0_clr m c)
unfolding registers_csr0_clr
csr0_clr-Bytes m c h = with_csr0-Bytes c _ h

pub put_flags-Bytes : (off md1 md3 : ℕ) (c : Card) → Bytes c → Bytes (put_flags off md1 md3 c)
unfolding put_flags
put_flags-Bytes off md1 md3 c h =
    with_memory c _ _ _ _ _ _ _ (unfold put_flags in put_flags-IsBytes off md1 md3 c h.ram) h.buffer
      h

pub rethink-Bytes :
    (on_interrupt : Card → Card)
    → ((c : Card) → Bytes c → Bytes (on_interrupt c))
    → (c : Card) → Bytes c
    → Bytes (rethink on_interrupt c)
unfolding rethink
rethink-Bytes on_interrupt reports c h =
    let d : Card = with_csr0 c (csr0_rethought (csr0 c)) in
    let kept : Bytes d = with_csr0-Bytes c _ h in
    kept_if Bytes (bit_and (csr0 d) int_and_enable == int_and_enable) (reports d kept) kept
