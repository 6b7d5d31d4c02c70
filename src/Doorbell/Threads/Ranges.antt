-- ===== src/Doorbell/Threads/Ranges.antt =====
-- Every state that the daemon of arm/src/main_doorbell.cpp reaches, read as a state of its C types.
use a.Base.{ℕ, ◌/◌, ◌^◌, ◌<◌, arith}
use a.Base.{
  Array, Option, none, some, kept_if, bit_and, bit_and_low, update, Bool-cases, inl, inr, slice,
}
use a.Card.{Card}
use a.Mac.{mac_set_addresses}
use a.Mac.Dhcp.{AllBytes}
use a.Ram.Bytes.{IsBytes, update-IsBytes}
use a.Registers.{registers_reset, registers_set_fakemac}
use a.Registers.Typed.{Typed}
use a.Registers.Typed.Write.{Sized}
use a.Rings.Memory.{Bytes}
use a.Doorbell.Startup.{start_up}
use a.Doorbell.Station.{
  daemon_set_default_mac, low_source, commodore_mac, derive_unique_low, ethernet_read_iface_mac,
  mac_low_is_zero, write_mbx_mac,
}
use a.Doorbell.Threads.Overlap.{Threads, Step, polls, receives, stores, posts, Reach, begins, later}
use a.Doorbell.Threads.Typed.{slot-Sized, publish-Sized, poll_move-Sized, rx_move-Sized}

-- What comes from outside the program is bytes: the frames, what an array on the stack holds before
-- it is filled, and what the Amiga writes.
unfoldable pub Bytewise : {s t : Threads} → Step s t → Type 0
Bytewise (polls stack e) = IsBytes stack
Bytewise (receives stack rxbuf len e) = IsBytes stack × IsBytes rxbuf
Bytewise (stores ram) = IsBytes ram
Bytewise (posts word) = Unit

unfoldable pub ReportsBytes : Option Array → Type 0
ReportsBytes none = Unit
ReportsBytes (some m) = IsBytes m

unfoldable pub RunsOnBytes : {c : Card} {s : Threads} → Reach c s → Type 0
unfolding Bytewise ReportsBytes
RunsOnBytes (begins host_mac eth0 h) = IsBytes host_mac × ReportsBytes eth0
RunsOnBytes (later reach step) = RunsOnBytes reach × Bytewise step

low_byte : (x : ℕ) → bit_and x 0xff < 256
low_byte x = omega (arith, bit_and_low 8 x)

derive_unique_low-IsBytes : (h : ℕ) (m : Array) → IsBytes m → IsBytes (derive_unique_low h m)
unfolding derive_unique_low
derive_unique_low-IsBytes h m b =
    let d : Array =
      update (update (update m 3 (bit_and (h / 2 ^ 16) 0xff)) 4 (bit_and (h / 2 ^ 8) 0xff)) 5
        (bit_and h 0xff) in
    let bytes : IsBytes d =
      update-IsBytes _ 5 _
        (update-IsBytes _ 4 _ (update-IsBytes m 3 _ b (low_byte (h / 2 ^ 16)))
          (low_byte (h / 2 ^ 8)))
        (low_byte h) in
    kept_if IsBytes (mac_low_is_zero d) (update-IsBytes d 5 1 bytes (omega arith)) bytes

low_source-IsBytes :
    (host_mac : Array) (eth0 : Option Array) (h : ℕ)
    → IsBytes host_mac
    → ReportsBytes eth0
    → IsBytes (low_source host_mac eth0 h)
unfolding low_source ethernet_read_iface_mac ReportsBytes
low_source-IsBytes host_mac none h b r =
    kept_if IsBytes (mac_low_is_zero host_mac) (derive_unique_low-IsBytes h host_mac b) b
low_source-IsBytes host_mac (some m) h b r = elim (Bool-cases (mac_low_is_zero m)) [
  | inl e ↦
      rw e (kept_if IsBytes (mac_low_is_zero host_mac) (derive_unique_low-IsBytes h host_mac b) b)
  | inr e ↦ rw e (kept_if IsBytes (mac_low_is_zero host_mac) r b)
]

start_up-Sized :
    (host_mac : Array) (eth0 : Option Array) (h : ℕ) (c : Card)
    → IsBytes host_mac
    → ReportsBytes eth0
    → Sized c
    → Sized (start_up host_mac eth0 h c)
unfolding start_up registers_reset daemon_set_default_mac registers_set_fakemac write_mbx_mac
    mac_set_addresses commodore_mac
start_up-Sized host_mac eth0 h c b r k =
    let low : IsBytes (low_source host_mac eth0 h) = low_source-IsBytes host_mac eth0 h b r in
    let m : IsBytes (commodore_mac (low_source host_mac eth0 h)) =
      update-IsBytes _ 2 _
        (update-IsBytes _ 1 _ (update-IsBytes _ 0 _ low (omega arith)) (omega arith))
        (omega arith) in
    let address : AllBytes (slice (commodore_mac (low_source host_mac eth0 h)) 0 6) =
      (m 0, (m 1, (m 2, (m 3, (m 4, (m 5, tt)))))) in
    publish-Sized _ (record {
      typed = record {
        csr = λ i. ground arith;
        rap = omega arith;
        mode = k.typed.mode;
        ladrf = k.typed.ladrf;
        rlen = k.typed.rlen;
        tlen = k.typed.tlen;
        rdra = k.typed.rdra;
        tdra = k.typed.tdra;
        fakemac = m;
      };
      bytes = record { ram = k.bytes.ram; buffer = k.bytes.buffer; fake = address; real = address };
    })

Step-Sized : {s t : Threads} (step : Step s t) → Bytewise step → Sized s.card → Sized t.card
unfolding Bytewise
Step-Sized {s} (polls stack e) b h = (poll_move-Sized stack b s.poll s.card h).holds _ e
Step-Sized {s} (receives stack rxbuf len e) b h =
    (rx_move-Sized stack b.0 rxbuf len s.rx s.card b.1 h).holds _ e
Step-Sized {s} (stores ram) b h = record {
  typed = record {
    csr = h.typed.csr;
    rap = h.typed.rap;
    mode = h.typed.mode;
    ladrf = h.typed.ladrf;
    rlen = h.typed.rlen;
    tlen = h.typed.tlen;
    rdra = h.typed.rdra;
    tdra = h.typed.tdra;
    fakemac = h.typed.fakemac;
  };
  bytes = record { ram = b; buffer = h.bytes.buffer; fake = h.bytes.fake; real = h.bytes.real };
}
Step-Sized {s} (posts word) b h = slot-Sized s.card _ h

Reach-Sized :
    {c : Card} {s : Threads} (reach : Reach c s) → RunsOnBytes reach → Sized c → Sized s.card
unfolding RunsOnBytes
Reach-Sized {c} (begins host_mac eth0 h) b k = start_up-Sized host_mac eth0 h c b.0 b.1 k
Reach-Sized (later reach step) b k = Step-Sized step b.1 (Reach-Sized reach b.0 k)

-- However the steps of the two threads, the Amiga's writes and the FPGA's commands follow each
-- other, the registers, the mode and the lengths of the rings stay below 2^16, RAP below 128, the
-- filter below 2^64 and the addresses of the rings below 2^32, and the station address, card
-- memory, transmitbuffer and both addresses of the translation hold bytes, if all that was so as
-- the program began and the frames, the stack, the hardware addresses and what the Amiga writes
-- are bytes.
pub reachable_typed :
    {c : Card} {s : Threads} (reach : Reach c s)
    → RunsOnBytes reach
    → Typed c
    → Bytes c
    → Typed s.card × Bytes s.card
reachable_typed reach b t m =
    let h = Reach-Sized reach b (record { typed = t; bytes = m }) in (h.typed, h.bytes)
