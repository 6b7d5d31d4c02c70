-- ===== src/Doorbell/Begin.antt =====
-- How `main` of arm/src/main_doorbell.cpp begins: the socket is opened, and the station address is
-- taken from what the kernel reports of it.
use a.Base.{ℕ, ◌+◌, ◌*◌, ◌^◌, ◌≡◌, refl, ap, ◌∙◌, arith, ◌<◌, true, false}
use a.Base.{List, [], ◌∷◌, Option, some, Array, slice}
use a.Base.{bit_or, bit_or_fields, ◌<<<◌}
use a.Base.Flags.{bit_or_comm}
use a.Card.{Card}
use a.Ram.Bytes.{IsBytes}
use a.Ethernet.{ethernet_send}
use a.Ethernet.Socket.{
  Kernel, Socket, ifr_name, ethernet_open, ethernet_get_mac, connected, is_open, reported,
}
use a.Ethernet.Open.{Binds, ethernet_open_succeeds}
use a.Mac.{mac_set_addresses}
use a.Registers.{registers_set_fakemac, registers_reset}
use a.Doorbell.{rd64, publish, push_csr_shadow, update_int_state}
use a.Doorbell.Station.{
  daemon_set_default_mac, low_source, commodore_mac, mac_low_is_zero, mbx_mac, write_mbx_mac,
}
use a.Doorbell.Startup.{start_up}

-- The daemon goes on without a network when the socket cannot be opened.
unfoldable pub main_begins : Kernel → List ℕ → Option Array → ℕ → Socket → Card → Socket × Card
main_begins k iface eth0 h s c =
    let r = ethernet_open k iface true s in
    (r.1, start_up (ethernet_get_mac r.1) eth0 h (connected r.1 c))

start_up_address :
    (m : Array) (eth0 : Option Array) (h : ℕ) (c : Card)
    → mac_low_is_zero m ≡ false
    → let d = start_up m eth0 h c in
      (slice d.fakemac 0 6 ≡ 0x00 ∷ 0x80 ∷ 0x10 ∷ m 3 ∷ m 4 ∷ m 5 ∷ [])
      × (d.mac.realmac ≡ 0x00 ∷ 0x80 ∷ 0x10 ∷ m 3 ∷ m 4 ∷ m 5 ∷ [])
      × (rd64 0x8028 d ≡ mbx_mac d.fakemac)
      × (d.fakemac 2 ≡ 0x10)
      × (d.fakemac 3 ≡ m 3)
      × (d.fakemac 4 ≡ m 4)
      × (d.fakemac 5 ≡ m 5)
unfolding start_up publish push_csr_shadow update_int_state write_mbx_mac daemon_set_default_mac
    registers_reset registers_set_fakemac commodore_mac mac_set_addresses low_source
start_up_address m eth0 h c e = rw e (refl, refl, refl, refl, refl, refl, refl)

-- The slot in numbers: bit 0 says that it is valid, and the last four bytes of the address stand in
-- the upper half, the first of them lowest.
slot_value :
    (m f : Array)
    → IsBytes m
    → f 2 ≡ 0x10
    → f 3 ≡ m 3
    → f 4 ≡ m 4
    → f 5 ≡ m 5
    → mbx_mac f ≡ 1 + 0x10 * 2 ^ 32 + m 3 * 2 ^ 40 + m 4 * 2 ^ 48 + m 5 * 2 ^ 56
unfolding mbx_mac
slot_value m f w a b c d =
    rw (a, b, c, d)
      (omega (
        arith,
        w 3,
        w 4,
        w 5,
        field 32 1 0x10 (omega arith),
        field 40 (bit_or 1 (0x10 <<< 32)) (m 3),
        field 48 (bit_or (bit_or 1 (0x10 <<< 32)) (m 3 <<< 40)) (m 4),
        field 56 (bit_or (bit_or (bit_or 1 (0x10 <<< 32)) (m 3 <<< 40)) (m 4 <<< 48)) (m 5),
      ))
  where
    field : (k r q : ℕ) → r < 2 ^ k → bit_or r (q <<< k) ≡ q * 2 ^ k + r
    field k r q h = bit_or_comm r (q <<< k) ∙ bit_or_fields k q r h

start_up-sock_open :
    (m : Array) (eth0 : Option Array) (h : ℕ) (c : Card)
    → ((start_up m eth0 h c).sock_open ≡ c.sock_open) × ((start_up m eth0 h c).sent ≡ c.sent)
unfolding start_up publish push_csr_shadow update_int_state write_mbx_mac daemon_set_default_mac
    registers_reset registers_set_fakemac
start_up-sock_open m eth0 h c = (refl, refl)

-- When the kernel gives a socket, knows the interface, binds the socket to it and reports its
-- hardware address, which is bytes with a low half that is not zero, the daemon begins with the
-- Commodore prefix and that low half as the Amiga's address and the one on the wire, the lower 32
-- bits of the MAC slot are one and its upper 32 bits the last four bytes of that address, the
-- first of them lowest, and a frame of a positive length goes to the socket.
pub main_begins_address :
    (k : Kernel) (iface : List ℕ) (eth0 : Option Array) (h : ℕ) (s : Socket) (c : Card)
    (fd ifindex : ℕ) (m frame : Array) (len : ℕ)
    → Binds k iface fd ifindex
    → k.hwaddr (ifr_name k.ifnamsiz iface) ≡ some m
    → IsBytes m
    → mac_low_is_zero m ≡ false
    → 0 < len
    → let d = (main_begins k iface eth0 h s c).1 in
      (slice d.fakemac 0 6 ≡ 0x00 ∷ 0x80 ∷ 0x10 ∷ m 3 ∷ m 4 ∷ m 5 ∷ [])
      × (d.mac.realmac ≡ 0x00 ∷ 0x80 ∷ 0x10 ∷ m 3 ∷ m 4 ∷ m 5 ∷ [])
      × (rd64 0x8028 d ≡ 1 + 0x10 * 2 ^ 32 + m 3 * 2 ^ 40 + m 4 * 2 ^ 48 + m 5 * 2 ^ 56)
      × ((ethernet_send frame len d).sent ≡ slice frame 0 len ∷ c.sent)
unfolding main_begins connected reported ethernet_send is_open
main_begins_address k iface eth0 h s c fd i m frame len b e w n l =
    let r : ℕ × Socket = ethernet_open k iface true s in
    let o = ethernet_open_succeeds k iface true s fd i frame len c b l in
    let own : ethernet_get_mac r.1 ≡ m = o.3 ∙ ap reported e in
    let d : Card = connected r.1 c in
    let f = start_up_address m eth0 h d n in
    let g = start_up-sock_open m eth0 h d in
    rw own (
      f.0,
      f.1,
      f.2 ∙ slot_value m (start_up m eth0 h d).fakemac w f.3 f.4 f.5 f.6,
      ground (arith, g.0, g.1, o.1),
    )
