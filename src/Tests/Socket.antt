-- ===== src/Tests/Socket.antt =====
-- The socket with a kernel that has one interface, brought up or not bound.
use a.Base.{ℕ, ◌+◌, ◌*◌, ◌%◌, ◌^◌, has, ◌≡◌, refl, arith, Bool, true, false}
use a.Base.{List, [], ◌∷◌, none, some, Array, slice}
use a.Card.{Card}
use a.Ethernet.{ethernet_send}
use a.Ethernet.Socket.{
  Call, Kernel, Socket, ifr_name, ethernet_open, open_on, open_at, bind_to, read_hwaddr, bring_up,
  call, give_up, close_socket, ethernet_recv, ethernet_get_mac, connected, no_socket,
}
use a.Ethernet.Open.{
  Binds, ethernet_open_fails, begins, opens, closes, held_descriptors, held, descriptors,
}
use a.Bridge.{start_up}
use a.Doorbell.{rd64}
use a.Doorbell.Station.{mac_low_is_zero}
use a.Doorbell.Begin.{main_begins, main_begins_address}
use a.Bridge.Begin.{wire_address_zero, main_socket}
use a.Bridge.Begin as Older
use a.Ram.Bytes.{IsBytes}
use a.Tests.Data.{card, zeros}

-- eth1, which is down
abbrev eth1 : List ℕ
eth1 = 0x65 ∷ 0x74 ∷ 0x68 ∷ 0x31 ∷ []

abbrev nic : Array
nic i = (i + 1) % 256

abbrev kernel : Bool → Kernel
kernel b = record {
  ifnamsiz = 16;
  iff_up = 1;
  socket = some 3;
  ifindex = λ name. some 2;
  hwaddr = λ name. some nic;
  ifflags = λ name. some 0x1002;
  sets_flags = λ name flags. true;
  binds = λ fd ifindex. b;
}

bound_eth1 : Binds (kernel true) eth1 3 2
bound_eth1 = record { socket = refl; index = refl; binds = refl }

-- The calls of a run, the latest first.
calls_eth1 :
    (ethernet_open (kernel true) eth1 true no_socket).1.calls
    ≡ Call.joined 3 2 ∷ Call.bound 3 2 ∷ Call.flags_set eth1 0x1003 ∷ Call.opened 3 ∷ []
unfolding ethernet_open open_on open_at bind_to read_hwaddr bring_up call ifr_name has
calls_eth1 = refl

refused : (ethernet_open (kernel false) eth1 true no_socket).0 ≡ 0
unfolding ethernet_open open_on open_at bind_to give_up
refused = refl

ethernet_open_fails_example :
    let r = ethernet_open (kernel false) eth1 true no_socket in
    (r.0 ≡ 0)
    × (held r.1.calls ≡ held no_socket.calls)
    × (ethernet_send zeros 60 (connected r.1 card) ≡ connected r.1 card)
    × (ethernet_recv (some (zeros, 60)) r.1 ≡ none)
ethernet_open_fails_example =
    ethernet_open_fails (kernel false) eth1 true no_socket zeros 60 (some (zeros, 60)) card
      (λ e. absurd (ground (arith, e, refused)))

abbrev opened_and_closed : Socket
opened_and_closed = close_socket (ethernet_open (kernel true) eth1 false no_socket).1

held_descriptors_example : held opened_and_closed.calls ≡ descriptors opened_and_closed.sock_fd
held_descriptors_example = held_descriptors (closes (opens (kernel true) eth1 false refl begins))

nic_low : mac_low_is_zero nic ≡ false
unfolding mac_low_is_zero
nic_low = refl

nic-IsBytes : IsBytes nic
nic-IsBytes i = ground arith

main_begins_address_example :
    let d = (main_begins (kernel true) eth1 none 0 no_socket card).1 in
    (slice d.fakemac 0 6 ≡ 0x00 ∷ 0x80 ∷ 0x10 ∷ 4 ∷ 5 ∷ 6 ∷ [])
    × (d.mac.realmac ≡ 0x00 ∷ 0x80 ∷ 0x10 ∷ 4 ∷ 5 ∷ 6 ∷ [])
    × (rd64 0x8028 d ≡ 1 + 0x10 * 2 ^ 32 + 4 * 2 ^ 40 + 5 * 2 ^ 48 + 6 * 2 ^ 56)
    × ((ethernet_send zeros 60 d).sent ≡ slice zeros 0 60 ∷ card.sent)
main_begins_address_example =
    main_begins_address (kernel true) eth1 none 0 no_socket card 3 2 nic zeros 60 bound_eth1 refl
      nic-IsBytes nic_low (omega arith)

abbrev opened_eth1 : Socket
opened_eth1 = (ethernet_open (kernel true) eth1 false no_socket).1

abbrev begun : Card
begun = connected opened_eth1 (start_up zeros card)

goes_on : Older.main_begins (kernel true) false eth1 no_socket card ≡ some (opened_eth1, begun)
unfolding Older.main_begins main_socket ethernet_open open_on open_at bind_to ethernet_get_mac
goes_on = refl

wire_address_zero_example :
    (slice begun.fakemac 0 6 ≡ 0x00 ∷ 0x80 ∷ 0x10 ∷ 0 ∷ 0 ∷ 0 ∷ [])
    × (begun.mac.realmac ≡ 0x00 ∷ 0x80 ∷ 0x10 ∷ 0 ∷ 0 ∷ 0 ∷ [])
wire_address_zero_example = wire_address_zero (kernel true) false eth1 card goes_on
