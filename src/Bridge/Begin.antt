-- ===== src/Bridge/Begin.antt =====
-- How `main` of arm/src/main.cpp begins: the station address is chosen before the socket is opened.
use a.Base.{ℕ, ◌≡◌, refl, ◌==◌, if◌then◌else◌, Bool, true, false}
use a.Base.{List, [], ◌∷◌, Option, none, some, Array, slice}
use a.Base.{OnSome, OnSome-some, OnSome-none, kept_if}
use a.Card.{Card}
use a.Ethernet.Socket.{Kernel, Socket, ethernet_open, ethernet_get_mac, connected, no_socket}
use a.Mac.{mac_set_addresses}
use a.Registers.{registers_set_fakemac}
use a.Doorbell.Station.{commodore_mac}
use a.Bridge.{start_up, daemon_set_default_mac}

-- The socket that `main` goes on with, and whether it goes on.
unfoldable pub main_socket : Kernel → Bool → List ℕ → Socket → ℕ × Socket
main_socket k sim_mode iface s = if sim_mode then (1, s) else ethernet_open k iface false s

-- `none` is the return of 1 when the socket cannot be opened.
unfoldable pub main_begins : Kernel → Bool → List ℕ → Socket → Card → Option (Socket × Card)
unfolding main_socket
main_begins k sim_mode iface s c =
    let host_mac : Array = if sim_mode then (λ i. 0) else ethernet_get_mac s in
    let r = main_socket k sim_mode iface s in
    if r.0 == 0 then none else some (r.1, connected r.1 (start_up host_mac c))

record Zeroed (d : Card) : Type 0 where
  amiga : slice d.fakemac 0 6 ≡ 0x00 ∷ 0x80 ∷ 0x10 ∷ 0 ∷ 0 ∷ 0 ∷ []
  wire : d.mac.realmac ≡ 0x00 ∷ 0x80 ∷ 0x10 ∷ 0 ∷ 0 ∷ 0 ∷ []

start_up-Zeroed : (t : Socket) (c : Card) → Zeroed (connected t (start_up (λ i. 0) c))
unfolding start_up daemon_set_default_mac commodore_mac mac_set_addresses connected
    registers_set_fakemac
start_up-Zeroed t c = record { amiga = refl; wire = refl }

goes_on-Zeroed :
    (r : ℕ × Socket) (c : Card)
    → OnSome
        (λ (s : Socket × Card). Zeroed s.1)
        (if r.0 == 0 then none else some (r.1, connected r.1 (start_up (λ i. 0) c)))
goes_on-Zeroed r c =
    kept_if (OnSome (λ (s : Socket × Card). Zeroed s.1)) (r.0 == 0) OnSome-none
      (OnSome-some (start_up-Zeroed r.1 c))

main_begins-Zeroed :
    (k : Kernel) (sim_mode : Bool) (iface : List ℕ) (c : Card)
    → OnSome (λ (s : Socket × Card). Zeroed s.1) (main_begins k sim_mode iface no_socket c)
unfolding main_begins ethernet_get_mac
main_begins-Zeroed k true iface c = goes_on-Zeroed (main_socket k true iface no_socket) c
main_begins-Zeroed k false iface c = goes_on-Zeroed (main_socket k false iface no_socket) c

-- Whatever the kernel reports, when the daemon of the older transport goes on from its beginning
-- both the Amiga's address and the one on the wire are 00:80:10:00:00:00, with or without the
-- simulation.
pub wire_address_zero :
    (k : Kernel) (sim_mode : Bool) (iface : List ℕ) (c : Card) {t : Socket} {d : Card}
    → main_begins k sim_mode iface no_socket c ≡ some (t, d)
    → (slice d.fakemac 0 6 ≡ 0x00 ∷ 0x80 ∷ 0x10 ∷ 0 ∷ 0 ∷ 0 ∷ [])
      × (d.mac.realmac ≡ 0x00 ∷ 0x80 ∷ 0x10 ∷ 0 ∷ 0 ∷ 0 ∷ [])
wire_address_zero k sim_mode iface c {t} {d} e =
    let z : Zeroed d = (main_begins-Zeroed k sim_mode iface c).holds (t, d) e in (z.amiga, z.wire)
