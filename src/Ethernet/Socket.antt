-- ===== src/Ethernet/Socket.antt =====
-- arm/src/ethernet.cpp: the socket itself. What the kernel answers to each call is a parameter;
-- the calls that are made of it are kept in their order.
use a.Base.{ℕ, zero, suc, if◌then◌else◌, Bool, true, false}
use a.Base.{List, [], ◌∷◌, Option, none, some, Array, bit_or, has}
use a.Card.{Card}

-- The calls with an effect outside the process.
pub data Call : Type 0 where
  opened : (fd : ℕ) → Call
  closed : (fd : ℕ) → Call
  flags_set : (name : List ℕ) (flags : ℕ) → Call
  bound : (fd ifindex : ℕ) → Call
  joined : (fd ifindex : ℕ) → Call

-- The constants of the system's headers, and its answers: `none` and `false` are a result below
-- zero. A name is the bytes before its zero.
pub record Kernel : Type 0 where
  pub ifnamsiz : ℕ
  pub iff_up : ℕ
  pub socket : Option ℕ
  pub ifindex : List ℕ → Option ℕ
  pub hwaddr : List ℕ → Option Array
  pub ifflags : List ℕ → Option ℕ
  pub sets_flags : List ℕ → ℕ → Bool
  pub binds : ℕ → ℕ → Bool

-- `sock_fd`, with `none` for -1, `host_mac`, and the calls that were made, the latest first.
pub record Socket : Type 0 where
  pub sock_fd : Option ℕ
  pub host_mac : Array
  pub calls : List Call

-- `strncpy(ifr_name, iface, IFNAMSIZ - 1)` and the zero behind it.
unfoldable pub ifr_name : ℕ → List ℕ → List ℕ
ifr_name zero iface = []
ifr_name (suc zero) iface = []
ifr_name (suc (suc n)) [] = []
ifr_name (suc (suc n)) (x ∷ iface) = x ∷ ifr_name (suc n) iface

unfoldable pub call : Call → Socket → Socket
call e s = record s { calls = e ∷ s.calls }

-- `close(sock_fd); sock_fd = -1`
unfoldable pub give_up : ℕ → Socket → Socket
unfolding call
give_up fd s = record (call (Call.closed fd) s) { sock_fd = none }

-- The bytes that `ethernet_open` leaves in `host_mac`.
unfoldable pub reported : Option Array → Array
reported none = λ i. 0
reported (some m) = m

unfoldable pub read_hwaddr : Kernel → List ℕ → Socket → Socket
unfolding reported
read_hwaddr k name s = record s { host_mac = reported (k.hwaddr name) }

-- SIOCSIFFLAGS is tried whether it succeeds or not.
unfoldable pub bring_up : Kernel → List ℕ → Socket → Socket
unfolding call
bring_up k name s = elim (k.ifflags name) [
  | none ↦ s
  | some flags ↦
      if has flags k.iff_up then s else call (Call.flags_set name (bit_or flags k.iff_up)) s
]

-- The rest of `ethernet_open`, from the bytes of the hardware address on.
unfoldable pub bind_to : Kernel → List ℕ → Bool → ℕ → ℕ → Socket → ℕ × Socket
unfolding call give_up read_hwaddr bring_up
bind_to k name promiscuous fd ifindex s =
    let ready = call (Call.bound fd ifindex) (bring_up k name (read_hwaddr k name s)) in
    if k.binds fd ifindex
    then (1, if promiscuous then call (Call.joined fd ifindex) ready else ready)
    else (0, give_up fd ready)

-- `ethernet_open` from its second and its first test on.
unfoldable pub open_at : Kernel → List ℕ → Bool → ℕ → Option ℕ → Socket → ℕ × Socket
unfolding give_up bind_to
open_at k name promiscuous fd none s = (0, give_up fd s)
open_at k name promiscuous fd (some ifindex) s = bind_to k name promiscuous fd ifindex s

unfoldable pub open_on : Kernel → List ℕ → Bool → Option ℕ → Socket → ℕ × Socket
unfolding call open_at
open_on k name promiscuous none s = (0, record s { sock_fd = none })
open_on k name promiscuous (some fd) s =
    open_at k name promiscuous fd (k.ifindex name)
      (record (call (Call.opened fd) s) { sock_fd = some fd })

unfoldable pub ethernet_open : Kernel → List ℕ → Bool → Socket → ℕ × Socket
unfolding ifr_name open_on
ethernet_open k iface promiscuous s = open_on k (ifr_name k.ifnamsiz iface) promiscuous k.socket s

unfoldable pub close_socket : Socket → Socket
unfolding give_up
close_socket s = elim s.sock_fd [ none ↦ s | some fd ↦ give_up fd s ]

unfoldable pub is_open : Option ℕ → Bool
is_open none = false
is_open (some fd) = true

-- `answer` is what `recv` delivers, `none` for a result below zero.
unfoldable pub ethernet_recv : Option (Array × ℕ) → Socket → Option (Array × ℕ)
unfolding is_open
ethernet_recv answer s = if is_open s.sock_fd then answer else none

unfoldable pub ethernet_get_mac : Socket → Array
ethernet_get_mac s = s.host_mac

-- The card with the socket as it stands.
unfoldable pub connected : Socket → Card → Card
unfolding is_open
connected s c = record c { sock_open = is_open s.sock_fd }

-- As the program begins.
abbrev pub no_socket : Socket
no_socket = record { sock_fd = none; host_mac = λ i. 0; calls = [] }
