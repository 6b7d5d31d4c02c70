-- ===== src/Ethernet/Open.antt =====
-- What `ethernet_open` of arm/src/ethernet.cpp promises, whatever the kernel answers.
use a.Base.{
  ℕ, ◌≡◌, refl, arith, ◌==◌, if◌then◌else◌, Bool, true, Bool-cases, inl, inr, ap, ◌⊎◌, ◌≢◌,
}
use a.Base.{slice, ◌<◌, List, [], ◌∷◌, Option, none, some, Array, ◌∙◌}
use a.Card.{Card}
use a.Ethernet.{ethernet_send}
use a.Ethernet.Socket.{
  Call, opened, closed, Kernel, Socket, call, give_up, read_hwaddr, bring_up, bind_to, ifr_name,
  open_at, open_on, ethernet_open, close_socket, ethernet_recv, is_open, connected,
  ethernet_get_mac, reported, no_socket,
}

without : ℕ → List ℕ → List ℕ
without fd [] = []
without fd (x ∷ l) = if fd == x then l else x ∷ without fd l

-- The descriptors that the calls have opened and not closed.
unfoldable pub held : List Call → List ℕ
unfolding without
held [] = []
held (opened fd ∷ l) = fd ∷ held l
held (closed fd ∷ l) = without fd (held l)
held (_ ∷ l) = held l

unfoldable pub descriptors : Option ℕ → List ℕ
descriptors none = []
descriptors (some fd) = fd ∷ []

-- The socket is opened on `fd`, bound to the interface of that index.
pub record Binds (k : Kernel) (iface : List ℕ) (fd ifindex : ℕ) : Type 0 where
  pub socket : k.socket ≡ some fd
  pub index : k.ifindex (ifr_name k.ifnamsiz iface) ≡ some ifindex
  pub binds : k.binds fd ifindex ≡ true

bring_up-held :
    (k : Kernel) (name : List ℕ) (s : Socket)
    → (held (bring_up k name s).calls ≡ held s.calls)
      × ((bring_up k name s).sock_fd ≡ s.sock_fd)
      × ((bring_up k name s).host_mac ≡ s.host_mac)
unfolding bring_up call held
bring_up-held k name s = ground arith

Option-cases {ℓ} : {A : Type ℓ} (o : Option A) → (o ≡ none) ⊎ ((a : A) × (o ≡ some a))
Option-cases none = inl refl
Option-cases (some a) = inr (a, refl)

-- The outcome of `bind_to`.
record Outcome (done : Bool) (fd : ℕ) (s : Socket) (r : ℕ × Socket) : Type 0 where
  result : r.0 ≡ (if done then 1 else 0)
  sock_fd : r.1.sock_fd ≡ (if done then some fd else none)
  host_mac : r.1.host_mac ≡ s.host_mac
  calls : held r.1.calls ≡ (if done then held s.calls else without fd (held s.calls))

bind_to-Outcome :
    (k : Kernel) (name : List ℕ) (p : Bool) (fd i : ℕ) (s : Socket)
    → s.sock_fd ≡ some fd
    → Outcome (k.binds fd i) fd (read_hwaddr k name s) (bind_to k name p fd i s)
unfolding bind_to read_hwaddr give_up call held
bind_to-Outcome k name p fd i s h =
    let b = bring_up-held k name (read_hwaddr k name s) in
    elim (Bool-cases (k.binds fd i)) [
      | inl e ↦ rw e (record {
        result = refl;
        sock_fd = ground (arith, b.1);
        host_mac = ground (arith, b.2);
        calls = ground (arith, b.0);
      })
      | inr e ↦
          rw e
            (record { result = refl; sock_fd = refl; host_mac = b.2; calls = ground (arith, b.0) })
    ]

abbrev fresh : ℕ → Socket → Socket
fresh fd s = record (call (Call.opened fd) s) { sock_fd = some fd }

reaches_bind :
    (k : Kernel) (iface : List ℕ) (p : Bool) (s : Socket) (fd i : ℕ)
    → k.socket ≡ some fd
    → k.ifindex (ifr_name k.ifnamsiz iface) ≡ some i
    → ethernet_open k iface p s ≡ bind_to k (ifr_name k.ifnamsiz iface) p fd i (fresh fd s)
unfolding ethernet_open open_on open_at
reaches_bind k iface p s fd i g h =
    let name : List ℕ = ifr_name k.ifnamsiz iface in
    ap (λ o. open_on k name p o s) g ∙ ap (λ o. open_at k name p fd o (fresh fd s)) h

-- When the kernel gives a socket, knows the interface and binds the socket to it, ethernet_open
-- returns 1, holds that descriptor and no other new one, has the address that the kernel reports
-- or zeros, and hands the next frame of a positive length over.
pub ethernet_open_succeeds :
    (k : Kernel) (iface : List ℕ) (promiscuous : Bool) (s : Socket) (fd ifindex : ℕ) (frame : Array)
    (len : ℕ) (c : Card)
    → Binds k iface fd ifindex
    → 0 < len
    → let r = ethernet_open k iface promiscuous s in
      (r.0 ≡ 1)
      × (r.1.sock_fd ≡ some fd)
      × (held r.1.calls ≡ fd ∷ held s.calls)
      × (ethernet_get_mac r.1 ≡ reported (k.hwaddr (ifr_name k.ifnamsiz iface)))
      × ((ethernet_send frame len (connected r.1 c)).sent ≡ slice frame 0 len ∷ c.sent)
unfolding connected ethernet_send call held ethernet_get_mac is_open read_hwaddr
ethernet_open_succeeds k iface p s fd i frame len c b l =
    let name : List ℕ = ifr_name k.ifnamsiz iface in
    let o : Outcome (k.binds fd i) fd (read_hwaddr k name (fresh fd s))
        (bind_to k name p fd i (fresh fd s)) =
      bind_to-Outcome k name p fd i (fresh fd s) refl in
    rw (reaches_bind k iface p s fd i b.socket b.index)
      (ground (arith, b.binds, o.result, o.sock_fd, o.calls, o.host_mac))

-- The two outcomes of `ethernet_open`.
record Opens (s : Socket) (r : ℕ × Socket) : Type 0 where
  fd : ℕ
  result : r.0 ≡ 1
  sock_fd : r.1.sock_fd ≡ some fd
  calls : held r.1.calls ≡ fd ∷ held s.calls

record Fails (s : Socket) (r : ℕ × Socket) : Type 0 where
  result : r.0 ≡ 0
  sock_fd : r.1.sock_fd ≡ none
  calls : held r.1.calls ≡ held s.calls

without_head : (fd : ℕ) (l : List ℕ) → without fd (fd ∷ l) ≡ l
unfolding without
without_head fd l = ground arith

bind_to-cases :
    (k : Kernel) (name : List ℕ) (p : Bool) (fd i : ℕ) (s : Socket)
    → Opens s (bind_to k name p fd i (fresh fd s)) ⊎ Fails s (bind_to k name p fd i (fresh fd s))
unfolding read_hwaddr call held
bind_to-cases k name p fd i s =
    let o : Outcome (k.binds fd i) fd (read_hwaddr k name (fresh fd s))
        (bind_to k name p fd i (fresh fd s)) =
      bind_to-Outcome k name p fd i (fresh fd s) refl in
    elim (Bool-cases (k.binds fd i)) [
      | inl e ↦ inl (record {
        fd = fd;
        result = ground (arith, e, o.result);
        sock_fd = ground (arith, e, o.sock_fd);
        calls = ground (arith, e, o.calls);
      })
      | inr e ↦ inr (record {
        result = ground (arith, e, o.result);
        sock_fd = ground (arith, e, o.sock_fd);
        calls = ground (arith, e, o.calls, without_head fd (held s.calls));
      })
    ]

open_at-cases :
    (k : Kernel) (name : List ℕ) (p : Bool) (fd : ℕ) (i : Option ℕ) (s : Socket)
    → Opens s (open_at k name p fd i (fresh fd s)) ⊎ Fails s (open_at k name p fd i (fresh fd s))
unfolding open_at give_up call held
open_at-cases k name p fd none s =
    inr (record { result = refl; sock_fd = refl; calls = without_head fd (held s.calls) })
open_at-cases k name p fd (some i) s = bind_to-cases k name p fd i s

open_on-cases :
    (k : Kernel) (name : List ℕ) (p : Bool) (o : Option ℕ) (s : Socket)
    → Opens s (open_on k name p o s) ⊎ Fails s (open_on k name p o s)
unfolding open_on
open_on-cases k name p none s = inr (record { result = refl; sock_fd = refl; calls = refl })
open_on-cases k name p (some fd) s = open_at-cases k name p fd (k.ifindex name) s

ethernet_open-cases :
    (k : Kernel) (iface : List ℕ) (p : Bool) (s : Socket)
    → Opens s (ethernet_open k iface p s) ⊎ Fails s (ethernet_open k iface p s)
unfolding ethernet_open
ethernet_open-cases k iface p s = open_on-cases k (ifr_name k.ifnamsiz iface) p k.socket s

-- When ethernet_open does not return 1 it returns 0, every descriptor that it opened is closed
-- again, a frame that is sent afterwards goes nowhere, and nothing is received.
pub ethernet_open_fails :
    (k : Kernel) (iface : List ℕ) (promiscuous : Bool) (s : Socket) (frame : Array) (len : ℕ)
    (answer : Option (Array × ℕ)) (c : Card)
    → (ethernet_open k iface promiscuous s).0 ≢ 1
    → let r = ethernet_open k iface promiscuous s in
      (r.0 ≡ 0)
      × (held r.1.calls ≡ held s.calls)
      × (ethernet_send frame len (connected r.1 c) ≡ connected r.1 c)
      × (ethernet_recv answer r.1 ≡ none)
unfolding ethernet_recv connected ethernet_send is_open
ethernet_open_fails k iface p s frame len answer c ne = elim (ethernet_open-cases k iface p s) [
  | inl o ↦ absurd (ne o.result)
  | inr f ↦ rw (f.sock_fd) (f.result, f.calls, refl, refl)
]

-- The sockets that the program can have: it opens one only while it has none.
pub data Uses : Socket → Type 0 where
  begins : Uses no_socket
  opens :
      (k : Kernel) (iface : List ℕ) (promiscuous : Bool) {s : Socket}
      → s.sock_fd ≡ none
      → Uses s
      → Uses (ethernet_open k iface promiscuous s).1
  closes : {s : Socket} → Uses s → Uses (close_socket s)

closed-held :
    (o : Option ℕ) (s : Socket)
    → s.sock_fd ≡ o
    → held s.calls ≡ descriptors o
    → held (close_socket s).calls ≡ descriptors (close_socket s).sock_fd
unfolding close_socket descriptors give_up call held
closed-held none s e h = ground (arith, e, h)
closed-held (some fd) s e h = ground (arith, e, h, without_head fd [])

-- However often the program opens and closes its socket, and whatever the kernel answers, the
-- descriptors it has opened and not closed are the one in sock_fd, if there is one; it opens one
-- only while it has none.
pub held_descriptors : {s : Socket} → Uses s → held s.calls ≡ descriptors s.sock_fd
unfolding descriptors held
held_descriptors begins = refl
held_descriptors (opens k iface p {s} e u) = elim (ethernet_open-cases k iface p s) [
  | inl o ↦ ground (arith, o.sock_fd, o.calls, held_descriptors u, e)
  | inr f ↦ ground (arith, f.sock_fd, f.calls, held_descriptors u, e)
]
held_descriptors (closes {s} u) = closed-held s.sock_fd s refl (held_descriptors u)
