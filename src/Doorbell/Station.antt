-- ===== src/Doorbell/Station.antt =====
-- How the daemon of arm/src/main_doorbell.cpp chooses the station address. The hardware addresses
-- that the kernel reports, the host name, the process number and the time come from outside.
use a.Base.{ℕ, ◌*◌, ◌/◌, ◌^◌, ◌≡◌, refl, arith, ◌==◌, if◌then◌else◌, Bool, false}
use a.Base.{
  List, [], ◌∷◌, Option, none, some, Array, update, slice, bit_and, bit_or, bit_xor, u32, ◌<<<◌,
  ◌>>>◌,
}
use a.Base.Flags.{bit_or-eq-zero}
use a.Types.{commodore_oui0, commodore_oui1, commodore_oui2}
use a.Mac.{mac_set_addresses}
use a.Card.{Card}
use a.Registers.{registers_set_fakemac}
use a.Doorbell.{ddr3_mac_off, wr64}

unfoldable pub mac_low_is_zero : Array → Bool
mac_low_is_zero m = bit_or (bit_or (m 3) (m 4)) (m 5) == 0

-- `ethernet_read_iface_mac` of arm/src/ethernet.cpp: the kernel's answer, if its low half is not
-- zero.
unfoldable pub ethernet_read_iface_mac : Option Array → Option Array
unfolding mac_low_is_zero
ethernet_read_iface_mac none = none
ethernet_read_iface_mac (some m) = if mac_low_is_zero m then none else some m

-- FNV-1a over the bytes of the host name.
unfoldable pub fnv_loop : ℕ → List ℕ → ℕ
fnv_loop h [] = h
fnv_loop h (x ∷ host) = fnv_loop (u32 (bit_xor h x * 16777619)) host

unfoldable pub unique_hash : List ℕ → ℕ → ℕ → ℕ
unfolding fnv_loop
unique_hash host pid time = bit_xor (bit_xor (fnv_loop 2166136261 host) (u32 pid)) (u32 time)

unfoldable pub derive_unique_low : ℕ → Array → Array
unfolding mac_low_is_zero
derive_unique_low h m =
    let d =
      update (update (update m 3 (bit_and (h >>> 16) 0xff)) 4 (bit_and (h >>> 8) 0xff)) 5
        (bit_and h 0xff) in
    if mac_low_is_zero d then update d 5 0x01 else d

-- The address that the low half is taken from: the selected interface, else eth0, else a hash.
unfoldable pub low_source : Array → Option Array → ℕ → Array
unfolding mac_low_is_zero ethernet_read_iface_mac derive_unique_low
low_source host_mac eth0 h =
    let other : Array = elim (ethernet_read_iface_mac eth0) [
      | none ↦ derive_unique_low h host_mac
      | some fb ↦ fb
    ] in
    if mac_low_is_zero host_mac then other else host_mac

-- The Commodore prefix before the low half of `m`.
unfoldable pub commodore_mac : Array → Array
commodore_mac m = update (update (update m 0 commodore_oui0) 1 commodore_oui1) 2 commodore_oui2

-- Both addresses begin as the same one; the Amiga's is replaced when the chip is initialized.
unfoldable pub daemon_set_default_mac : Array → Option Array → ℕ → Card → Card
unfolding low_source commodore_mac
daemon_set_default_mac host_mac eth0 h c =
    let m = commodore_mac (low_source host_mac eth0 h) in
    registers_set_fakemac m (record c { mac = mac_set_addresses (slice m 0 6) (slice m 0 6) c.mac })

unfoldable pub mbx_mac : Array → ℕ
mbx_mac m = bit_or (bit_or (bit_or (bit_or 1 (m 2 <<< 32)) (m 3 <<< 40)) (m 4 <<< 48)) (m 5 <<< 56)

unfoldable pub write_mbx_mac : Array → Card → Card
unfolding mbx_mac
write_mbx_mac fakemac c = wr64 ddr3_mac_off (mbx_mac fakemac) c

derive_unique_low_ne : (h : ℕ) (m : Array) → mac_low_is_zero (derive_unique_low h m) ≡ false
unfolding derive_unique_low mac_low_is_zero
derive_unique_low_ne h m =
    ground (arith, bit_or-eq-zero (bit_or (bit_and (h / 2 ^ 16) 0xff) (bit_and (h / 2 ^ 8) 0xff)) 1)

low_source_ne :
    (host_mac : Array) (eth0 : Option Array) (h : ℕ)
    → mac_low_is_zero (low_source host_mac eth0 h) ≡ false
unfolding low_source ethernet_read_iface_mac
low_source_ne host_mac none h = ground (arith, derive_unique_low_ne h host_mac)
low_source_ne host_mac (some m) h = ground (arith, derive_unique_low_ne h host_mac)

-- Whatever the kernel reports and whatever the hash is, the station address has the Commodore
-- prefix and a low half that is not zero, and the Amiga's address and the one on the wire begin
-- as that same address.
pub daemon_set_default_mac_lem :
    (host_mac : Array) (eth0 : Option Array) (h : ℕ) (c : Card)
    → let d = daemon_set_default_mac host_mac eth0 h c in
      (slice d.fakemac 0 3 ≡ 0x00 ∷ 0x80 ∷ 0x10 ∷ [])
      × (mac_low_is_zero d.fakemac ≡ false)
      × (d.mac.fakemac ≡ slice d.fakemac 0 6)
      × (d.mac.realmac ≡ slice d.fakemac 0 6)
unfolding daemon_set_default_mac commodore_mac mac_set_addresses registers_set_fakemac
daemon_set_default_mac_lem host_mac eth0 h c =
    (refl, unfold mac_low_is_zero in low_source_ne host_mac eth0 h, refl, refl)
