-- ===== src/Mac.antt =====
-- arm/src/mac.cpp: the station address of the Amiga (fakemac) and the address on the wire
-- (realmac) are exchanged in every frame. A packet is the array behind the `uint8_t *packet`;
-- it has MAX_PACKET_SIZE bytes in both callers, and `none` is an access past that end. Only the
-- UDP length can lead there: every other index is below 130.
pub mod Swap
pub mod Frames
pub mod Checksum
pub mod Receiver
pub mod Dhcp
pub mod Bytes
use a.Base.{ℕ, zero, suc, ◌+◌, ◌-◌, ◌*◌, ◌/◌, ◌%◌, ◌==◌, ltb, leb, if◌then◌else◌, Bool, true, false}
use a.Base.{
  not, ◌&&◌, ◌||◌, Option, none, some, List, Array, ◌>>=◌, update, slice, memcpy, memcmp_eq,
}
use a.Base.{bit_and, bit_or, bit_xor, u8, u32, ◌<<<◌, ◌>>>◌}
use a.Types.{max_packet_size}

-- The two static addresses, six bytes each.
pub record MacUnit : Type 0 where
  pub fakemac : List ℕ
  pub realmac : List ℕ

unfoldable pub mac_set_addresses : List ℕ → List ℕ → MacUnit → MacUnit
mac_set_addresses fake real u = record { fakemac = fake; realmac = real }

unfoldable pub mac_set_fakemac : List ℕ → MacUnit → MacUnit
mac_set_fakemac fake u = record u { fakemac = fake }

-- A big-endian 16-bit field.
abbrev pub word_at : Array → ℕ → ℕ
word_at p i = bit_or (p i <<< 8) (p (i + 1))

module _ (u : MacUnit) where
  open u use {fakemac, realmac}

  -- The result says whether the block at `i` counts as an address of this card.
  unfoldable pub dofakemac : Array → ℕ → Bool × Array
  dofakemac p i =
      if memcmp_eq fakemac realmac
      then (true, p)
      else if memcmp_eq (slice p i 6) fakemac
      then (true, memcpy p i realmac)
      else if memcmp_eq (slice p i 6) realmac
      then (true, memcpy p i fakemac)
      else (false, p)

  -- The packet after `dofakemac(packet + i)`, where the result is not looked at.
  abbrev pub swap : ℕ → Array → Array
  swap i p = (dofakemac p i).1

  -- The branch for ARP: hardware type Ethernet, and addresses of six bytes.
  unfoldable pub munge_arp : Array → Array
  munge_arp p =
      if (word_at p 14 == 1) && (p (14 + 4) == 6)
      then swap (14 + 8 + 6 + 4) (swap (14 + 8) p)
      else p

-- The words of `data[0 .. 2 * n)` are added from word `i` on.
unfoldable pub sum_words : Array → ℕ → ℕ → ℕ → ℕ → ℕ
sum_words p at i zero sum = sum
sum_words p at i (suc n) sum = sum_words p at (i + 1) n (u32 (sum + word_at p (at + 2 * i)))

-- `while (sum >> 16) sum = (sum & 0xFFFF) + (sum >> 16)`; three rounds are more than it makes.
unfoldable pub fold_sum : ℕ → ℕ → ℕ
fold_sum zero sum = sum
fold_sum (suc fuel) sum =
    let rest = fold_sum fuel (bit_and sum 0xffff + (sum >>> 16)) in
    if sum >>> 16 == 0 then sum else rest

-- The sum of the checksummed words of the UDP datagram at `at` in the IPv4 packet at 14,
-- pseudo-header included.
unfoldable pub udp_sum : Array → ℕ → ℕ → ℕ
udp_sum p at len2 =
    let body = sum_words p at 0 ((len2 + 1) / 2) 0 in
    let src = u32 (u32 (body + word_at p (14 + 12)) + word_at p (14 + 14)) in
    let dst = u32 (u32 (src + word_at p (14 + 16)) + word_at p (14 + 18)) in
    u32 (u32 (dst + 17) + len2)

-- `sum = ~sum; if (sum == 0) sum = 0xffff`
unfoldable pub checksum_of : ℕ → ℕ
checksum_of sum =
    let flipped = bit_xor (fold_sum 3 sum) 0xffff_ffff in if flipped == 0 then 0xffff else flipped

-- `data[6] = data[7] = 0; data[len2] = 0`
unfoldable pub clear_sum : Array → ℕ → ℕ → Array
clear_sum p at len2 = update (update (update p (at + 7) 0) (at + 6) 0) (at + len2) 0

-- The UDP checksum of the datagram at `at` is computed anew.
unfoldable pub recalculate : Array → ℕ → ℕ → Option Array
recalculate p at len2 =
    let cleared = clear_sum p at len2 in
    let sum = checksum_of (udp_sum cleared at len2) in
    if ltb (at + len2) max_packet_size
    then some (update (update cleared (at + 6) (u8 (sum >>> 8))) (at + 7) (u8 sum))
    else none

module _ (u : MacUnit) where
  -- The branch for UDP over IPv4; `at` is the index of the UDP header. CHADDR is looked at when
  -- one of the ports is a DHCP port.
  unfoldable pub munge_udp : Array → ℕ → Option Array
  munge_udp p at =
      let sp = word_at p at in
      let dp = word_at p (at + 2) in
      let len2 = word_at p (at + 4) in
      let dhcp = ((sp == 67) || (sp == 68)) || ((dp == 67) || (dp == 68)) in
      let (udpcrc, q) = if dhcp then dofakemac u p (at + 8 + 28) else (false, p) in
      if udpcrc && (not (q (at + 6) == 0) || not (q (at + 7) == 0))
      then recalculate q at len2
      else some q

  unfoldable pub munge_ipv4 : Array → Option Array
  munge_ipv4 p =
      let proto = p (14 + 9) in
      let ihl = bit_and (p 14) 0x0f in if proto == 17 then munge_udp p (14 + ihl * 4) else some p

  -- What is done with the packet when the two addresses differ.
  unfoldable pub munge_frame : Array → Option Array
  munge_frame p =
      let type = word_at p 12 in
      let q = swap u 6 (swap u 0 p) in
      if type == 0x0806
      then some (munge_arp u q)
      else if type == 0x0800
      then munge_ipv4 q
      else some q

  -- The result is the frame's length, or 0 for a frame that is too short, beside the packet.
  unfoldable pub mungepacket : Array → ℕ → Option (ℕ × Array)
  mungepacket p len =
      if ltb len 20
      then some (0, p)
      else if memcmp_eq u.fakemac u.realmac
      then some (len, p)
      else munge_frame p >>= λ q. some (len, q)
