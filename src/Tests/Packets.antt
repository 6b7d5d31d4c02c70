-- ===== src/Tests/Packets.antt =====
-- The translation of frames.
use a.Base.{ℕ, ◌+◌, ◌-◌, ◌/◌, ◌^◌, ◌≤◌, ◌≡◌, arith, refl, Array, update, ◌==◌, if◌then◌else◌, ltb}
use a.Base.{some, u8, ◌&&◌}
use a.Ram.Bytes.{IsBytes}
use a.Mac.{mungepacket, word_at, dofakemac, munge_udp, udp_sum, fold_sum, checksum_of, clear_sum}
use a.Mac.Frames.{mungepacket_twice}
use a.Mac.Checksum.{checksum_of_never_replaced}
use a.Mac.Receiver.{Verifies}
use a.Mac.Dhcp.{NeedsChecksum, munge_udp-Verifies}
use a.Tests.Data.{unit, unit-IsUnit, fake-AllBytes, real-AllBytes}

-- An ARP request of the card.
abbrev arp_request : Array
arp_request = λ i.
    if i == 12
    then 8
    else if i == 13
    then 6
    else if i == 15
    then 1
    else if i == 18
    then 6
    else if ltb 5 i && ltb i 12
    then (if i == 6 then 0 else if i == 7 then 0x80 else if i == 8 then 0x10 else i - 8)
    else 0xff

mungepacket_twice_example :
    (q : Array) × (mungepacket unit arp_request 60 ≡ some (60, q))
    × (mungepacket unit q 60 ≡ some (60, arp_request))
mungepacket_twice_example =
    mungepacket_twice unit unit-IsUnit arp_request 60 (omega arith) (omega arith)

-- The length of the request.
abbrev sixty : ℕ
sixty = 60

-- The request in its translation.
translated :
    (q : Array) × (mungepacket unit arp_request 60 ≡ some (60, q))
    × (mungepacket unit q 60 ≡ some (60, arp_request))
translated = mungepacket_twice unit unit-IsUnit arp_request 60 (omega arith) (omega arith)

-- A DHCP request of 50 bytes with the card's address as CHADDR, behind an IPv4 header of 20 bytes.
abbrev dhcp_request : Array
dhcp_request = λ i.
    if i == 35
    then 68
    else if i == 37
    then 67
    else if i == 39
    then 50
    else if i == 40
    then 7
    else if i == 70
    then 0
    else if i == 71
    then 0x80
    else if i == 72
    then 0x10
    else if i == 73
    then 1
    else if i == 74
    then 2
    else if i == 75
    then 3
    else 0

dhcp_request-IsBytes : IsBytes dhcp_request
dhcp_request-IsBytes j = ground arith

needs_checksum : NeedsChecksum unit dhcp_request 34
needs_checksum = (refl, unfold dofakemac in refl, refl)

munge_udp-Verifies_example :
    (q : Array) × (munge_udp unit dhcp_request 34 ≡ some q)
    × Verifies q 34 (word_at dhcp_request (34 + 4))
munge_udp-Verifies_example =
    munge_udp-Verifies unit unit-IsUnit dhcp_request 34 fake-AllBytes real-AllBytes
      dhcp_request-IsBytes (omega arith) (omega arith) (omega arith) needs_checksum

abbrev checksummed : Array
checksummed =
    let cleared = clear_sum dhcp_request 34 50 in
    let sum = checksum_of (udp_sum cleared 34 50) in
    update (update cleared (34 + 6) (u8 (sum / 2 ^ 8))) (34 + 7) (u8 sum)

checksum_of_never_replaced_example :
    (checksum_of 0xffff ≡ 0xffff_ffff - fold_sum 3 0xffff) × (0xffff_0000 ≤ checksum_of 0xffff)
checksum_of_never_replaced_example = checksum_of_never_replaced 0xffff (omega arith)
