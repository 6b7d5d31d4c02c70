-- ===== src/Mac/Bytes.antt =====
-- A frame of bytes is translated to a frame of bytes by arm/src/mac.cpp.
use a.Base.{ℕ, ◌+◌, ◌*◌, ◌==◌, ltb, if◌then◌else◌, Bool, false, not, ◌&&◌, ◌||◌, arith}
use a.Base.{
  Array, bit_and, memcmp_eq, Option, some, OnSome, OnSome-none, OnSome-some, OnSome-bind, kept_if,
  u8, ◌>>>◌,
}
use a.Ram.Bytes.{IsBytes, update-IsBytes}
use a.Mac.{
  MacUnit, swap, word_at, dofakemac, munge_arp, recalculate, clear_sum, checksum_of, udp_sum,
  munge_udp, munge_ipv4, munge_frame, mungepacket,
}
use a.Mac.Checksum.{clear_sum-IsBytes}
use a.Mac.Dhcp.{AllBytes, dofakemac-IsBytes}

recalculate-IsBytes : (p : Array) (at len2 : ℕ) → IsBytes p → OnSome IsBytes (recalculate p at len2)
unfolding recalculate
recalculate-IsBytes p at len2 h =
    let cleared : Array = clear_sum p at len2 in
    let sum : ℕ = checksum_of (udp_sum cleared at len2) in
    kept_if (OnSome IsBytes) (ltb (at + len2) 4096)
      (OnSome-some (
        update-IsBytes _ (at + 7) (u8 sum)
          (update-IsBytes cleared (at + 6) (u8 (sum >>> 8)) (clear_sum-IsBytes p at len2 h)
            (omega arith))
          (omega arith)))
      OnSome-none

module _ (u : MacUnit) (f : AllBytes u.fakemac) (r : AllBytes u.realmac) where
  swap-IsBytes : (i : ℕ) (p : Array) → IsBytes p → IsBytes (swap u i p)
  swap-IsBytes i p h = dofakemac-IsBytes u i p f r h

  munge_arp-IsBytes : (p : Array) → IsBytes p → IsBytes (munge_arp u p)
  unfolding munge_arp
  munge_arp-IsBytes p h =
      kept_if IsBytes ((word_at p 14 == 1) && (p 18 == 6))
        (swap-IsBytes 32 (swap u 22 p) (swap-IsBytes 22 p h)) h

  summed-IsBytes :
      (b : Bool) (q : Array) (at len2 : ℕ)
      → IsBytes q
      → OnSome IsBytes (if b then recalculate q at len2 else some q)
  summed-IsBytes b q at len2 h =
      kept_if (OnSome IsBytes) b (recalculate-IsBytes q at len2 h) (OnSome-some h)

  munge_udp-IsBytes : (p : Array) (at : ℕ) → IsBytes p → OnSome IsBytes (munge_udp u p at)
  unfolding munge_udp
  munge_udp-IsBytes p at h =
      let sp : ℕ = word_at p at in
      let dp : ℕ = word_at p (at + 2) in
      let dhcp : Bool = ((sp == 67) || (sp == 68)) || ((dp == 67) || (dp == 68)) in
      let pair : Bool × Array = if dhcp then dofakemac u p (at + 8 + 28) else (false, p) in
      let bytes : IsBytes pair.1 =
        kept_if (λ (x : Bool × Array). IsBytes x.1) dhcp (swap-IsBytes (at + 8 + 28) p h) h in
      summed-IsBytes (pair.0 && (not (pair.1 (at + 6) == 0) || not (pair.1 (at + 7) == 0))) pair.1
        at (word_at p (at + 4)) bytes

  munge_ipv4-IsBytes : (p : Array) → IsBytes p → OnSome IsBytes (munge_ipv4 u p)
  unfolding munge_ipv4
  munge_ipv4-IsBytes p h =
      kept_if (OnSome IsBytes) (p 23 == 17) (munge_udp-IsBytes p (14 + bit_and (p 14) 0x0f * 4) h)
        (OnSome-some h)

  munge_frame-IsBytes : (p : Array) → IsBytes p → OnSome IsBytes (munge_frame u p)
  unfolding munge_frame
  munge_frame-IsBytes p h =
      let q : Array = swap u 6 (swap u 0 p) in
      let bytes : IsBytes q = swap-IsBytes 6 (swap u 0 p) (swap-IsBytes 0 p h) in
      kept_if (OnSome IsBytes) (word_at p 12 == 0x0806) (OnSome-some (munge_arp-IsBytes q bytes)) (
        kept_if (OnSome IsBytes) (word_at p 12 == 0x0800) (munge_ipv4-IsBytes q bytes)
          (OnSome-some bytes))

  pub mungepacket-IsBytes :
      (p : Array) (len : ℕ)
      → IsBytes p
      → OnSome (λ (x : ℕ × Array). IsBytes x.1) (mungepacket u p len)
  unfolding mungepacket
  mungepacket-IsBytes p len h =
      let P : Option (ℕ × Array) → Type 0 = OnSome (λ (x : ℕ × Array). IsBytes x.1) in
      kept_if P (ltb len 20) (OnSome-some h) (
        kept_if P (memcmp_eq u.fakemac u.realmac) (OnSome-some h)
          (OnSome-bind IsBytes (munge_frame-IsBytes p h) (λ q k. OnSome-some k)))
