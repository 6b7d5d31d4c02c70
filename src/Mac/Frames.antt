-- ===== src/Mac/Frames.antt =====
-- `mungepacket` on whole frames: what it returns, which frames it leaves alone, that it undoes
-- itself, and what becomes of the two addresses of the Ethernet header.
use a.Base.{
  ℕ, ◌+◌, ◌*◌, ◌≤◌, ◌<◌, ◌≡◌, ◌≢◌, inl, inr, refl, arith, ◌==◌, if◌then◌else◌, Bool, true, false,
}
use a.Base.{some, ◌>>=◌, ◌&&◌, Array, slice, memcmp_eq, bit_and}
use a.Base.{slice_ext, Bool-cases, >>=-eq-some}
use mathlib.Core.Path.{◌∙◌, ap}
use native.Mathlib.Decide.{ℕ_discrete}
use a.Mac.{MacUnit, swap, word_at, munge_arp, clear_sum, recalculate, munge_udp, munge_ipv4}
use a.Mac.{munge_frame, mungepacket}
use a.Mac.Swap.{IsUnit, flip, flip_same, dofakemac_outside, dofakemac_twice, dofakemac_comm}
use a.Mac.Swap.{slice-dofakemac_ne, slice-dofakemac_self}

-- A frame of fewer than 20 bytes is refused with 0 and not touched.
pub mungepacket_short :
    (u : MacUnit) (p : Array) (len : ℕ) → len < 20 → mungepacket u p len ≡ some (0, p)
unfolding mungepacket
mungepacket_short u p len h = ground arith

module _ (u : MacUnit) (wf : IsUnit u) where
  -- The two addresses of the Ethernet header.
  header : Array → Array
  header p = swap u 6 (swap u 0 p)

  header_outside : (p : Array) (j : ℕ) → 12 ≤ j → header p j ≡ p j
  unfolding header
  header_outside p j h =
      ground (arith, dofakemac_outside u wf 6 (swap u 0 p) j, dofakemac_outside u wf 0 p j)

  header_twice : (p : Array) → header (header p) ≡ p
  unfolding header
  header_twice p =
      ap (swap u 6) (dofakemac_comm u wf 0 6 (swap u 0 p) (omega arith))
      ∙ dofakemac_twice u wf 6 (swap u 0 (swap u 0 p))
      ∙ dofakemac_twice u wf 0 p

  -- The two addresses of an ARP packet.
  arp : Array → Array
  arp p = swap u 32 (swap u 22 p)

  arp_outside : (p : Array) (j : ℕ) → (j < 22) → arp p j ≡ p j
  unfolding arp
  arp_outside p j h =
      ground (arith, dofakemac_outside u wf 32 (swap u 22 p) j, dofakemac_outside u wf 22 p j)

  arp_twice : (p : Array) → arp (arp p) ≡ p
  unfolding arp
  arp_twice p =
      ap (swap u 32) (dofakemac_comm u wf 22 32 (swap u 22 p) (omega arith))
      ∙ dofakemac_twice u wf 32 (swap u 22 (swap u 22 p))
      ∙ dofakemac_twice u wf 22 p

  header-arp : (p : Array) → header (arp p) ≡ arp (header p)
  unfolding header arp
  header-arp p =
      ap (swap u 6) (
        dofakemac_comm u wf 0 32 (swap u 22 p) (omega arith)
        ∙ ap (swap u 32) (dofakemac_comm u wf 0 22 p (omega arith)))
      ∙ dofakemac_comm u wf 6 32 (swap u 22 (swap u 0 p)) (omega arith)
      ∙ ap (swap u 32) (dofakemac_comm u wf 6 22 (swap u 0 p) (omega arith))

  abbrev is_arp : Array → Bool
  is_arp p = (word_at p 14 == 1) && (p 18 == 6)

  munge_arp_lem : (p : Array) → munge_arp u p ≡ (if is_arp p then arp p else p)
  unfolding munge_arp arp
  munge_arp_lem p = refl

  munge_arp_outside : (p : Array) (j : ℕ) → j < 22 → munge_arp u p j ≡ p j
  munge_arp_outside p j h = ground (arith, munge_arp_lem p, arp_outside p j h)

  munge_arp_twice : (p : Array) → munge_arp u (header (munge_arp u (header p))) ≡ p
  munge_arp_twice p = elim (Bool-cases (is_arp p)) [
    | inl yes' ↦
        rw (munge_arp_lem (header p), seen p yes', header-arp, header_twice)
          (rw (munge_arp_lem (arp p), still yes') (arp_twice p))
    | inr no' ↦ rw (munge_arp_lem (header p), unseen p no', header_twice, munge_arp_lem p, no') refl
  ]
    where
      seen : (q : Array) → is_arp q ≡ true → is_arp (header q) ≡ true
      seen q e =
          rw
            (
              header_outside q 14 (omega arith),
              header_outside q 15 (omega arith),
              header_outside q 18 (omega arith),
            )
            e

      unseen : (q : Array) → is_arp q ≡ false → is_arp (header q) ≡ false
      unseen q e =
          rw
            (
              header_outside q 14 (omega arith),
              header_outside q 15 (omega arith),
              header_outside q 18 (omega arith),
            )
            e

      still : is_arp p ≡ true → is_arp (arp p) ≡ true
      still e =
          rw
            (
              arp_outside p 14 (omega arith),
              arp_outside p 15 (omega arith),
              arp_outside p 18 (omega arith),
            )
            e

  munge_frame_arp :
      (p : Array) → word_at p 12 ≡ 0x0806 → munge_frame u p ≡ some (munge_arp u (header p))
  unfolding munge_frame header
  munge_frame_arp p h = rw h refl

  munge_frame_other :
      (p : Array)
      → word_at p 12 ≢ 0x0806
      → word_at p 12 ≢ 0x0800
      → munge_frame u p ≡ some (header p)
  unfolding munge_frame header
  munge_frame_other p h k = ground arith

  same_type_arp : (p : Array) → word_at (munge_arp u (header p)) 12 ≡ word_at p 12
  same_type_arp p = ground (
    arith,
    munge_arp_outside (header p) 12,
    munge_arp_outside (header p) 13,
    header_outside p 12,
    header_outside p 13,
  )

  same_type : (p : Array) → word_at (header p) 12 ≡ word_at p 12
  same_type p = ground (arith, header_outside p 12, header_outside p 13)

  munge_frame_twice :
      (p : Array) → word_at p 12 ≢ 0x0800 → (munge_frame u p >>= munge_frame u) ≡ some p
  munge_frame_twice p h = elim (ℕ_discrete (word_at p 12) 0x0806) [
    | yes e ↦ rw (munge_frame_arp p e) (
        munge_frame_arp (munge_arp u (header p)) (same_type_arp p ∙ e)
        ∙ ap some (munge_arp_twice p))
    | no ne ↦ rw (munge_frame_other p ne h) (
        munge_frame_other (header p) (rw (same_type p) ne) (rw (same_type p) h)
        ∙ ap some (header_twice p))
  ]

  -- Munging a frame of 20 bytes or more that is no IPv4 frame, and the result again, gives the
  -- frame back with its length, where both addresses of the card have six bytes.
  pub mungepacket_twice :
      (p : Array) (len : ℕ)
      → 20 ≤ len
      → word_at p 12 ≢ 0x0800
      → (q : Array) × (mungepacket u p len ≡ some (len, q)) × (mungepacket u q len ≡ some (len, p))
  unfolding mungepacket
  mungepacket_twice p len h ne = elim (Bool-cases (memcmp_eq u.fakemac u.realmac)) [
    | inl e ↦ (p, ground arith, ground arith)
    | inr e ↦
        let r : (q : Array) × (munge_frame u p ≡ some q) × (munge_frame u q ≡ some p) =
          >>=-eq-some (munge_frame u p) (munge_frame u) (munge_frame_twice p ne) in
        (r.0, ground (arith, r.1), ground (arith, r.2))
  ]

  recalculate_below :
      (p q : Array) (at len2 j : ℕ) → recalculate p at len2 ≡ some q → j < at → q j ≡ p j
  unfolding recalculate clear_sum
  recalculate_below p q at len2 j h l = ground arith

  munge_udp_below : (p q : Array) (at j : ℕ) → munge_udp u p at ≡ some q → j < at → q j ≡ p j
  unfolding munge_udp
  munge_udp_below p q at j h l = ground (
    arith,
    dofakemac_outside u wf (at + 8 + 28) p j,
    recalculate_below (swap u (at + 8 + 28) p) q at (word_at p (at + 4)) j,
  )

  munge_ipv4_below : (p q : Array) (j : ℕ) → munge_ipv4 u p ≡ some q → j < 14 → q j ≡ p j
  unfolding munge_ipv4
  munge_ipv4_below p q j h l = ground (arith, munge_udp_below p q (14 + bit_and (p 14) 0x0f * 4) j)

  munge_frame_below : (p q : Array) (j : ℕ) → munge_frame u p ≡ some q → j < 14 → q j ≡ header p j
  unfolding munge_frame header
  munge_frame_below p q j h l =
      ground (arith, munge_arp_outside (header p) j, munge_ipv4_below (header p) q j)

  header_dst : (p : Array) → slice (header p) 0 6 ≡ flip u (slice p 0 6)
  unfolding header
  header_dst p =
      slice-dofakemac_ne u wf 6 (swap u 0 p) 0 6 (omega arith) ∙ slice-dofakemac_self u wf 0 p

  header_src : (p : Array) → slice (header p) 6 6 ≡ flip u (slice p 6 6)
  unfolding header
  header_src p =
      slice-dofakemac_self u wf 6 (swap u 0 p)
      ∙ ap (flip u) (slice-dofakemac_ne u wf 0 p 6 6 (omega arith))

  mungepacket_frame :
      (p q : Array) (len n : ℕ)
      → 20 ≤ len
      → memcmp_eq u.fakemac u.realmac ≡ false
      → mungepacket u p len ≡ some (n, q)
      → (n ≡ len) × (munge_frame u p ≡ some q)
  unfolding mungepacket
  mungepacket_frame p q len n h e r = ground arith

  mungepacket_same :
      (p q : Array) (len n : ℕ)
      → 20 ≤ len
      → memcmp_eq u.fakemac u.realmac ≡ true
      → mungepacket u p len ≡ some (n, q)
      → (n ≡ len) × (q ≡ p)
  unfolding mungepacket
  mungepacket_same p q len n h e r = ground arith

  -- When munging a frame of 20 bytes or more gives a result, its length and its type are those of
  -- the frame, and its destination and its source are exchanged between fakemac and realmac, any
  -- other address being kept; both addresses of the card have six bytes.
  pub mungepacket_header :
      (p q : Array) (len n : ℕ)
      → 20 ≤ len
      → mungepacket u p len ≡ some (n, q)
      → (n ≡ len)
        × (slice q 0 6 ≡ flip u (slice p 0 6))
        × (slice q 6 6 ≡ flip u (slice p 6 6))
        × (word_at q 12 ≡ word_at p 12)
  mungepacket_header p q len n h e = elim (Bool-cases (memcmp_eq u.fakemac u.realmac)) [
    | inl same ↦
        let r : (n ≡ len) × (q ≡ p) = mungepacket_same p q len n h same e in
        rw (r.1, flip_same u (slice p 0 6) same, flip_same u (slice p 6 6) same)
          (r.0, refl, refl, refl)
    | inr ne ↦
        let r : (n ≡ len) × (munge_frame u p ≡ some q) = mungepacket_frame p q len n h ne e in
        let below : (j : ℕ) → j < 14 → q j ≡ header p j = λ j l. munge_frame_below p q j r.1 l in
        (
          r.0,
          slice_ext 6 q (header p) 0 (λ j a b. below j (omega arith)) ∙ header_dst p,
          slice_ext 6 q (header p) 6 (λ j a b. below j (omega arith)) ∙ header_src p,
          ground (arith, below 12, below 13, header_outside p 12, header_outside p 13),
        )
  ]
