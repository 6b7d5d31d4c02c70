-- ===== src/Mac/Dhcp.antt =====
-- The UDP branch of `mungepacket` of arm/src/mac.cpp where it computes a checksum anew.
use a.Base.{ℕ, ◌+◌, ◌≤◌, ◌<◌, ◌≡◌, ◌↔◌, arith, ◌==◌, true, false, ◌&&◌, ◌||◌}
use a.Base.{
  none, some, Array, update, Bool-cases, some_of_ne_none, ◌⊎◌, sym, List, [], ◌∷◌, memcpy,
  memcmp_eq, slice, suc, inl, inr, ◌∙◌,
}
use mathlib.Core.Path.{subst}
use a.Mac.{MacUnit, dofakemac, swap, word_at, recalculate, munge_udp}
use a.Mac.Swap.{IsUnit, dofakemac_outside}
use a.Ram.Bytes.{IsBytes}
use a.Mac.Receiver.{Verifies, recalculate-Verifies}

-- One of the ports is 67 or 68, CHADDR counts as an address of this card, and the sender has
-- filled in a checksum.
abbrev pub NeedsChecksum : MacUnit → Array → ℕ → Type 0
NeedsChecksum u p at =
    (((word_at p at == 67)
        || (word_at p at == 68)
        || ((word_at p (at + 2) == 67) || (word_at p (at + 2) == 68)))
      ≡ true)
    × ((dofakemac u p (at + 8 + 28)).0 ≡ true)
    × (((p (at + 6) == 0) && (p (at + 7) == 0)) ≡ false)

-- The bytes of an address.
abbrev pub AllBytes : List ℕ → Type 0
AllBytes [] = Unit
AllBytes (x ∷ l) = (x < 256) × AllBytes l

pub memcpy-IsBytes :
    (l : List ℕ) (a : Array) (i : ℕ) → AllBytes l → IsBytes a → IsBytes (memcpy a i l)
memcpy-IsBytes [] a i h b j = b j
memcpy-IsBytes (x ∷ l) a i h b j =
    memcpy-IsBytes l (update a i x) (suc i) h.1 (λ k. ground (arith, b k)) j

dofakemac_cases :
    (u : MacUnit) (i : ℕ) (p : Array)
    → ((swap u i p ≡ memcpy p i u.fakemac) ⊎ (swap u i p ≡ memcpy p i u.realmac)) ⊎ (swap u i p ≡ p)
unfolding dofakemac
dofakemac_cases u i p = elim (Bool-cases (memcmp_eq u.fakemac u.realmac)) [
  | inl e ↦ inr (ground arith)
  | inr e ↦ elim (Bool-cases (memcmp_eq (slice p i 6) u.fakemac)) [
    | inl is_fake ↦ inl (inr (ground arith))
    | inr not_fake ↦ elim (Bool-cases (memcmp_eq (slice p i 6) u.realmac)) [
      | inl is_real ↦ inl (inl (ground arith))
      | inr not_real ↦ inr (ground arith)
    ]
  ]
]

pub dofakemac-IsBytes :
    (u : MacUnit) (i : ℕ) (p : Array)
    → AllBytes u.fakemac
    → AllBytes u.realmac
    → IsBytes p
    → IsBytes (swap u i p)
dofakemac-IsBytes u i p f r h = elim (dofakemac_cases u i p) [
  | inl (inl e) ↦ subst IsBytes (sym e) (memcpy-IsBytes u.fakemac p i f h)
  | inl (inr e) ↦ subst IsBytes (sym e) (memcpy-IsBytes u.realmac p i r h)
  | inr e ↦ subst IsBytes (sym e) h
]

module _ (u : MacUnit) (wf : IsUnit u) (p : Array) (at : ℕ) where
  -- When a checksum is due it is computed over the packet with CHADDR exchanged.
  munge_udp_due :
      NeedsChecksum u p at
      → munge_udp u p at ≡ recalculate (swap u (at + 8 + 28) p) at (word_at p (at + 4))
  unfolding munge_udp
  munge_udp_due due = ground (
    arith,
    dofakemac_outside u wf (at + 8 + 28) p (at + 6),
    dofakemac_outside u wf (at + 8 + 28) p (at + 7),
  )

  recalculate_faults : (q : Array) (n : ℕ) → (recalculate q at n ≡ none) ↔ (4096 ≤ at + n)
  unfolding recalculate
  recalculate_faults q n = ground arith

  recalculate_returns :
      (q : Array) (n : ℕ) → at + n < 4096 → (o : Array) × (recalculate q at n ≡ some o)
  recalculate_returns q n h =
      some_of_ne_none (recalculate q at n)
        (λ e. absurd (omega (arith, (recalculate_faults q n).0 e)))

  -- When a checksum is due and the datagram lies inside the buffer, behind an IPv4 header of 20
  -- bytes or more and with a header of its own, the branch for UDP returns a packet that passes
  -- the test of RFC 768: the one's complement sum of the pseudo-header, which is both addresses,
  -- the protocol 17 and the length, and of the bytes of the datagram, padded with a zero, is all
  -- ones. The addresses of the card and the packet are bytes.
  pub munge_udp-Verifies :
      AllBytes u.fakemac
      → AllBytes u.realmac
      → IsBytes p
      → 34 ≤ at
      → 8 ≤ word_at p (at + 4)
      → at + word_at p (at + 4) < 4096
      → NeedsChecksum u p at
      → (q : Array) × (munge_udp u p at ≡ some q) × Verifies q at (word_at p (at + 4))
  munge_udp-Verifies f r b a l inside due =
      let q : Array = swap u (at + 8 + 28) p in
      let n : ℕ = word_at p (at + 4) in
      let done : (o : Array) × (recalculate q at n ≡ some o) = recalculate_returns q n inside in
      (
        done.0,
        munge_udp_due due ∙ done.1,
        recalculate-Verifies q done.0 at n (dofakemac-IsBytes u (at + 8 + 28) p f r b) a l
            (omega arith) done.1,
      )
