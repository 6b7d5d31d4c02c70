-- ===== src/Mac/Swap.antt =====
-- `dofakemac`: the exchange of one address, which undoes itself and touches nothing else.
use a.Base.{ℕ, ◌+◌, ◌≤◌, ◌<◌, ◌≡◌, ◌⊎◌, inl, inr, refl, arith, if◌then◌else◌, true}
use a.Base.{List, Array, slice, memcpy, memcmp_eq, memcmp_eq_iff, length}
use a.Base.{memcpy_outside, slice_ext, slice-memcpy_self, array_ext_block, slice_at}
use native.Mathlib.Decide.{dec_lt}
use mathlib.Core.Path.{sym, ◌∙◌, ap, subst}
use a.Mac.{MacUnit, dofakemac, swap}

-- Both addresses have six bytes.
pub record IsUnit (u : MacUnit) : Type 0 where
  pub fake_length : length u.fakemac ≡ 6
  pub real_length : length u.realmac ≡ 6

-- What becomes of an address.
pub flip : MacUnit → List ℕ → List ℕ
flip u m =
    if memcmp_eq u.fakemac u.realmac
    then m
    else if memcmp_eq m u.fakemac
    then u.realmac
    else if memcmp_eq m u.realmac
    then u.fakemac
    else m

pub flip-flip : (u : MacUnit) (m : List ℕ) → flip u (flip u m) ≡ m
unfolding flip
flip-flip u m = ground (
  arith,
  memcmp_eq_iff u.fakemac u.realmac,
  memcmp_eq_iff m u.fakemac,
  memcmp_eq_iff m u.realmac,
  memcmp_eq_iff u.realmac u.fakemac,
  memcmp_eq_iff u.realmac u.realmac,
  memcmp_eq_iff u.fakemac u.fakemac,
)

pub flip_same : (u : MacUnit) (m : List ℕ) → memcmp_eq u.fakemac u.realmac ≡ true → flip u m ≡ m
unfolding flip
flip_same u m h = rw h refl

module _ (u : MacUnit) (wf : IsUnit u) where
  pub dofakemac_outside : (i : ℕ) (p : Array) (j : ℕ) → (j < i) ⊎ (i + 6 ≤ j) → swap u i p j ≡ p j
  unfolding dofakemac
  dofakemac_outside i p j h =
      ground (arith, wf, memcpy_outside u.realmac p i j, memcpy_outside u.fakemac p i j)

  pub slice-dofakemac_ne :
      (i : ℕ) (p : Array) (j n : ℕ)
      → (j + n ≤ i) ⊎ (i + 6 ≤ j)
      → slice (swap u i p) j n ≡ slice p j n
  slice-dofakemac_ne i p j n h =
      slice_ext n (swap u i p) p j (λ k a b. dofakemac_outside i p k (ground arith))

  copied : (m : List ℕ) (p : Array) (i : ℕ) → length m ≡ 6 → slice (memcpy p i m) i 6 ≡ m
  copied m p i e = subst (λ n. slice (memcpy p i m) i n ≡ m) e (slice-memcpy_self m p i)

  pub slice-dofakemac_self : (i : ℕ) (p : Array) → slice (swap u i p) i 6 ≡ flip u (slice p i 6)
  unfolding dofakemac flip
  slice-dofakemac_self i p =
      ground (arith, copied u.realmac p i wf.real_length, copied u.fakemac p i wf.fake_length)

  -- Exchanging twice restores the packet.
  pub dofakemac_twice : (i : ℕ) (p : Array) → swap u i (swap u i p) ≡ p
  dofakemac_twice i p =
      array_ext_block 6 (swap u i (swap u i p)) p i
        (slice-dofakemac_self i (swap u i p)
          ∙ ap (flip u) (slice-dofakemac_self i p)
          ∙ flip-flip u (slice p i 6))
        (λ j h. dofakemac_outside i (swap u i p) j h ∙ dofakemac_outside i p j h)

  -- Exchanges at two places do not disturb each other.
  pub dofakemac_comm :
      (i j : ℕ) (p : Array) → i + 6 ≤ j → swap u i (swap u j p) ≡ swap u j (swap u i p)
  dofakemac_comm i j p h =
      array_ext_block 6 (swap u i (swap u j p)) (swap u j (swap u i p)) i
        (slice-dofakemac_self i (swap u j p)
          ∙ ap (flip u) (slice-dofakemac_ne j p i 6 (omega arith))
          ∙ sym (slice-dofakemac_ne j (swap u i p) i 6 (omega arith) ∙ slice-dofakemac_self i p))
        outside
    where
      at_j : slice (swap u i (swap u j p)) j 6 ≡ slice (swap u j (swap u i p)) j 6
      at_j =
          slice-dofakemac_ne i (swap u j p) j 6 (omega arith)
          ∙ slice-dofakemac_self j p
          ∙ sym (
              slice-dofakemac_self j (swap u i p)
              ∙ ap (flip u) (slice-dofakemac_ne i p j 6 (omega arith)))

      outside : (k : ℕ) → (k < i) ⊎ (i + 6 ≤ k) → swap u i (swap u j p) k ≡ swap u j (swap u i p) k
      outside k o = elim (dec_lt k j) [
        | yes before ↦ ground (
          arith,
          dofakemac_outside i (swap u j p) k o,
          dofakemac_outside i p k o,
          dofakemac_outside j p k (inl before),
          dofakemac_outside j (swap u i p) k (inl before),
        )
        | no behind ↦ elim (dec_lt k (j + 6)) [
          | yes inside ↦
              slice_at 6 (swap u i (swap u j p)) (swap u j (swap u i p)) j at_j k (omega arith)
                inside
          | no past ↦ ground (
            arith,
            dofakemac_outside i (swap u j p) k o,
            dofakemac_outside i p k o,
            dofakemac_outside j p k (inr (omega arith)),
            dofakemac_outside j (swap u i p) k (inr (omega arith)),
          )
        ]
      ]
