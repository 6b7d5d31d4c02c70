-- ===== src/Rings/Transmit/Scan.antt =====
-- Where `do_transmit` finds the descriptor that a frame starts at.
use a.Base.{ℕ, zero, suc, ◌+◌, ◌-◌, ◌%◌, ◌≤◌, ◌<◌, ◌≡◌, inl, inr, refl, arith, true, false}
use a.Base.{Option, none, some, Bool-cases, ap, sym, ◌∙◌}
use native.Mathlib.Nat.{mod-eq_of_lt, mod-lt}
use mathlib.Core.Path.{subst}
use native.Mathlib.Decide.{dec_lt, dec_le}
use a.Card.{Card}
use a.Rings.Transmit.{starts, scan_loop, tx_scan}

module _ (c : Card) (start : ℕ) where
  -- Position `k` behind the start, going round the ring.
  abbrev at : ℕ → ℕ
  at k = (start + k) % c.am_tdr_tlen

  -- What the search over the positions from `i` on has found.
  abbrev Found : ℕ → ℕ → Option ℕ → Type 0
  Found i n none = (k : ℕ) → i ≤ k → k < i + n → starts c (at k) ≡ false
  Found i n (some j) =
      (k : ℕ) × (k < i + n)
      × (j ≡ at k)
      × (starts c j ≡ true)
      × ((m : ℕ) → i ≤ m → m < k → starts c (at m) ≡ false)

  scan_loop-Found : (n i : ℕ) → Found i n (scan_loop c start i n)
  unfolding scan_loop
  scan_loop-Found zero i = λ k p q. absurd (omega arith)
  scan_loop-Found (suc n) i = elim (Bool-cases (starts c (at i))) [
    | inl e ↦ rw e (i, omega arith, refl, e, λ m p q. absurd (omega arith))
    | inr e ↦ rw e (go (scan_loop c start (i + 1) n) e (scan_loop-Found n (i + 1)))
  ]
    where
      go : (r : Option ℕ) → starts c (at i) ≡ false → Found (i + 1) n r → Found i (suc n) r
      go none e f = λ k p q. elim (dec_lt i k) [
        | yes l ↦ f k (omega arith) (omega arith)
        | no l ↦ let same : k ≡ i = omega arith in rw same e
      ]
      go (some j) e f = (
        f.0,
        omega (arith, f.1),
        f.2,
        f.3,
        λ m p q. elim (dec_lt i m) [
          | yes l ↦ f.4 m (omega arith) q
          | no l ↦ let same : m ≡ i = omega arith in rw same e
        ],
      )

round_once : (j n : ℕ) → j < n → (j + n) % n ≡ j
round_once j n h = grind arith

position :
    (c : Card) (start j : ℕ)
    → start < c.am_tdr_tlen
    → j < c.am_tdr_tlen
    → (k : ℕ) × (k < c.am_tdr_tlen) × (at c start k ≡ j)
position c start j s h = elim (dec_le start j) [
  | yes l ↦
      let whole : start + (j - start) ≡ j = omega arith in
      (j - start, omega arith, ap (λ (t : ℕ). t % c.am_tdr_tlen) whole ∙ mod-eq_of_lt h)
  | no l ↦
      let whole : start + (j + c.am_tdr_tlen - start) ≡ j + c.am_tdr_tlen = omega arith in
      (
        j + c.am_tdr_tlen - start,
        omega arith,
        ap (λ (t : ℕ). t % c.am_tdr_tlen) whole ∙ round_once j c.am_tdr_tlen h,
      )
]

tx_scan-Found :
    (c : Card)
    → 0 < c.am_tdr_tlen
    → Found c (c.tdr_offset % c.am_tdr_tlen) 0 c.am_tdr_tlen (tx_scan c)
unfolding tx_scan
tx_scan-Found c pos =
    let start : ℕ = c.tdr_offset % c.am_tdr_tlen in
    let inside : start < c.am_tdr_tlen = mod-lt c.tdr_offset pos in
    let here : start ≡ (start + 0) % c.am_tdr_tlen =
      sym (ap (λ (t : ℕ). t % c.am_tdr_tlen) {x = start + 0} (omega arith) ∙ mod-eq_of_lt inside) in
    elim (Bool-cases (starts c start)) [
      | inl e ↦ rw e (0, omega arith, here, e, λ m p q. absurd (omega arith))
      | inr e ↦ rw e (scan_loop-Found c start c.am_tdr_tlen 0)
    ]

pub tx_scan_finds :
    (c : Card)
    → 0 < c.am_tdr_tlen
    → let start = c.tdr_offset % c.am_tdr_tlen in
      (tx_scan c ≡ none → (j : ℕ) → j < c.am_tdr_tlen → starts c j ≡ false)
      × ((j : ℕ)
          → tx_scan c ≡ some j
          → (j < c.am_tdr_tlen)
            × (starts c j ≡ true)
            × ((k : ℕ) × (j ≡ (start + k) % c.am_tdr_tlen)
                × ((m : ℕ) → m < k → starts c ((start + m) % c.am_tdr_tlen) ≡ false)))
tx_scan_finds c pos = go (tx_scan c) (tx_scan-Found c pos)
  where
    start : ℕ
    start = c.tdr_offset % c.am_tdr_tlen

    go :
        (r : Option ℕ)
        → Found c start 0 c.am_tdr_tlen r
        → (r ≡ none → (j : ℕ) → j < c.am_tdr_tlen → starts c j ≡ false)
          × ((j : ℕ)
              → r ≡ some j
              → (j < c.am_tdr_tlen)
                × (starts c j ≡ true)
                × ((k : ℕ) × (j ≡ (start + k) % c.am_tdr_tlen)
                    × ((m : ℕ) → m < k → starts c ((start + m) % c.am_tdr_tlen) ≡ false)))
    go none f = (
      λ e j h.
          let p : (k : ℕ) × (k < c.am_tdr_tlen) × (at c start k ≡ j) =
            position c start j (mod-lt c.tdr_offset pos) h in
          subst (λ t. starts c t ≡ false) p.2 (f p.0 (omega arith) (omega (arith, p.1))),
      λ j e. cc,
    )
    go (some i) f = (
      λ e. cc,
      λ j e.
          let same : i ≡ j = cc in
          (
            subst (λ t. t < c.am_tdr_tlen) (sym f.2 ∙ same) (mod-lt (start + f.0) pos),
            subst (λ t. starts c t ≡ true) same f.3,
            (f.0, sym same ∙ f.2, λ m p. f.4 m (omega arith) p),
          ),
    )
