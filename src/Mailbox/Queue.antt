-- ===== src/Mailbox/Queue.antt =====
-- The ring of deferred writes in arm/src/main_ddr3.cpp as the queue it stands for: at most seven
-- words, first in first out.
pub mod Drain
use a.Base.{
  ℕ, zero, suc, ◌+◌, ◌-◌, ◌%◌, ◌≤◌, ◌<◌, ◌≡◌, refl, arith, ap, sym, ◌∙◌, ◌==◌, ltb, if◌then◌else◌,
  true, false, not, ◌&&◌,
}
use a.Base.{
  Array, List, [], ◌∷◌, ◌++◌, length, update, has, Option, none, some, ◌>>=◌, OnSome, OnSome-some,
  OnSome-bind, kept_if, Bool-cases, inl, inr,
}
use a.Types.{csr0_intr}
use a.Card.{Card, csr0}
use a.Registers.Ignore.{Ignores, Ignores-Survives, chip_wput-Ignores}
use a.Rings.Transmit.Preserve.{do_transmit-Survives}
use a.Mailbox.{
  schedule_tdmd_retry, assert_mbx_int, on_interrupt_cb, on_transmit_cb, put, defer, drain_one,
  drain_loop,
}

-- `n` words from `i` on, going round at eight.
unfoldable pub queued : Array → ℕ → ℕ → List ℕ
queued q i zero = []
queued q i (suc n) = q i ∷ queued q ((i + 1) % 8) n

-- The deferred writes, the oldest first.
unfoldable pub pending : Card → List ℕ
pending c =
    queued c.deferred_csr0_queue c.deferred_csr0_tail
      ((c.deferred_csr0_head + (8 - c.deferred_csr0_tail)) % 8)

pub record InRing (c : Card) : Type 0 where
  pub head : c.deferred_csr0_head < 8
  pub tail : c.deferred_csr0_tail < 8

length-queued : (q : Array) (i n : ℕ) → length (queued q i n) ≡ n
unfolding queued
length-queued q i zero = refl
length-queued q i (suc n) = omega (arith, length-queued q ((i + 1) % 8) n)

pub length-pending :
    (c : Card) → length (pending c) ≡ (c.deferred_csr0_head + (8 - c.deferred_csr0_tail)) % 8
unfolding pending
length-pending c = length-queued c.deferred_csr0_queue c.deferred_csr0_tail _

queued-update :
    (q : Array) (k v i n : ℕ)
    → i < 8
    → n ≤ 7
    → k ≡ (i + n) % 8
    → queued (update q k v) i n ≡ queued q i n
unfolding queued
queued-update q k v i zero l b e = refl
queued-update q k v i (suc n) l b e =
    let same : update q k v i ≡ q i = ground arith in
    rw (same, queued-update q k v ((i + 1) % 8) n (omega arith) (omega arith) (omega arith)) refl

queued-append :
    (q : Array) (i n : ℕ) → i < 8 → queued q i (suc n) ≡ queued q i n ++ q ((i + n) % 8) ∷ []
unfolding queued
queued-append q i zero l = ap (λ j. q j ∷ []) (omega arith)
queued-append q i (suc n) l = ap (◌∷◌ (q i)) (
    queued-append q ((i + 1) % 8) n (omega arith)
    ∙ ap (λ j. queued q ((i + 1) % 8) n ++ q j ∷ []) (omega arith))

-- Where both ends of the ring are inside it a deferred write is put behind the pending ones if
-- fewer than seven are pending, and is dropped otherwise.
pub pending-defer :
    (word : ℕ) (c : Card)
    → InRing c
    → pending (defer word c)
      ≡ (if ltb (length (pending c)) 7 then pending c ++ word ∷ [] else pending c)
unfolding defer
pending-defer word c r =
    let n : ℕ = (c.deferred_csr0_head + (8 - c.deferred_csr0_tail)) % 8 in
    elim (Bool-cases ((c.deferred_csr0_head + 1) % 8 == c.deferred_csr0_tail)) [
      | inl e ↦
          let full : ltb (length (pending c)) 7 ≡ false =
            ground (arith, length-pending c, r.head, r.tail) in
          rw (e, full) refl
      | inr e ↦
          let room : ltb (length (pending c)) 7 ≡ true =
            ground (arith, length-pending c, r.head, r.tail) in
          rw (e, room)
            (unfold pending in
              grown n (omega (arith, r.head, r.tail)) (ground (arith, r.head, r.tail))
                (ground (arith, r.head, r.tail)))
    ]
  where
    grown :
        (n : ℕ)
        → n ≤ 7
        → ((c.deferred_csr0_head + 1) % 8 + (8 - c.deferred_csr0_tail)) % 8 ≡ suc n
        → (c.deferred_csr0_tail + n) % 8 ≡ c.deferred_csr0_head
        → queued
            (update c.deferred_csr0_queue c.deferred_csr0_head word)
            c.deferred_csr0_tail
            (((c.deferred_csr0_head + 1) % 8 + (8 - c.deferred_csr0_tail)) % 8)
          ≡ queued c.deferred_csr0_queue c.deferred_csr0_tail n ++ word ∷ []
    grown n l e k =
        let q : Array = update c.deferred_csr0_queue c.deferred_csr0_head word in
        ap (queued q c.deferred_csr0_tail) e
        ∙ queued-append q c.deferred_csr0_tail n r.tail
        ∙ ap (λ l. l ++ q ((c.deferred_csr0_tail + n) % 8) ∷ [])
            (queued-update c.deferred_csr0_queue c.deferred_csr0_head word c.deferred_csr0_tail n
              r.tail l (sym k))
        ∙ ap (λ x. queued c.deferred_csr0_queue c.deferred_csr0_tail n ++ x ∷ []) (ground arith)
