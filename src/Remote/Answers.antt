-- ===== src/Remote/Answers.antt =====
-- Card memory behind the exchange against card memory at hand: the accessors of
-- arm/include/boardram_access.h with BOARDRAM_REMOTE do what those without it do, when the FPGA
-- answers in time, while the daemon of the mailbox serves requests between the polls.
use a.Base.{
  ℕ, ◌+◌, ◌*◌, ◌%◌, ◌<◌, ◌≡◌, refl, arith, ap, ◌∙◌, ◌==◌, true, false, not, Option, some, kept_if,
}
use a.Base.{Array, bit_and, bit_and_low, u16, ◌>>>◌, has, Bool-cases, inl, inr}
use a.Types.{a2065_rap_off}
use a.Card.{Card}
use a.Registers.{chip_wput}
use a.Ram
use a.Ram.Bytes.{IsBytes, get_ram_word-lt}
use a.Doorbell.{rd64}
use a.Mailbox.{
  mbx_req_off, respond, defer, put, service_bridge_safe, req_rw, req_addr, req_data, req_result,
}
use a.Remote.{attempts, xfer_req, boardram_xfer}
use a.Remote.Exchange.{taken, attempts-answered}

-- What the service between two polls leaves alone.
pub record Kept (c d : Card) : Type 0 where
  pub ram : d.boardram ≡ c.boardram
  pub asked : rd64 0x8010 d ≡ rd64 0x8010 c
  pub answered : rd64 0x8018 d ≡ rd64 0x8018 c

-- The FPGA leaves everything alone before poll `k` and has then done what the request says: the
-- word at an even address is in the response, or has been written.
pub record Answers (k : ℕ) (fpga : ℕ → Card → Card) : Type 0 where
  pub waits : (i : ℕ) (c : Card) → i < k → fpga i c ≡ c
  pub reads :
      (c : Card) (off : ℕ)
      → has (rd64 0x8018 c) 1 ≡ false
      → rd64 0x8010 c ≡ xfer_req off false 0
      → (rd64 0x8018 (fpga k c) ≡ 1 + 2 * Ram.get_ram_word c.boardram (bit_and off 0x7ffe))
        × ((fpga k c).boardram ≡ c.boardram)
  pub writes :
      (c : Card) (off v : ℕ)
      → has (rd64 0x8018 c) 1 ≡ false
      → rd64 0x8010 c ≡ xfer_req off true v
      → (has (rd64 0x8018 (fpga k c)) 1 ≡ true)
        × ((fpga k c).boardram ≡ Ram.put_ram_word c.boardram (bit_and off 0x7ffe) v)

module _ (stack : Array) where
  pub service_bridge_safe-Kept :
      (c : Card) → (d : Card) × (service_bridge_safe stack c ≡ some d) × Kept c d
  unfolding service_bridge_safe put chip_wput
  service_bridge_safe-Kept c =
      let req : ℕ = rd64 mbx_req_off c in
      let x : Card = respond (req_result req c) c in
      let at_x : Kept c x = responded (req_result req c) in
      kept_if Served (not (has req 1))
        (c, refl, record { ram = refl; asked = refl; answered = refl })
        (kept_if Served (not (req_rw req)) (x, refl, at_x)
          (elim (Bool-cases (req_addr req == a2065_rap_off)) [
            | inl e ↦ rw e (
              record x { rap = bit_and (req_data req) 0x7f },
              refl,
              record { ram = at_x.ram; asked = at_x.asked; answered = at_x.answered },
            )
            | inr e ↦ rw e (
                kept_if Served (req_addr req == 0)
                  (defer (req_data req) x, refl, deferred (req_data req) x at_x) (x, refl, at_x))
          ]))
    where
      Served : Option Card → Type 0
      Served o = (d : Card) × (o ≡ some d) × Kept c d

      responded : (result : ℕ) → Kept c (respond result c)
      responded result = unfold respond in record { ram = refl; asked = refl; answered = refl }

      deferred : (word : ℕ) (d : Card) → Kept c d → Kept c (defer word d)
      deferred word d h =
          unfold defer in
          kept_if (Kept c) (not ((d.deferred_csr0_head + 1) % 8 == d.deferred_csr0_tail))
            (record { ram = h.ram; asked = h.asked; answered = h.answered }) h

-- The card while a request waits for its answer.
record Waiting (req : ℕ) (c d : Card) : Type 0 where
  ram : d.boardram ≡ c.boardram
  asked : rd64 0x8010 d ≡ req
  quiet : has (rd64 0x8018 d) 1 ≡ false

Kept-Waiting : {req : ℕ} {c d e : Card} → Kept d e → Waiting req c d → Waiting req c e
Kept-Waiting k h = record {
  ram = k.ram ∙ h.ram;
  asked = k.asked ∙ h.asked;
  quiet = ap (λ w. has w 1) k.answered ∙ h.quiet;
}

response_bit : (w : ℕ) → has (1 + 2 * w) 1 ≡ true
unfolding has
response_bit w = ground (arith, bit_and_low 1 (1 + 2 * w))

module _ (stack : Array) (fpga : ℕ → Card → Card) (k : ℕ) (answers : Answers k fpga)
    (in_time : k < 10000) where
  xfer_attempts :
      (req : ℕ) (c : Card)
      → has (rd64 0x8018 c) 1 ≡ false
      → ((x : Card) → Waiting req c x → has (rd64 0x8018 (fpga k x)) 1 ≡ true)
      → (x : Card) × Waiting req c x
        × (attempts fpga (service_bridge_safe stack) 3 req c
            ≡ some (some (u16 (rd64 0x8018 (fpga k x) >>> 1)), taken (fpga k x)))
  xfer_attempts req c quiet answered =
      attempts-answered fpga (service_bridge_safe stack) (Waiting req c) k 2 req c in_time
        (λ x h. h.quiet)
        (λ x h. let s = service_bridge_safe-Kept stack x in (s.0, s.1, Kept-Waiting s.2 h))
        answers.waits answered (record { ram = refl; asked = refl; quiet = quiet })

  pub xfer_reads :
      (off : ℕ) (c : Card)
      → has (rd64 0x8018 c) 1 ≡ false
      → IsBytes c.boardram
      → (d : Card) × (boardram_xfer fpga (service_bridge_safe stack) true off false 0 c
          ≡ some (Ram.get_ram_word c.boardram (bit_and off 0x7ffe), d))
        × (d.boardram ≡ c.boardram)
        × (rd64 0x8018 d ≡ 0)
  unfolding boardram_xfer
  xfer_reads off c quiet bytes =
      let w : ℕ = Ram.get_ram_word c.boardram (bit_and off 0x7ffe) in
      let read : (x : Card)
          → Waiting (xfer_req off false 0) c x
          → (rd64 0x8018 (fpga k x) ≡ 1 + 2 * w) × ((fpga k x).boardram ≡ c.boardram) =
        λ x h.
          let r = answers.reads x off h.quiet h.asked in
          (
            r.0 ∙ ap (λ (m : Array). 1 + 2 * Ram.get_ram_word m (bit_and off 0x7ffe)) h.ram,
            r.1 ∙ h.ram,
          ) in
      let a =
        xfer_attempts (xfer_req off false 0) c quiet
          (λ x h. ap (λ w. has w 1) (read x h).0 ∙ response_bit w) in
      let value : u16 (rd64 0x8018 (fpga k a.0) >>> 1) ≡ w =
        omega (arith, (read a.0 a.1).0, get_ram_word-lt c.boardram (bit_and off 0x7ffe) bytes) in
      (taken (fpga k a.0), rw (a.2, value) refl, (read a.0 a.1).1, refl)

  pub xfer_writes :
      (off v : ℕ) (c : Card)
      → has (rd64 0x8018 c) 1 ≡ false
      → (d : Card) × (w : ℕ) × (boardram_xfer fpga (service_bridge_safe stack) true off true v c
          ≡ some (w, d))
        × (d.boardram ≡ Ram.put_ram_word c.boardram (bit_and off 0x7ffe) v)
        × (rd64 0x8018 d ≡ 0)
  unfolding boardram_xfer
  xfer_writes off v c quiet =
      let a =
        xfer_attempts (xfer_req off true v) c quiet
          (λ x h. (answers.writes x off v h.quiet h.asked).0) in
      let h = a.1 in
      (
        taken (fpga k a.0),
        u16 (rd64 0x8018 (fpga k a.0) >>> 1),
        rw a.2 refl,
        (answers.writes a.0 off v h.quiet h.asked).1
            ∙ ap (λ (m : Array). Ram.put_ram_word m (bit_and off 0x7ffe) v) h.ram,
        refl,
      )
