-- ===== src/Tests/Remote.antt =====
-- Card memory behind an FPGA that answers at its third chance, and one that never does.
use a.Base.{
  ℕ, ◌+◌, ◌*◌, ◌/◌, ◌%◌, ◌^◌, ◌<◌, ◌≡◌, arith, refl, ap, ◌∙◌, ◌==◌, if◌then◌else◌, Bool, true,
  false, some, update, has, bit_and, bit_and_low, bit_or, ◌>>>◌, ◌<<<◌,
}
use a.Card.{Card}
use a.Ram
use a.Doorbell.{rd64, wr64}
use a.Doorbell.Slots.{high_field}
use a.Mailbox.{service_bridge_safe}
use a.Remote.{xfer_req, boardram_xfer, get_ram_byte, get_ram_word, put_ram_byte, put_ram_word}
use a.Remote.{ram_read_block, ram_write_block}
use a.Remote.Blocks.{blocks_refine}
use a.Doorbell.SelfTest as Flat
use a.Remote.SelfTest.{test_boardram, test_boardram_passes}
use a.Remote.Exchange.{boardram_xfer_timeout, boardram_xfer_stale}
use a.Remote.Answers.{Answers}
use a.Remote.Accessors.{even_mask, accessors_read, accessors_write}
use a.Tests.Data.{memory, card, zeros, memory-IsBytes}

even_below : (off : ℕ) → (bit_and off 0x7ffe < 0x8000) × (bit_and off 0x7ffe % 2 ≡ 0)
even_below off = (omega (arith, even_mask off), omega (arith, even_mask off))

-- A request in numbers.
xfer_req-eq :
    (off v : ℕ) (write : Bool)
    → xfer_req off write v
      ≡ v * 2 ^ 17 + (bit_and off 0x7ffe * 4 + ((if write then 1 else 0) * 2 + 1))
unfolding xfer_req
xfer_req-eq off v write =
    let b : ℕ = if write then 1 else 0 in
    let flag : b < 2 = ground arith in
    let one : bit_or 1 (b <<< 1) ≡ b * 2 + 1 = high_field 1 b 1 (omega arith) in
    let low : bit_or (b * 2 + 1) (bit_and off 0x7ffe <<< 2) ≡ bit_and off 0x7ffe * 4 + (b * 2 + 1) =
      high_field 2 (bit_and off 0x7ffe) (b * 2 + 1) (omega arith) in
    ap (λ (x : ℕ). bit_or (bit_or x (bit_and off 0x7ffe <<< 2)) (v <<< 17)) one
    ∙ ap (λ (x : ℕ). bit_or x (v <<< 17)) low
    ∙ high_field 17 v (bit_and off 0x7ffe * 4 + (b * 2 + 1)) (omega (arith, (even_below off).0))

decoded :
    (off v : ℕ) (write : Bool)
    → let req = xfer_req off write v in
      (has (req >>> 1) 1 ≡ write)
      × (bit_and (req >>> 2) 0x7ffe ≡ bit_and off 0x7ffe)
      × (req >>> 17 ≡ v)
decoded off v write =
    let req : ℕ = xfer_req off write v in
    (
      flag (req / 2) write (flag_at write (xfer_req-eq off v write)),
      omega (
        arith,
        xfer_req-eq off v write,
        even_mask (req / 4),
        (even_below off).0,
        (even_below off).1,
        digit write,
      ),
      omega (arith, xfer_req-eq off v write, (even_below off).0, digit write),
    )
  where
    digit : (b : Bool) → (if b then 1 else 0) < 2
    digit b = ground arith

    flag_at :
        (b : Bool) {r : ℕ}
        → r ≡ v * 2 ^ 17 + (bit_and off 0x7ffe * 4 + ((if b then 1 else 0) * 2 + 1))
        → r / 2 % 2 ≡ (if b then 1 else 0)
    flag_at b e = omega (arith, e, digit b)

    flag : (n : ℕ) (b : Bool) → n % 2 ≡ (if b then 1 else 0) → has n 1 ≡ b
    flag n true h = unfold has in ground (arith, bit_and_low 1 n)
    flag n false h = unfold has in ground (arith, bit_and_low 1 n)

-- What the FPGA of the example makes of the request.
abbrev answering : ℕ → Card → Card
answering i c =
    let req = rd64 0x8010 c in
    let off = bit_and (req >>> 2) 0x7ffe in
    if i == 2
    then (if has (req >>> 1) 1
        then record (wr64 0x8018 1 c) { boardram = Ram.put_ram_word c.boardram off (req >>> 17) }
        else wr64 0x8018 (1 + 2 * Ram.get_ram_word c.boardram off) c)
    else c

answering-Answers : Answers 2 answering
answering-Answers = record {
  waits = λ i c l. ground arith;
  reads = λ c off quiet asked. let d = decoded off 0 false in rw (asked, d.0, d.1) (refl, refl);
  writes = λ c off v quiet asked.
      let d = decoded off v true in rw (asked, d.0, d.1, d.2) (unfold has in refl, refl);
}

accessors_read_example :
    (d : Card) × (get_ram_word answering (service_bridge_safe zeros) true 0x101 card
      ≡ some (Ram.get_ram_word card.boardram (0x101 / 2 * 2), d))
    × (get_ram_byte answering (service_bridge_safe zeros) true 0x101 card
        ≡ some (Ram.get_ram_byte card.boardram 0x101, d))
    × (d.boardram ≡ card.boardram)
    × (rd64 0x8018 d ≡ 0)
unfolding has
accessors_read_example =
    accessors_read zeros answering 2 answering-Answers (omega arith) 0x101 card (omega arith) refl
      memory-IsBytes

accessors_write_example :
    (d : Card) × (e : Card) × (put_ram_word answering
        (service_bridge_safe zeros)
        true
        0x301
        0x1234
        card
      ≡ some d)
    × (put_ram_byte answering (service_bridge_safe zeros) true 0x301 0x1234 card ≡ some e)
    × (d.boardram ≡ Ram.put_ram_word card.boardram (0x301 / 2 * 2) 0x1234)
    × ((j : ℕ) → e.boardram j ≡ Ram.put_ram_byte card.boardram 0x301 0x1234 j)
    × (rd64 0x8018 d ≡ 0)
    × (rd64 0x8018 e ≡ 0)
unfolding has
accessors_write_example =
    accessors_write zeros answering 2 answering-Answers (omega arith) 0x301 0x1234 card
      (omega arith) (omega arith) refl memory-IsBytes

blocks_refine_example :
    (d : Card) × (e : Card) × (ram_read_block answering
        (service_bridge_safe zeros)
        true
        0x7ffe
        0
        5
        zeros
        card
      ≡ some (Ram.ram_read_block card.boardram 0x7ffe 0 5 zeros, d))
    × (d.boardram ≡ card.boardram)
    × (ram_write_block answering (service_bridge_safe zeros) true memory 0x7ffe 0 5 card ≡ some e)
    × (e.boardram ≡ Ram.ram_write_block memory 0x7ffe 0 5 card.boardram)
unfolding has
blocks_refine_example =
    blocks_refine zeros answering 2 answering-Answers (omega arith) 0x7ffe 0 5 memory zeros card
      refl memory-IsBytes memory-IsBytes

test_boardram_passes_example :
    (d : Card) × (test_boardram answering (service_bridge_safe zeros) card ≡ some (0, d))
    × (d.boardram ≡ (Flat.test_boardram card.boardram).1)
unfolding has
test_boardram_passes_example =
    test_boardram_passes zeros answering 2 answering-Answers (omega arith) card refl memory-IsBytes

-- An FPGA that leaves the slots alone.
abbrev silent : ℕ → Card → Card
silent i c = c

boardram_xfer_timeout_example :
    (d : Card) × (boardram_xfer silent (λ c. some c) true 0x100 true 7 card ≡ some (0xffff, d))
    × (rd64 0x8010 d ≡ 0)
unfolding has
boardram_xfer_timeout_example =
    boardram_xfer_timeout silent (λ c. some c) 0x100 7 true card refl (λ i c u. u)
      (λ c u. (c, refl, u))

-- The response of an exchange that was given up.
abbrev late : Card
late = record card { slot = update zeros 0x8018 0x2469 }

boardram_xfer_stale_example :
    (d : Card) × (boardram_xfer (λ i c. c) (λ c. some c) true 0x200 true 7 late ≡ some (0x1234, d))
    × (rd64 0x8010 d ≡ 0)
    × (d.boardram ≡ late.boardram)
boardram_xfer_stale_example =
    boardram_xfer_stale (λ i c. c) (λ c. some c) 0x200 7 0x1234 true late (λ c. refl) (omega arith)
      refl
