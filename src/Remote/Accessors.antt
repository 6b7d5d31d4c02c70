-- ===== src/Remote/Accessors.antt =====
-- The accessors of arm/include/boardram_access.h with BOARDRAM_REMOTE against those without it.
use a.Base.{
  ℕ, ◌+◌, ◌*◌, ◌/◌, ◌%◌, ◌<◌, ◌≡◌, refl, arith, sym, ap, ◌∙◌, ◌==◌, if◌then◌else◌, Bool, true,
  false, some,
}
use a.Base.{
  Array, bit_and, bit_or, bit_and_low, bit_or_fields, u8, u16, u32, ◌<<<◌, ◌>>>◌, has, Bool-cases,
  inl, inr,
}
use a.Base.Bits.{bit_and_step}
use a.Card.{Card}
use a.Ram
use a.Ram.{cell}
use a.Ram.Bytes.{IsBytes, get_ram_byte-lt}
use a.Ram.Words.{cell_lem, get_ram_word_bytes}
use a.Doorbell.{rd64}
use a.Mailbox.{service_bridge_safe}
use a.Remote.{
  boardram_xfer, boardram_rb, boardram_rw, boardram_wb, boardram_ww, get_ram_byte, get_ram_word,
  put_ram_byte, put_ram_word,
}
use a.Remote.Answers.{Answers, xfer_reads, xfer_writes}

pub even_mask : (x : ℕ) → bit_and x 0x7ffe ≡ x % 0x8000 / 2 * 2
even_mask x = omega (arith, bit_and_step x 0x7ffe, bit_and_low 14 (x / 2))

masked :
    (off : ℕ) → off < 0x8000 → bit_and (bit_and (bit_and off 0x7fff) 0x7ffe) 0x7ffe ≡ off / 2 * 2
masked off l = omega (
  arith,
  bit_and_low 15 off,
  even_mask (bit_and off 0x7fff),
  even_mask (bit_and (bit_and off 0x7fff) 0x7ffe),
)

low_mask : (off : ℕ) → off < 0x8000 → bit_and off 0x7fff ≡ off
low_mask off l = omega (arith, bit_and_low 15 off)

double_mask : (x m : ℕ) → bit_and x (2 * m) ≡ 2 * bit_and (x / 2) m
double_mask x m =
    let half : 2 * m / 2 ≡ m = omega arith in
    omega (arith, bit_and_step x (2 * m), ap (bit_and (x / 2)) half)

high_mask : (w : ℕ) → w < 0x10000 → bit_and w 0xff00 ≡ (w / 256) <<< 8
high_mask w l = omega (
  arith,
  double_mask w 0x7f80,
  double_mask (w / 2) 0x3fc0,
  double_mask (w / 2 / 2) 0x1fe0,
  double_mask (w / 2 / 2 / 2) 0x0ff0,
  double_mask (w / 2 / 2 / 2 / 2) 0x07f8,
  double_mask (w / 2 / 2 / 2 / 2 / 2) 0x03fc,
  double_mask (w / 2 / 2 / 2 / 2 / 2 / 2) 0x01fe,
  double_mask (w / 2 / 2 / 2 / 2 / 2 / 2 / 2) 0x00ff,
  bit_and_low 8 (w / 2 / 2 / 2 / 2 / 2 / 2 / 2 / 2),
)

has_odd : (off : ℕ) → has off 1 ≡ (off % 2 == 1)
unfolding has
has_odd off = ground (arith, bit_and_low 1 off)

-- The byte that is chosen from the word it stands in.
chosen :
    (ram : Array) (off : ℕ)
    → IsBytes ram
    → off < 0x8000
    → let w = Ram.get_ram_word ram (off / 2 * 2) in
      (if has off 1 then u8 (bit_and w 0xff) else u8 (w >>> 8)) ≡ Ram.get_ram_byte ram off
chosen ram off b l =
    let e : ℕ = off / 2 * 2 in
    let w : ℕ = Ram.get_ram_word ram e in
    let bytes : w ≡ Ram.get_ram_byte ram e * 256 + Ram.get_ram_byte ram (e + 1) =
      get_ram_word_bytes ram e (omega arith) (get_ram_byte-lt ram (e + 1) b) in
    elim (Bool-cases (off % 2 == 1)) [
      | inl o ↦
          let odd : off ≡ e + 1 = ground arith in
          rw (has_odd off, o)
            (omega (arith, bytes, bit_and_low 8 w, get_ram_byte-lt ram (e + 1) b)
              ∙ ap (Ram.get_ram_byte ram) (sym odd))
      | inr o ↦
          let even : off ≡ e = ground arith in
          rw (has_odd off, o)
            (omega (arith, bytes, get_ram_byte-lt ram e b, get_ram_byte-lt ram (e + 1) b)
              ∙ ap (Ram.get_ram_byte ram) (sym even))
    ]

module _ (stack : Array) (fpga : ℕ → Card → Card) (k : ℕ) (answers : Answers k fpga)
    (in_time : k < 10000) where
  -- The remote get_ram_word and get_ram_byte end without a fault, return what the accessors
  -- without BOARDRAM_REMOTE return, get_ram_word at the even address at or below off, and leave
  -- card memory as it is and no response behind, if the FPGA answers each request by the same
  -- poll of the first attempt, with no response left over, card memory holds bytes and off is
  -- below 32 KB; the daemon of the mailbox serves its requests between the polls.
  pub accessors_read :
      (off : ℕ) (c : Card)
      → off < 0x8000
      → has (rd64 0x8018 c) 1 ≡ false
      → IsBytes c.boardram
      → (d : Card) × (get_ram_word fpga (service_bridge_safe stack) true off c
          ≡ some (Ram.get_ram_word c.boardram (off / 2 * 2), d))
        × (get_ram_byte fpga (service_bridge_safe stack) true off c
            ≡ some (Ram.get_ram_byte c.boardram off, d))
        × (d.boardram ≡ c.boardram)
        × (rd64 0x8018 d ≡ 0)
  unfolding get_ram_word boardram_rw get_ram_byte boardram_rb
  accessors_read off c l quiet bytes =
      let e : ℕ = bit_and (bit_and off 0x7fff) 0x7ffe in
      let w : ℕ = Ram.get_ram_word c.boardram (off / 2 * 2) in
      let r = xfer_reads stack fpga k answers in_time e c quiet bytes in
      let read : boardram_xfer fpga (service_bridge_safe stack) true e false 0 c
          ≡ some (Ram.get_ram_word c.boardram (off / 2 * 2), r.0) =
        r.1 ∙ ap (λ (x : ℕ). some (Ram.get_ram_word c.boardram x, r.0)) (masked off l) in
      (
        r.0,
        read,
        rw read (
            ap (λ (b : Bool). some ((if b then u8 (bit_and w 0xff) else u8 (w >>> 8)), r.0))
              (ap (λ (x : ℕ). has x 1) (low_mask off l))
            ∙ ap (λ (x : ℕ). some (x, r.0)) (chosen c.boardram off bytes l)),
        r.2,
        r.3,
      )

put_word_at :
    (ram : Array) (e n hi lo j : ℕ)
    → e + 1 < 0x8000
    → hi < 256
    → lo < 256
    → n ≡ hi * 256 + lo
    → Ram.put_ram_word ram e n j
      ≡ (if j == cell (e + 1) then lo else if j == cell e then hi else ram j)
unfolding Ram.put_ram_word Ram.put_ram_byte
put_word_at ram e n hi lo j l a b h =
    let small : u32 (e + 1) ≡ e + 1 = omega arith in
    let high : u8 (n >>> 8) ≡ hi = omega arith in
    let low : u8 (u8 n) ≡ lo = omega arith in rw (small, high, low) (ground arith)

-- The word that replaces one of its bytes.
abbrev replaced : ℕ → Bool → ℕ → ℕ
replaced w odd v =
    if odd then bit_or (bit_and w 0xff00) (u8 v) else bit_or (u8 v <<< 8) (bit_and w 0xff)

replaced_lem :
    (w v : ℕ) (odd : Bool)
    → w < 0x10000
    → replaced w odd v
      ≡ (if odd then w / 256 else v % 256) * 256 + (if odd then v % 256 else w % 256)
replaced_lem w v true l =
    ap (λ x. bit_or x (v % 256)) (high_mask w l) ∙ bit_or_fields 8 (w / 256) (v % 256) (omega arith)
replaced_lem w v false l =
    ap (bit_or ((v % 256) <<< 8)) (bit_and_low 8 w)
    ∙ bit_or_fields 8 (v % 256) (w % 256) (omega arith)

written :
    (ram : Array) (off v j : ℕ)
    → IsBytes ram
    → off < 0x8000
    → let w = Ram.get_ram_word ram (off / 2 * 2) in
      Ram.put_ram_word ram (off / 2 * 2) (replaced w (has off 1) v) j ≡ Ram.put_ram_byte ram off v j
unfolding Ram.put_ram_byte Ram.get_ram_byte
written ram off v j b l =
    let e : ℕ = off / 2 * 2 in
    let w : ℕ = Ram.get_ram_word ram e in
    let bytes : w ≡ ram (cell e) * 256 + ram (cell (e + 1)) =
      get_ram_word_bytes ram e (omega arith) (get_ram_byte-lt ram (e + 1) b) in
    let high : w / 256 ≡ ram (cell e) = omega (arith, bytes, b (cell (e + 1))) in
    let low : w % 256 ≡ ram (cell (e + 1)) = omega (arith, bytes, b (cell (e + 1))) in
    let small : w < 0x10000 = omega (arith, bytes, b (cell e), b (cell (e + 1))) in
    let n : ℕ = replaced w (off % 2 == 1) v in
    elim (Bool-cases (off % 2 == 1)) [
      | inl o ↦
          let odd : off ≡ e + 1 = ground arith in
          rw (has_odd off, o)
            (put_word_at ram e (replaced w true v) (ram (cell e)) (v % 256) j (omega arith)
                (b (cell e)) (omega arith)
                (replaced_lem w v true small ∙ ap (λ (x : ℕ). x * 256 + v % 256) high)
              ∙ ground (arith, ap cell odd))
      | inr o ↦
          let even : off ≡ e = ground arith in
          rw (has_odd off, o)
            (put_word_at ram e (replaced w false v) (v % 256) (ram (cell (e + 1))) j (omega arith)
                (omega arith) (b (cell (e + 1)))
                (replaced_lem w v false small ∙ ap (λ (x : ℕ). v % 256 * 256 + x) low)
              ∙ ground (arith, ap cell even, cell_lem e, cell_lem (e + 1)))
    ]

module _ (stack : Array) (fpga : ℕ → Card → Card) (k : ℕ) (answers : Answers k fpga)
    (in_time : k < 10000) where
  -- The remote put_ram_word and put_ram_byte end without a fault and leave card memory as the
  -- accessors without BOARDRAM_REMOTE do and no response behind, put_ram_word at the even address
  -- at or below off, if the FPGA answers each request by the same poll of the first attempt, with
  -- no response left over, card memory holds bytes, off is below 32 KB and the value has 16 bits;
  -- the daemon of the mailbox serves its requests between the polls.
  pub accessors_write :
      (off v : ℕ) (c : Card)
      → off < 0x8000
      → v < 0x10000
      → has (rd64 0x8018 c) 1 ≡ false
      → IsBytes c.boardram
      → (d : Card) × (e : Card) × (put_ram_word fpga (service_bridge_safe stack) true off v c
          ≡ some d)
        × (put_ram_byte fpga (service_bridge_safe stack) true off v c ≡ some e)
        × (d.boardram ≡ Ram.put_ram_word c.boardram (off / 2 * 2) v)
        × ((j : ℕ) → e.boardram j ≡ Ram.put_ram_byte c.boardram off v j)
        × (rd64 0x8018 d ≡ 0)
        × (rd64 0x8018 e ≡ 0)
  unfolding put_ram_word boardram_ww put_ram_byte boardram_wb
  accessors_write off v c l b quiet bytes =
      let at : ℕ = bit_and (bit_and off 0x7fff) 0x7ffe in
      let ram : Array = c.boardram in
      let word : u16 v ≡ v = omega arith in
      let x = xfer_writes stack fpga k answers in_time at (u16 v) c quiet in
      let r = xfer_reads stack fpga k answers in_time at c quiet bytes in
      let w : ℕ = Ram.get_ram_word c.boardram (bit_and at 0x7ffe) in
      let odd : has (bit_and off 0x7fff) 1 ≡ has off 1 = ap (λ (x : ℕ). has x 1) (low_mask off l) in
      let y =
        xfer_writes stack fpga k answers in_time at (replaced w (has (bit_and off 0x7fff) 1) v) r.0
          (ap (λ (x : ℕ). has x 1) r.3 ∙ unfold has in refl) in
      (
        x.0,
        y.0,
        rw x.2 refl,
        rw (r.1, y.2) refl,
        x.3
            ∙ ap (λ (a : ℕ). Ram.put_ram_word c.boardram a (u16 v)) (masked off l)
            ∙ ap (Ram.put_ram_word c.boardram (off / 2 * 2)) word,
        λ j.
            ap (λ (m : Array). m j) y.3
            ∙ ap
                (λ (m : Array).
                  Ram.put_ram_word m (bit_and at 0x7ffe) (replaced w (has (bit_and off 0x7fff) 1) v)
                    j)
                r.2
            ∙ ap
                (λ (a : ℕ).
                  Ram.put_ram_word ram a
                    (replaced (Ram.get_ram_word ram a) (has (bit_and off 0x7fff) 1) v) j)
                (masked off l)
            ∙ ap
                (λ (o : Bool).
                  Ram.put_ram_word ram (off / 2 * 2)
                    (replaced (Ram.get_ram_word ram (off / 2 * 2)) o v) j)
                odd
            ∙ written ram off v j bytes l,
        x.4,
        y.4,
      )
