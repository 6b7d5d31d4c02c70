-- ===== src/Ram/Words.antt =====
-- Bytes and words of card memory: what is written is read back, and nothing else changes.
use a.Base.{ℕ, ◌+◌, ◌-◌, ◌*◌, ◌/◌, ◌%◌, ◌<◌, ◌≡◌, ◌≢◌, arith, bit_xor}
use a.Base.{Array, ◌==◌, if◌then◌else◌, u8, u32, bit_and_low, bit_xor-one, bit_or_fields}
use native.Mathlib.Nat.{mod-eq_of_lt}
use a.Ram.{cell, get_ram_byte, get_ram_word, put_ram_byte, put_ram_word}

-- The byte that stands at an address swaps with its neighbour, inside 32 KB.
pub cell_lem : (off : ℕ) → cell off ≡ (off / 2 * 2 + (1 - off % 2)) % 0x8000
cell_lem off = omega (arith, bit_and_low 15 (bit_xor off 1), bit_xor-one off)

-- Two addresses share a byte exactly when they agree modulo 32 KB.
pub cell-injective : (a b : ℕ) → cell a ≡ cell b → a % 0x8000 ≡ b % 0x8000
cell-injective a b h = omega (arith, cell_lem a, cell_lem b)

pub cell-mod : (a b : ℕ) → a % 0x8000 ≡ b % 0x8000 → cell a ≡ cell b
cell-mod a b h = omega (arith, cell_lem a, cell_lem b)

pub get_ram_byte-put_ram_byte :
    (ram : Array) (i j v : ℕ)
    → get_ram_byte (put_ram_byte ram i v) j
      ≡ (if i % 0x8000 == j % 0x8000 then u8 v else get_ram_byte ram j)
unfolding get_ram_byte put_ram_byte
get_ram_byte-put_ram_byte ram i j v = ground (arith, cell-injective i j, cell-mod i j)

-- A word is written high byte first: a byte read afterwards is its high byte at off, its low byte
-- at off + 1, and what stood there before at every other address of the 32 KB.
pub get_ram_byte-put_ram_word :
    (ram : Array) (off v j : ℕ)
    → v < 0x10000
    → off + 1 < 0x1_0000_0000
    → get_ram_byte (put_ram_word ram off v) j ≡ (
        if (off + 1) % 0x8000 == j % 0x8000
        then v % 256
        else if off % 0x8000 == j % 0x8000
        then v / 256
        else get_ram_byte ram j)
unfolding put_ram_word
get_ram_byte-put_ram_word ram off v j hv ho = ground (
  arith,
  get_ram_byte-put_ram_byte (put_ram_byte ram off (v / 256)) (u32 (off + 1)) j (u8 v),
  get_ram_byte-put_ram_byte ram off j (v / 256),
)

pub get_ram_word_bytes :
    (ram : Array) (off : ℕ)
    → off + 1 < 0x1_0000_0000
    → get_ram_byte ram (off + 1) < 256
    → get_ram_word ram off ≡ get_ram_byte ram off * 256 + get_ram_byte ram (off + 1)
unfolding get_ram_word
get_ram_word_bytes ram off ho hb =
    ground (
      arith,
      mod-eq_of_lt ho,
      bit_or_fields 8 (get_ram_byte ram off) (get_ram_byte ram (off + 1)) hb,
    )

-- A word of 16 bits that was written is read back, at any address of 32 bits whose successor has
-- 32 bits too.
pub get_ram_word-put_ram_word :
    (ram : Array) (off v : ℕ)
    → v < 0x10000
    → off + 1 < 0x1_0000_0000
    → get_ram_word (put_ram_word ram off v) off ≡ v
get_ram_word-put_ram_word ram off v hv ho =
    let w : Array = put_ram_word ram off v in
    let bytes : (j : ℕ)
        → get_ram_byte w j ≡ (
            if (off + 1) % 0x8000 == j % 0x8000
            then v % 256
            else if off % 0x8000 == j % 0x8000
            then v / 256
            else get_ram_byte ram j) =
      λ j. get_ram_byte-put_ram_word ram off v j hv ho in
    ground (arith, bytes off, bytes (off + 1), get_ram_word_bytes w off ho)

-- A word that shares no byte with the one written reads as before.
pub get_ram_word-put_ram_word_ne :
    (ram : Array) (off v j : ℕ)
    → v < 0x10000
    → off + 1 < 0x1_0000_0000
    → j + 1 < 0x1_0000_0000
    → (off + 1) % 0x8000 ≢ j % 0x8000
    → off % 0x8000 ≢ j % 0x8000
    → off % 0x8000 ≢ (j + 1) % 0x8000
    → get_ram_word (put_ram_word ram off v) j ≡ get_ram_word ram j
unfolding get_ram_word
get_ram_word-put_ram_word_ne ram off v j hv ho hj a b c = ground (
  arith,
  mod-eq_of_lt hj,
  get_ram_byte-put_ram_word ram off v j hv ho,
  get_ram_byte-put_ram_word ram off v (j + 1) hv ho,
)
