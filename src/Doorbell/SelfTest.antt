-- ===== src/Doorbell/SelfTest.antt =====
-- `test_boardram` of arm/src/main_doorbell.cpp.
use a.Base.{ℕ, ◌+◌, ◌==◌, if◌then◌else◌, Array}
use a.Base.{◌≡◌, arith, refl, ◌∙◌, ltb, Bool, true, not, ◌&&◌}
use a.Ram.{get_ram_word, put_ram_byte, put_ram_word}
use a.Ram.Words.{get_ram_word-put_ram_word, get_ram_word-put_ram_word_ne, get_ram_byte-put_ram_byte}

-- Phase 1.
unfoldable pub write_patterns : Array → Array
write_patterns ram =
    let a = put_ram_word ram 0x0000 0xDEAD in
    let b = put_ram_word a 0x0002 0xBEEF in
    let c = put_ram_word b 0x7FFE 0x1234 in
    let d = put_ram_word c 0x0100 0xAAAA in put_ram_word d 0x0102 0x5555

-- The number of failed comparisons.
unfoldable pub check_word : Array → ℕ → ℕ → ℕ
check_word ram off expected = if get_ram_word ram off == expected then 0 else 1

-- Phase 2.
unfoldable pub readback : Array → ℕ
unfolding check_word
readback ram =
    check_word ram 0x0000 0xDEAD
    + check_word ram 0x0002 0xBEEF
    + check_word ram 0x7FFE 0x1234
    + check_word ram 0x0100 0xAAAA
    + check_word ram 0x0102 0x5555

-- Phase 3.
unfoldable pub write_bytes : Array → Array
write_bytes ram =
    put_ram_byte (put_ram_byte (put_ram_word ram 0x0200 0x0000) 0x0200 0xCA) 0x0201 0xFE

-- The exit status and the memory that is left.
unfoldable pub test_boardram : Array → ℕ × Array
unfolding readback
test_boardram ram =
    let written = write_patterns ram in
    let bytes = write_bytes written in
    let f = readback written + check_word bytes 0x0200 0xCAFE in (if f == 0 then 0 else 1, bytes)

write_bytes_word : (ram : Array) → get_ram_word (write_bytes ram) 0x0200 ≡ 0xCAFE
unfolding write_bytes get_ram_word
write_bytes_word ram =
    let w : Array = put_ram_word ram 0x0200 0 in
    let b : Array = put_ram_byte w 0x0200 0xCA in
    rw
      (
        get_ram_byte-put_ram_byte b 0x0201 0x0200 0xFE,
        get_ram_byte-put_ram_byte w 0x0200 0x0200 0xCA,
        get_ram_byte-put_ram_byte b 0x0201 0x0201 0xFE,
      )
      refl

-- Two words inside the 32 KB that share no byte.
distant : ℕ → ℕ → Bool
distant off j =
    ltb off 0x7fff && ltb j 0x7fff && not (off == j) && not (off + 1 == j) && not (off == j + 1)

skip :
    (ram : Array) (off v j : ℕ)
    → ltb v 0x10000 ≡ true
    → distant off j ≡ true
    → get_ram_word (put_ram_word ram off v) j ≡ get_ram_word ram j
unfolding distant
skip ram off v j h d =
    get_ram_word-put_ram_word_ne ram off v j (ground arith) (ground arith) (ground arith)
      (ground arith) (ground arith) (ground arith)

write_patterns_words :
    (ram : Array)
    → let w = write_patterns ram in
      (get_ram_word w 0x0000 ≡ 0xDEAD)
      × (get_ram_word w 0x0002 ≡ 0xBEEF)
      × (get_ram_word w 0x7FFE ≡ 0x1234)
      × (get_ram_word w 0x0100 ≡ 0xAAAA)
      × (get_ram_word w 0x0102 ≡ 0x5555)
unfolding write_patterns distant
write_patterns_words ram =
    let a : Array = put_ram_word ram 0x0000 0xDEAD in
    let b : Array = put_ram_word a 0x0002 0xBEEF in
    let c : Array = put_ram_word b 0x7FFE 0x1234 in
    let d : Array = put_ram_word c 0x0100 0xAAAA in
    (
      skip d 0x0102 0x5555 0 refl refl
          ∙ skip c 0x0100 0xAAAA 0 refl refl
          ∙ skip b 0x7FFE 0x1234 0 refl refl
          ∙ skip a 0x0002 0xBEEF 0 refl refl
          ∙ get_ram_word-put_ram_word ram 0 0xDEAD (omega arith) (omega arith),
      skip d 0x0102 0x5555 2 refl refl
          ∙ skip c 0x0100 0xAAAA 2 refl refl
          ∙ skip b 0x7FFE 0x1234 2 refl refl
          ∙ get_ram_word-put_ram_word a 2 0xBEEF (omega arith) (omega arith),
      skip d 0x0102 0x5555 0x7FFE refl refl
          ∙ skip c 0x0100 0xAAAA 0x7FFE refl refl
          ∙ get_ram_word-put_ram_word b 0x7FFE 0x1234 (omega arith) (omega arith),
      skip d 0x0102 0x5555 0x0100 refl refl
          ∙ get_ram_word-put_ram_word c 0x0100 0xAAAA (omega arith) (omega arith),
      get_ram_word-put_ram_word d 0x0102 0x5555 (omega arith) (omega arith),
    )

-- The self test passes whatever the memory held before.
pub test_boardram_passes : (ram : Array) → (test_boardram ram).0 ≡ 0
unfolding test_boardram readback check_word
test_boardram_passes ram =
    let w = write_patterns_words ram in
    rw (w.0, w.1, w.2, w.3, w.4, write_bytes_word (write_patterns ram)) refl
