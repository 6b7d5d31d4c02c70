-- ===== src/Bridge/Client/Window.antt =====
-- Card memory as arm/src/bridge_client.cpp writes it, and as the daemon reads it.
use a.Base.{ℕ, ◌+◌, ◌*◌, ◌/◌, ◌%◌, ◌<◌, ◌≡◌, arith}
use a.Base.{Array, update, u8, u32, bit_or, bit_or_fields, ◌<<<◌, ◌>>>◌, ◌∙◌}
use a.Ram.{cell, get_ram_word, get_ram_byte}
use a.Ram.Words.{cell_lem}

unfoldable pub ram_put_word : ℕ → ℕ → Array → Array
ram_put_word off v ram = update (update ram off (u8 (v >>> 8))) (off + 1) (u8 v)

unfoldable pub ram_get_word : ℕ → Array → ℕ
ram_get_word off ram = bit_or (ram off <<< 8) (ram (off + 1))

word_bytes :
    (ram : Array) (off v : ℕ)
    → v < 0x10000
    → (ram_put_word off v ram off ≡ v / 256) × (ram_put_word off v ram (off + 1) ≡ v % 256)
unfolding ram_put_word
word_bytes ram off v h = (ground arith, ground arith)

-- A word that the client writes at an even address is what the client reads there, and what the
-- daemon reads there has the two bytes the other way round.
pub ram_put_word_swapped :
    (ram : Array) (off v : ℕ)
    → off % 2 ≡ 0
    → off < 0x8000
    → v < 0x10000
    → (ram_get_word off (ram_put_word off v ram) ≡ v)
      × (get_ram_word (ram_put_word off v ram) off ≡ v % 256 * 256 + v / 256)
unfolding ram_get_word get_ram_word get_ram_byte
ram_put_word_swapped ram off v even inside h =
    let w : Array = ram_put_word off v ram in
    let bytes = word_bytes ram off v h in
    let first : cell off ≡ off + 1 = omega (arith, cell_lem off, even) in
    let second : cell (u32 (off + 1)) ≡ off = omega (arith, cell_lem (u32 (off + 1)), even) in
    (
      rw (bytes.0, bytes.1) (bit_or_fields 8 (v / 256) (v % 256) (omega arith) ∙ omega arith),
      rw (first, second, bytes.0, bytes.1)
          (bit_or_fields 8 (v % 256) (v / 256) (omega arith) ∙ omega arith),
    )
