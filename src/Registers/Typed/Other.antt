-- ===== src/Registers/Typed/Other.antt =====
-- The registers above CSR0 keep the ranges of the variables behind them.
use a.Base.{
  ℕ, ◌*◌, ◌^◌, ◌<◌, arith, ◌==◌, leb, bit_and, bit_or, has, update, Array, ◌<<<◌, ◌>>>◌, kept_if,
  bit_and_low,
}
use a.Base.Bits.{bit_and-lt, bit_or-lt}
use a.Ram.Bytes.{IsBytes, update-IsBytes}
use a.Types.{csr0_stop}
use a.Card.{Card, csr0}
use a.Registers.{write_stopped, write_other, chip_init_mask}
use a.Registers.WellFormed.{words-update}
use a.Registers.Typed.{Typed, with_csr-Typed}

pub write_stopped-Typed : (c : Card) (n v : ℕ) → v < 0x10000 → Typed c → Typed (write_stopped c n v)
unfolding write_stopped
write_stopped-Typed c n v b h =
    kept_if Typed (has (csr0 c) csr0_stop)
      (with_csr-Typed c _ c.am_initialized (words-update c.csr n v h.csr b) h) h

-- What `write_other` writes beside the registers themselves.
written-Typed :
    (c : Card) (fakemac : Array) (mode ladrf rlen tlen rdra tdra tdr rdr : ℕ)
    → IsBytes fakemac
    → mode < 0x10000
    → ladrf < 2 ^ 64
    → rlen < 0x10000
    → tlen < 0x10000
    → rdra < 2 ^ 32
    → tdra < 2 ^ 32
    → Typed c
    → Typed (record c {
      fakemac = fakemac;
      am_mode = mode;
      am_ladrf = ladrf;
      am_rdr_rlen = rlen;
      am_tdr_tlen = tlen;
      am_rdr_rdra = rdra;
      am_tdr_tdra = tdra;
      tdr_offset = tdr;
      rdr_offset = rdr;
    })
written-Typed c fakemac mode ladrf rlen tlen rdra tdra tdr rdr f m l rl tl rd td h = record {
  csr = h.csr;
  rap = h.rap;
  mode = m;
  ladrf = l;
  rlen = rl;
  tlen = tl;
  rdra = rd;
  tdra = td;
  fakemac = f;
}

-- 16 bits of `x` are replaced by `v`, shifted to their place.
field-lt : (n x m k v : ℕ) → x < 2 ^ n → v * 2 ^ k < 2 ^ n → bit_or (bit_and x m) (v <<< k) < 2 ^ n
field-lt n x m k v h b = bit_or-lt n _ _ (bit_and-lt n x m h) b

module _ (c : Card) (v : ℕ) (b : v < 0x10000) (h : Typed c) where
  ladrf :
      (m k : ℕ)
      → v * 2 ^ k < 2 ^ 64
      → Typed (record c { am_ladrf = bit_or (bit_and c.am_ladrf m) (v <<< k) })
  ladrf m k l =
      written-Typed c _ _ _ _ _ _ _ _ _ h.fakemac h.mode (field-lt 64 c.am_ladrf m k v h.ladrf l)
        h.rlen h.tlen h.rdra h.tdra h

  ladrf_low : Typed (record c { am_ladrf = bit_or (bit_and c.am_ladrf 0xffff_ffff_ffff_0000) v })
  ladrf_low =
      written-Typed c _ _ _ _ _ _ _ _ _ h.fakemac h.mode
        (bit_or-lt 64 _ v (bit_and-lt 64 c.am_ladrf _ h.ladrf) (omega (arith, b))) h.rlen h.tlen
        h.rdra h.tdra h

  mac :
      (i j : ℕ)
      → Typed (record c { fakemac = update (update c.fakemac i (v >>> 8)) j (bit_and v 0xff) })
  mac i j =
      written-Typed c _ _ _ _ _ _ _ _ _
        (update-IsBytes _ j _ (update-IsBytes c.fakemac i _ h.fakemac (omega (arith, b)))
          (omega (arith, bit_and_low 8 v)))
        h.mode h.ladrf h.rlen h.tlen h.rdra h.tdra h

  -- A ring's address is written, and cut to card memory.
  rings :
      (rdra tdra : ℕ)
      → rdra < 2 ^ 32
      → tdra < 2 ^ 32
      → Typed (chip_init_mask (record c { am_rdr_rdra = rdra; am_tdr_tdra = tdra }))
  unfolding chip_init_mask
  rings rdra tdra r t =
      written-Typed c _ _ _ _ _ _ _ _ _ h.fakemac h.mode h.ladrf h.rlen h.tlen
        (bit_and-lt 32 rdra 0x7fff r) (bit_and-lt 32 tdra 0x7fff t) h

  low_half : (x : ℕ) → x < 2 ^ 32 → bit_or (bit_and x 0xffff_0000) v < 2 ^ 32
  low_half x l = bit_or-lt 32 _ v (bit_and-lt 32 x _ l) (omega (arith, b))

  high_half : (x : ℕ) → x < 2 ^ 32 → bit_or (bit_and x 0xffff) (v <<< 16) < 2 ^ 32
  high_half x l = field-lt 32 x 0xffff 16 v l (omega (arith, b))

  pub write_other-Typed : Typed (write_other c v)
  unfolding write_other
  write_other-Typed = kept_if Typed (c.rap == 8) (ladrf _ 48 (omega (arith, b))) (
      kept_if Typed (c.rap == 9) (ladrf _ 32 (omega (arith, b))) (
        kept_if Typed (c.rap == 10) (ladrf _ 16 (omega (arith, b))) (
          kept_if Typed (c.rap == 11) (ladrf_low) (
            kept_if Typed (c.rap == 12) (mac 1 0) (
              kept_if Typed (c.rap == 13) (mac 3 2) (
                kept_if Typed (c.rap == 14) (mac 5 4) (
                  kept_if Typed (c.rap == 15)
                    (written-Typed c _ _ _ _ _ _ _ _ _ h.fakemac b h.ladrf h.rlen h.tlen h.rdra
                      h.tdra h)
                    (kept_if Typed (c.rap == 24) (rings _ _ (low_half c.am_rdr_rdra h.rdra) h.tdra)
                      (kept_if Typed (c.rap == 25)
                        (rings _ _ (high_half c.am_rdr_rdra h.rdra) h.tdra)
                        (kept_if Typed (c.rap == 30)
                          (rings _ _ h.rdra (low_half c.am_tdr_tdra h.tdra))
                          (kept_if Typed (c.rap == 31)
                            (rings _ _ h.rdra (high_half c.am_tdr_tdra h.tdra))
                            (kept_if Typed (c.rap == 76)
                              (written-Typed c _ _ _ _ _ _ _ _ _ h.fakemac h.mode h.ladrf
                                (omega (arith, b)) h.tlen h.rdra h.tdra h)
                              (kept_if Typed (c.rap == 78)
                                (written-Typed c _ _ _ _ _ _ _ _ _ h.fakemac h.mode h.ladrf h.rlen
                                  (omega (arith, b)) h.rdra h.tdra h)
                                (kept_if Typed (leb 4 c.rap)
                                  (with_csr-Typed c _ c.am_initialized
                                    (words-update c.csr c.rap v h.csr b) h)
                                  h))))))))))))))
