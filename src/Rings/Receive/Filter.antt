-- ===== src/Rings/Receive/Filter.antt =====
-- Which frames `gotfunc` takes, and what becomes of them.
use a.Base.{ℕ, ◌≤◌, ◌≡◌, refl, arith, true, false}
use a.Base.{has, some, Array}
use a.Mac.{mungepacket}
use a.Card.{Card}
use a.Rings.Receive.{rx_ready, accepts, store_frame, gotfunc, copy_frame}

module _ (on_interrupt : Card → Card) (stack : Array) where
  -- With the receiver off, a frame of less than 20 bytes, or a ring that has no descriptor, more
  -- than 512, or does not fit card memory, the card is left as it is.
  pub gotfunc_not_ready :
      (databuf : Array) (len : ℕ) (c : Card)
      → rx_ready c len ≡ false
      → gotfunc on_interrupt stack databuf len c ≡ some c
  unfolding gotfunc
  gotfunc_not_ready databuf len c h = rw h refl

  -- Outside loopback mode a frame of at most 4096 bytes that the filter rejects after translation
  -- leaves the card as it is.
  pub gotfunc_rejected :
      (databuf q : Array) (len n : ℕ) (c : Card)
      → has c.am_mode 4 ≡ false
      → len ≤ 4096
      → mungepacket c.mac (copy_frame stack databuf len) len ≡ some (n, q)
      → accepts c q ≡ false
      → gotfunc on_interrupt stack databuf len c ≡ some c
  unfolding gotfunc
  gotfunc_rejected databuf q len n c m l e r = ground arith

  gotfunc_stored :
      (databuf q : Array) (len n : ℕ) (c : Card)
      → has c.am_mode 4 ≡ false
      → rx_ready c len ≡ true
      → len ≤ 4096
      → mungepacket c.mac (copy_frame stack databuf len) len ≡ some (n, q)
      → accepts c q ≡ true
      → gotfunc on_interrupt stack databuf len c ≡ store_frame on_interrupt q len c
  unfolding gotfunc
  gotfunc_stored databuf q len n c m ready l e r = ground arith

  gotfunc_looped :
      (databuf : Array) (len : ℕ) (c : Card)
      → has c.am_mode 4 ≡ true
      → rx_ready c len ≡ true
      → len ≤ 4096
      → gotfunc on_interrupt stack databuf len c
        ≡ store_frame on_interrupt (copy_frame stack databuf len) len c
  unfolding gotfunc
  gotfunc_looped databuf len c m ready l = ground arith
